-- ===== src/Tests/Documents.antt =====
-- A delivered document with nested components, and the document of the run, which has one of them.
use el_sca_ansamble.Prelude.{
  ◌≤◌, String, ◌≡◌, ◌≢◌, refl, true, Option, some, List, [], ◌∷◌, any, arith,
}
use el_sca_ansamble.Prelude.Keys.{contains}
use el_sca_ansamble.Prelude.Sort.{sort, insert_sorted}
use el_sca_ansamble.Prelude.Text.{strip, join}
use el_sca_ansamble.Sbom.Json.{
  Json, string, array, object, Items, no_items, item, Fields, no_fields, field, get, iterated,
}
use el_sca_ansamble.Sbom.Walk.{Walked, found, raised, exhausted, walk, components_from_cyclonedx}
use el_sca_ansamble.Sbom.Traversal.{outcome, components_from_cyclonedx-visit_nested}
use el_sca_ansamble.Sbom.Nested.{visit_nested, passes_nested}
use el_sca_ansamble.Sbom.Components.{JsonFile, components_of, format_of, sniff, shown}
use el_sca_ansamble.Sbom.Merge.{
  ScanInput, key_of, set_default, merge_all, detect_each, detect_sboms, merged_base, add_provided,
  build_scan_input,
}
use el_sca_ansamble.Sbom.Merged.{IsMerge, build_scan_input-IsMerge}
use el_sca_ansamble.Sbom.Fuel.{build_scan_input-terminates, EnoughTree, EnoughBase}

abbrev leaf : String → Json
leaf name = object (field "name" (string name) no_fields)

abbrev doc_of : Items → Fields
doc_of xs = field "bomFormat" (string "CycloneDX") (field "components" (array xs) no_fields)

abbrev delivered : Fields
delivered = doc_of (
    item
      (object (
        field "name" (string "a")
          (field "components" (array (item (leaf "b") no_items)) no_fields)))
      (item (leaf "c") no_items))

abbrev of_run : Fields
of_run = doc_of (item (leaf "c") (item (leaf "d") no_items))

abbrev repr : Json → String
repr v = "..."

abbrev file_of : String → Fields → JsonFile
file_of name doc = record {
  path = name ∷ [];
  own_path = some name;
  is_file = true;
  size = some 100;
  head = some " {";
  doc = some (object doc);
}

abbrev tree : Option (List JsonFile)
tree = some (file_of "bom.json" delivered ∷ [])

abbrev base : Option (JsonFile × JsonFile)
base = some (file_of "cyclonedx.json" of_run, file_of "syft.json" no_fields)

abbrev no_input : ScanInput
no_input = record {
  components = [];
  provided_sboms = [];
  components_from_syft = 0;
  components_from_provided = 0;
  components_total = 0;
}

abbrev get_input : Walked ScanInput → ScanInput
get_input exhausted = no_input
get_input raised = no_input
get_input (found r) = r

abbrev scan_input : ScanInput
scan_input = get_input (build_scan_input repr 5 tree base)

merges :
    (build_scan_input repr 5 tree base ≡ found scan_input)
    × (scan_input.components_total ≡ 4)
    × (scan_input.components_from_provided ≡ 2)
unfolding build_scan_input merged_base merge_all set_default key_of contains strip join shown get
    iterated walk components_from_cyclonedx detect_sboms detect_each sort insert_sorted sniff
    format_of components_of add_provided any
merges = (refl, refl, refl)

build_scan_input-IsMerge_example : IsMerge repr 5 tree base scan_input
build_scan_input-IsMerge_example = build_scan_input-IsMerge repr 5 tree base scan_input merges.0

five : passes_nested delivered ≤ 5
unfolding passes_nested
five = omega arith

components_from_cyclonedx-visit_nested_example :
    components_from_cyclonedx 5 delivered ≡ outcome (visit_nested delivered)
components_from_cyclonedx-visit_nested_example =
    components_from_cyclonedx-visit_nested 5 delivered five

enough_tree : EnoughTree 5 tree
enough_tree = (five, tt)

enough_base : EnoughBase 5 base
unfolding passes_nested
enough_base = (omega arith, omega arith)

build_scan_input-terminates_example : build_scan_input repr 5 tree base ≢ exhausted
build_scan_input-terminates_example =
    build_scan_input-terminates repr 5 tree base enough_tree enough_base
