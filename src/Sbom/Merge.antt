-- ===== src/Sbom/Merge.antt =====
-- sbom_ingest.py: detect_sboms, _key and build_scan_input. The written document is the list of its
-- components; the properties that it carries are the counts of the result.
use el_sca_ansamble.Prelude.{
  ℕ, suc, String, Option, none, some, List, [], ◌∷◌, ◌++◌, length, if◌then◌else◌,
}
use el_sca_ansamble.Prelude.Keys.{nat_eq, string_eq, pair_eq, contains, keys}
use el_sca_ansamble.Prelude.Sort.{sort}
use el_sca_ansamble.Prelude.Text.{strip, join}
use el_sca_ansamble.Extraction.Archive.{path_less}
use el_sca_ansamble.Sbom.Json.{Json, object, Fields, get}
use el_sca_ansamble.Sbom.Walk.{Walked, raised, found, chain, components_from_cyclonedx}
use el_sca_ansamble.Sbom.Components.{JsonFile, shown, shown_or_empty, sniff, components_of, is_own}

abbrev pub Key : Type 0
Key = String × String

abbrev pub Merged : Type 0
Merged = List (Key × Fields)

abbrev purl_key : String → String → Key
purl_key String.[] other = ("nv", other)
purl_key (String.◌∷◌ c s) other = ("purl", String.◌∷◌ c s)

unfoldable pub key_of : (Json → String) → Fields → Key
key_of repr comp =
    purl_key (strip (shown_or_empty repr (get "purl" comp)))
      (join "" (shown repr (get "name" comp) ∷ "@" ∷ shown repr (get "version" comp) ∷ []))

-- `merged.setdefault(key, comp)`
unfoldable pub set_default : Key → Fields → Merged → Merged
set_default k comp merged = if contains k (keys merged) then merged else merged ++ (k, comp) ∷ []

unfoldable pub merge_all : (Json → String) → List Fields → Merged → Merged
merge_all repr [] merged = merged
merge_all repr (c ∷ cs) merged = merge_all repr cs (set_default (key_of repr c) c merged)

pub record Provided : Type 0 where
  pub file : JsonFile
  pub format : String
  pub components : ℕ

-- A document with no component is left out.
abbrev pub unless_empty : JsonFile → String → List Fields → List Provided → List Provided
unless_empty f format [] found_later = found_later
unless_empty f format (c ∷ cs) found_later =
    record { file = f; format = format; components = length (c ∷ cs) } ∷ found_later

abbrev pub noted :
    (Json → String) → ℕ → JsonFile → Option String → Walked (List Provided) → Walked (List Provided)
noted repr fuel f none rest = rest
noted repr fuel f (some format) rest =
    chain (components_of repr fuel f.doc format)
      (λ cs. chain rest (λ ps. found (unless_empty f format cs ps)))

unfoldable pub detect_each : (Json → String) → ℕ → List JsonFile → Walked (List Provided)
detect_each repr fuel [] = found []
detect_each repr fuel (f ∷ fs) =
    let rest = detect_each repr fuel fs in
    if is_own f then rest else noted repr fuel f (sniff repr f) rest

-- `none` is a tree that is no directory; else the files below it whose names end in ".json".
unfoldable pub detect_sboms : (Json → String) → ℕ → Option (List JsonFile) → Walked (List Provided)
detect_sboms repr fuel none = found []
detect_sboms repr fuel (some fs) = detect_each repr fuel (sort (λ f g. path_less f.path g.path) fs)

-- The base document's components: none where it cannot be parsed, and an exception where it is no
-- mapping.
abbrev pub base_components : ℕ → Option Json → Walked (List Fields)
base_components fuel none = found []
base_components fuel (some (object doc)) = components_from_cyclonedx fuel doc
base_components fuel (some v) = raised

abbrev pub from_base : (Json → String) → ℕ → JsonFile → Walked Merged
from_base repr fuel base =
    if base.is_file
    then chain (base_components fuel base.doc) (λ cs. found (merge_all repr cs []))
    else found []

abbrev pub or_syft : (Json → String) → ℕ → JsonFile → Merged → Walked Merged
or_syft repr fuel syft_side [] =
    if syft_side.is_file
    then chain (components_of repr fuel syft_side.doc "syft") (λ cs. found (merge_all repr cs []))
    else found []
or_syft repr fuel syft_side (entry ∷ merged) = found (entry ∷ merged)

-- The base SBOM of the run, with the file "syft.json" beside it, where one is given.
unfoldable pub merged_base : (Json → String) → ℕ → Option (JsonFile × JsonFile) → Walked Merged
merged_base repr fuel none = found []
merged_base repr fuel (some (base, syft_side)) =
    chain (from_base repr fuel base) (or_syft repr fuel syft_side)

-- The number of keys that were not there is counted on the way.
abbrev pub count_added : (Json → String) → List Fields → Merged × ℕ → Merged × ℕ
count_added repr [] s = s
count_added repr (c ∷ cs) (merged, added) = count_added repr cs (
  set_default (key_of repr c) c merged,
  if contains (key_of repr c) (keys merged) then added else suc added,
)

unfoldable pub add_provided : (Json → String) → ℕ → List Provided → Merged × ℕ → Walked (Merged × ℕ)
add_provided repr fuel [] s = found s
add_provided repr fuel (p ∷ ps) s =
    chain (components_of repr fuel p.file.doc p.format)
      (λ cs. add_provided repr fuel ps (count_added repr cs s))

abbrev pub values : Merged → List Fields
values [] = []
values ((k, c) ∷ merged) = c ∷ values merged

pub record ScanInput : Type 0 where
  pub components : List Fields
  pub provided_sboms : List Provided
  pub components_from_syft : ℕ
  pub components_from_provided : ℕ
  pub components_total : ℕ

unfoldable pub build_scan_input :
    (Json → String) → ℕ → Option (List JsonFile) → Option (JsonFile × JsonFile) → Walked ScanInput
build_scan_input repr fuel tree base = chain (merged_base repr fuel base) (λ first.
    chain (detect_sboms repr fuel tree) (λ provided.
      chain (add_provided repr fuel provided (first, 0)) (λ s. found (record {
        components = values s.0;
        provided_sboms = provided;
        components_from_syft = length first;
        components_from_provided = s.1;
        components_total = length s.0;
      }))))
