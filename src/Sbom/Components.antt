-- ===== src/Sbom/Components.antt =====
-- sbom_ingest.py: the recognition of SBOM documents and their components. `repr` is Python's string
-- of a list or a mapping. A file carries what reading it gives.
use text.Mathlib.Text.{starts_with}
use Prim.Native.Char.{code}
use el_sca_ansamble.Prelude.{
  ℕ, String, Bool, true, false, ◌&&◌, ◌||◌, Option, none, some, List, [], ◌∷◌, any, leb,
  if◌then◌else◌,
}
use el_sca_ansamble.Prelude.Keys.{◌==◌, nat_eq, string_eq}
use el_sca_ansamble.Sbom.Json.{
  Json, null, boolean, number, string, array, object, Items, no_items, item, Fields, no_fields,
  field, get, truthy, iterated,
}
use el_sca_ansamble.Sbom.Walk.{Walked, raised, found, chain, components_from_cyclonedx}

abbrev max_sbom_bytes : ℕ
max_sbom_bytes = 536870912

abbrev own_sbom_dirs : List String
own_sbom_dirs = "artifacts/sbom" ∷ "artifacts/_sbom_probe" ∷ []

-- A file that may be a document: its path below the root of the program's own output, where it
-- has one; its size and first bytes, where they can be read; and what `json.load` gives, unless it
-- raises.
pub record JsonFile : Type 0 where
  pub path : List String
  pub own_path : Option String
  pub is_file : Bool
  pub size : Option ℕ
  pub head : Option String
  pub doc : Option Json

abbrev is_white : ℕ → Bool
is_white c = leb 9 c && leb c 13 || c == b' '

-- `head.lstrip().startswith(b"{")`
abbrev starts_object : String → Bool
starts_object String.[] = false
starts_object (String.◌∷◌ c s) =
    let rest = starts_object s in if is_white (code c) then rest else code c == b'{'

abbrev looks_like_json : Option String → Bool
looks_like_json none = false
looks_like_json (some head) = starts_object head

abbrev is_text : String → Json → Bool
is_text w (string v) = v == w
is_text w v = false

-- `str(v)`
unfoldable pub shown : (Json → String) → Json → String
shown repr null = "None"
shown repr (boolean true) = "True"
shown repr (boolean false) = "False"
shown repr (number w nonzero) = w
shown repr (string w) = w
shown repr (array xs) = repr (array xs)
shown repr (object fs) = repr (object fs)

-- `str(v or "")`
abbrev pub shown_or_empty : (Json → String) → Json → String
shown_or_empty repr v = if truthy v then shown repr v else ""

abbrev is_syft : (Json → String) → Json → Bool
is_syft repr (object descriptor) = shown repr (get "name" descriptor) == "syft"
is_syft repr v = false

unfoldable pub format_of : (Json → String) → Option Json → Option String
format_of repr (some (object doc)) =
    if is_text "CycloneDX" (get "bomFormat" doc)
    then some "cyclonedx"
    else if truthy (get "spdxVersion" doc)
    then some "spdx"
    else if is_syft repr (get "descriptor" doc)
    then some "syft"
    else none
format_of repr v = none

abbrev fits : Option ℕ → Bool
fits none = false
fits (some size) = leb size max_sbom_bytes

unfoldable pub sniff : (Json → String) → JsonFile → Option String
sniff repr f =
    if f.is_file && fits f.size && looks_like_json f.head then format_of repr f.doc else none

-- The locator of the first reference of type "purl".
unfoldable pub purl_of_refs : (Json → String) → Items → String
purl_of_refs repr no_items = ""
purl_of_refs repr (item (object ref) refs) =
    let rest = purl_of_refs repr refs in
    if is_text "purl" (get "referenceType" ref)
    then shown_or_empty repr (get "referenceLocator" ref)
    else rest
purl_of_refs repr (item null refs) = purl_of_refs repr refs
purl_of_refs repr (item (boolean b) refs) = purl_of_refs repr refs
purl_of_refs repr (item (number w b) refs) = purl_of_refs repr refs
purl_of_refs repr (item (string w) refs) = purl_of_refs repr refs
purl_of_refs repr (item (array xs) refs) = purl_of_refs repr refs

abbrev purl_field : String → Fields
purl_field String.[] = no_fields
purl_field (String.◌∷◌ c s) = field "purl" (string (String.◌∷◌ c s)) no_fields

abbrev library : String → String → Fields → Fields
library name version rest =
    field "type" (string "library")
      (field "name" (string name) (field "version" (string version) rest))

abbrev pub spdx_component : (Json → String) → Fields → Option Items → Walked Fields
spdx_component repr pkg none = raised
spdx_component repr pkg (some refs) = found (
    library (shown repr (get "name" pkg)) (shown_or_empty repr (get "versionInfo" pkg))
      (purl_field (purl_of_refs repr refs)))

-- The loop that the readers of SPDX and of Syft share: entries that are no mapping, or have no name,
-- are left out.
unfoldable pub each_named : (Fields → Walked Fields) → Items → Walked (List Fields)
each_named component no_items = found []
each_named component (item (object fs) xs) =
    let rest = each_named component xs in
    if truthy (get "name" fs)
    then chain (component fs) (λ c. chain rest (λ cs. found (c ∷ cs)))
    else rest
each_named component (item null xs) = each_named component xs
each_named component (item (boolean b) xs) = each_named component xs
each_named component (item (number w b) xs) = each_named component xs
each_named component (item (string w) xs) = each_named component xs
each_named component (item (array ys) xs) = each_named component xs

abbrev pub over : (Items → Walked (List Fields)) → Option Items → Walked (List Fields)
over loop none = raised
over loop (some xs) = loop xs

unfoldable pub components_from_spdx : (Json → String) → Fields → Walked (List Fields)
components_from_spdx repr doc =
    over (each_named (λ pkg. spdx_component repr pkg (iterated (get "externalRefs" pkg))))
      (iterated (get "packages" doc))

-- `cpes[0] if isinstance(cpes, list) else cpes`, where `cpes` is truthy
abbrev first_cpe : Json → Json
first_cpe (array no_items) = null
first_cpe (array (item x xs)) = x
first_cpe v = v

abbrev cpe_field : (Json → String) → Json → Fields
cpe_field repr cpes =
    if truthy cpes && truthy (first_cpe cpes)
    then field "cpe" (string (shown repr (first_cpe cpes))) no_fields
    else no_fields

abbrev pub syft_component : (Json → String) → Fields → Walked Fields
syft_component repr art = found (
    library (shown repr (get "name" art)) (shown_or_empty repr (get "version" art)) (
      if truthy (get "purl" art)
      then field "purl" (string (shown repr (get "purl" art))) (cpe_field repr (get "cpes" art))
      else cpe_field repr (get "cpes" art)))

unfoldable pub components_from_syft : (Json → String) → Fields → Walked (List Fields)
components_from_syft repr doc =
    over (each_named (syft_component repr)) (iterated (get "artifacts" doc))

unfoldable pub components_of : (Json → String) → ℕ → Option Json → String → Walked (List Fields)
components_of repr fuel (some (object doc)) format =
    if format == "cyclonedx"
    then components_from_cyclonedx fuel doc
    else if format == "spdx"
    then components_from_spdx repr doc
    else if format == "syft"
    then components_from_syft repr doc
    else found []
components_of repr fuel doc format = found []

abbrev pub is_own : JsonFile → Bool
is_own f = elim f.own_path [ none ↦ false | some rel ↦ any (λ d. starts_with rel d) own_sbom_dirs ]
