-- ===== src/Sbom/Fuel.antt =====
-- Enough fuel for the walks over the documents of a run.
use el_sca_ansamble.Prelude.{
  ℕ, ◌≤◌, String, ◌≡◌, ◌≢◌, Bool, true, false, Option, none, some, List, [], ◌∷◌, All,
  if◌then◌else◌, arith,
}
use el_sca_ansamble.Prelude.Keys.{◌==◌, string_eq}
use el_sca_ansamble.Prelude.Sort.{sort, sort-All}
use el_sca_ansamble.Extraction.Archive.{path_less}
use el_sca_ansamble.Sbom.Json.{
  Json, null, boolean, number, string, array, object, Fields, get, iterated,
}
use el_sca_ansamble.Sbom.Walk.{Walked, exhausted, raised, found, chain}
use el_sca_ansamble.Sbom.Components.{
  JsonFile, sniff, components_of, components_from_spdx, components_from_syft, is_own,
}
use el_sca_ansamble.Sbom.Merge.{
  Merged, Provided, detect_each, detect_sboms, base_components, from_base, or_syft, merged_base,
  add_provided, count_added, noted, unless_empty, build_scan_input,
}
use el_sca_ansamble.Sbom.Ending.{
  doc_passes, Enough, Ended, Ended-nonexhausted, if-Ended, chain-Ended, cyclonedx-Ended,
  each_named-Ended, over-Ended, spdx_component-Ended,
}

module _ (repr : Json → String) (fuel : ℕ) where
  components_of-Ended :
      (doc : Option Json) (format : String)
      → doc_passes doc ≤ fuel
      → Ended (components_of repr fuel doc format)
  unfolding components_of components_from_spdx components_from_syft
  components_of-Ended (some (object doc)) format h =
      if-Ended (format == "cyclonedx") _ _ (cyclonedx-Ended fuel doc h) (
        if-Ended (format == "spdx") _ _
          (over-Ended _ (iterated (get "packages" doc)) (
            each_named-Ended _
              (λ pkg. spdx_component-Ended repr pkg (iterated (get "externalRefs" pkg)))))
          (if-Ended (format == "syft") _ _
            (over-Ended _ (iterated (get "artifacts" doc)) (each_named-Ended _ (λ art. tt))) tt))
  components_of-Ended (some null) format h = tt
  components_of-Ended (some (boolean b)) format h = tt
  components_of-Ended (some (number w b)) format h = tt
  components_of-Ended (some (string w)) format h = tt
  components_of-Ended (some (array xs)) format h = tt
  components_of-Ended none format h = tt

  abbrev Readable : Provided → Type 0
  Readable p = Enough fuel p.file

  -- The documents found, each with enough fuel.
  abbrev Detected : Walked (List Provided) → Type 0
  Detected exhausted = ⊥
  Detected raised = Unit
  Detected (found ps) = All Readable ps

  unless_empty-All :
      (f : JsonFile) (format : String) (cs : List Fields) (ps : List Provided)
      → Enough fuel f
      → All Readable ps
      → All Readable (unless_empty f format cs ps)
  unless_empty-All f format [] ps h k = k
  unless_empty-All f format (c ∷ cs) ps h k = (h, k)

  noted-Detected :
      (f : JsonFile) (o : Option String) (rest : Walked (List Provided))
      → Enough fuel f
      → Detected rest
      → Detected (noted repr fuel f o rest)
  noted-Detected f none rest h k = k
  noted-Detected f (some format) rest h k =
      read (components_of repr fuel f.doc format) rest (components_of-Ended f.doc format h) k
    where
      read :
          (w : Walked (List Fields)) (rest : Walked (List Provided))
          → Ended w
          → Detected rest
          → Detected (chain w (λ cs. chain rest (λ ps. found (unless_empty f format cs ps))))
      read exhausted rest e k = e
      read raised rest e k = tt
      read (found cs) exhausted e k = k
      read (found cs) raised e k = tt
      read (found cs) (found ps) e k = unless_empty-All f format cs ps h k

  detect_each-Detected :
      (fs : List JsonFile) → All (Enough fuel) fs → Detected (detect_each repr fuel fs)
  unfolding detect_each
  detect_each-Detected [] h = tt
  detect_each-Detected (f ∷ fs) h =
      if_Detected (is_own f) (detect_each repr fuel fs) _ (detect_each-Detected fs h.1) (
        noted-Detected f (sniff repr f) (detect_each repr fuel fs) h.0
          (detect_each-Detected fs h.1))
    where
      if_Detected :
          (b : Bool) (v w : Walked (List Provided))
          → Detected v
          → Detected w
          → Detected (if b then v else w)
      if_Detected true v w h k = h
      if_Detected false v w h k = k

-- Fuel for a whole tree, and for the base document with the file beside it.
abbrev pub EnoughTree : ℕ → Option (List JsonFile) → Type 0
EnoughTree fuel none = Unit
EnoughTree fuel (some fs) = All (Enough fuel) fs

abbrev pub EnoughBase : ℕ → Option (JsonFile × JsonFile) → Type 0
EnoughBase fuel none = Unit
EnoughBase fuel (some (base, side)) = Enough fuel base × Enough fuel side

module _ (repr : Json → String) (fuel : ℕ) where
  detect_sboms-Detected :
      (tree : Option (List JsonFile))
      → EnoughTree fuel tree
      → Detected repr fuel (detect_sboms repr fuel tree)
  unfolding detect_sboms
  detect_sboms-Detected none h = tt
  detect_sboms-Detected (some fs) h =
      detect_each-Detected repr fuel (sort (λ f g. path_less f.path g.path) fs)
        (sort-All (λ f g. path_less f.path g.path) (Enough fuel) fs h)

  add_provided-Ended :
      (ps : List Provided) (s : Merged × ℕ)
      → All (Readable repr fuel) ps
      → Ended (add_provided repr fuel ps s)
  unfolding add_provided
  add_provided-Ended [] s h = tt
  add_provided-Ended (p ∷ ps) s h =
      chain-Ended (components_of repr fuel p.file.doc p.format) _
        (components_of-Ended repr fuel p.file.doc p.format h.0)
        (λ cs e. add_provided-Ended ps (count_added repr cs s) h.1)

  base_components-Ended :
      (doc : Option Json) → doc_passes doc ≤ fuel → Ended (base_components fuel doc)
  base_components-Ended none h = tt
  base_components-Ended (some (object doc)) h = cyclonedx-Ended fuel doc h
  base_components-Ended (some null) h = tt
  base_components-Ended (some (boolean b)) h = tt
  base_components-Ended (some (number w b)) h = tt
  base_components-Ended (some (string w)) h = tt
  base_components-Ended (some (array xs)) h = tt

  or_syft-Ended :
      (side : JsonFile) (m : Merged) → Enough fuel side → Ended (or_syft repr fuel side m)
  or_syft-Ended side [] h =
      if-Ended side.is_file _ _
        (chain-Ended (components_of repr fuel side.doc "syft") _
          (components_of-Ended repr fuel side.doc "syft" h) (λ cs e. tt))
        tt
  or_syft-Ended side (x ∷ m) h = tt

  merged_base-Ended :
      (base : Option (JsonFile × JsonFile))
      → EnoughBase fuel base
      → Ended (merged_base repr fuel base)
  unfolding merged_base
  merged_base-Ended none h = tt
  merged_base-Ended (some (base, side)) h =
      chain-Ended (from_base repr fuel base) _
        (if-Ended base.is_file _ _
          (chain-Ended (base_components fuel base.doc) _ (base_components-Ended base.doc h.0)
            (λ cs e. tt))
          tt)
        (λ m e. or_syft-Ended side m h.1)

  Detected-All :
      (w : Walked (List Provided)) (ps : List Provided)
      → Detected repr fuel w
      → w ≡ found ps
      → All (Readable repr fuel) ps
  Detected-All exhausted ps d e = absurd d
  Detected-All raised ps d e = absurd (ground arith)
  Detected-All (found qs) ps d e = let same : qs ≡ ps = ground arith in rw (← same) d

  Detected-Ended : (w : Walked (List Provided)) → Detected repr fuel w → Ended w
  Detected-Ended exhausted d = d
  Detected-Ended raised d = tt
  Detected-Ended (found ps) d = tt

  -- With fuel for one pass for each value nested in a "components" list of a document, the merge
  -- ends: it returns or raises, whatever the documents hold.
  pub build_scan_input-terminates :
      (tree : Option (List JsonFile)) (base : Option (JsonFile × JsonFile))
      → EnoughTree fuel tree
      → EnoughBase fuel base
      → build_scan_input repr fuel tree base ≢ exhausted
  unfolding build_scan_input
  build_scan_input-terminates tree base h k = Ended-nonexhausted _ (
      chain-Ended (merged_base repr fuel base) _ (merged_base-Ended base k) (λ first e.
        let d = detect_sboms-Detected tree h in
        chain-Ended (detect_sboms repr fuel tree) _ (Detected-Ended _ d) (λ provided f.
          chain-Ended (add_provided repr fuel provided (first, 0)) _
            (add_provided-Ended provided (first, 0) (Detected-All _ provided d f)) (λ s g. tt))))
