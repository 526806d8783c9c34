-- ===== src/Sbom/Merged.antt =====
-- The merged document: what it holds, and what its counts say.
use el_sca_ansamble.Prelude.{
  ℕ, ◌+◌, String, ◌≡◌, refl, sym, ◌∙◌, true, Option, none, some, List, [], ◌∷◌, ◌++◌, length, ap,
  map, In, inl, inr, arith,
}
use el_sca_ansamble.Prelude.Keys.{string_eq, pair_eq, contains, keys, Unrepeated}
use el_sca_ansamble.Sbom.Json.{Json, Fields}
use el_sca_ansamble.Sbom.Walk.{Walked, exhausted, raised, found}
use el_sca_ansamble.Sbom.Components.{JsonFile, components_of}
use el_sca_ansamble.Sbom.Merge.{
  Key, Merged, merge_all, key_of, Provided, detect_sboms, from_base, or_syft, merged_base,
  count_added, add_provided, values, ScanInput, build_scan_input, base_components,
}
use el_sca_ansamble.Sbom.Firsts.{firsts, merge_all-firsts, merge_all-append}
use el_sca_ansamble.Sbom.Base.{
  Yields, Yields-found, if-Yields, chain-Yields, IsBase, AreRead, StartsWith, Adds,
  merged_base-StartsWith, add_provided-Adds,
}
use el_sca_ansamble.Sbom.Keyed.{
  IsKeyed, merge_all-IsKeyed, empty-IsKeyed, count_added-IsKeyed, count_added-length,
  count_added-keeps, count_added-contains, values-keys, length-values,
}

-- What the result is of the documents in the tree and the base document. `once` and `kept` say which
-- components it holds, and each count is of what it names.
pub record IsMerge (repr : Json → String) (fuel : ℕ) (tree : Option (List JsonFile))
    (base : Option (JsonFile × JsonFile)) (r : ScanInput) : Type 0 where
  pub detected : detect_sboms repr fuel tree ≡ found r.provided_sboms
  pub once : Unrepeated (map (key_of repr) r.components)
  pub provided :
      (p : Provided) (cs : List Fields) (c : Fields)
      → In p r.provided_sboms
      → components_of repr fuel p.file.doc p.format ≡ found cs
      → In c cs
      → contains (key_of repr c) (map (key_of repr) r.components) ≡ true
  pub kept :
      (bs ds : List Fields) × IsBase repr fuel base bs
      × AreRead repr fuel r.provided_sboms ds
      × (r.components ≡ firsts repr [] (bs ++ ds))
      × (r.components_from_syft ≡ length (firsts repr [] bs))
  pub total : r.components_total ≡ length r.components
  pub counted : r.components_from_syft + r.components_from_provided ≡ r.components_total

module _ (repr : Json → String) (fuel : ℕ) where
  from_base-IsKeyed : (base : JsonFile) → Yields (IsKeyed repr) (from_base repr fuel base)
  from_base-IsKeyed base =
      if-Yields (IsKeyed repr) base.is_file _ _
        (chain-Yields (IsKeyed repr) (base_components fuel base.doc) _
          (λ cs e. merge_all-IsKeyed repr cs [] (empty-IsKeyed repr)))
        (empty-IsKeyed repr)

  or_syft-IsKeyed :
      (side : JsonFile) (m : Merged)
      → IsKeyed repr m
      → Yields (IsKeyed repr) (or_syft repr fuel side m)
  or_syft-IsKeyed side [] h =
      if-Yields (IsKeyed repr) side.is_file _ _
        (chain-Yields (IsKeyed repr) (components_of repr fuel side.doc "syft") _
          (λ cs e. merge_all-IsKeyed repr cs [] (empty-IsKeyed repr)))
        (empty-IsKeyed repr)
  or_syft-IsKeyed side (x ∷ m) h = h

  merged_base-IsKeyed :
      (base : Option (JsonFile × JsonFile)) → Yields (IsKeyed repr) (merged_base repr fuel base)
  unfolding merged_base
  merged_base-IsKeyed none = empty-IsKeyed repr
  merged_base-IsKeyed (some (base, side)) =
      chain-Yields (IsKeyed repr) (from_base repr fuel base) _ (λ m e.
        or_syft-IsKeyed side m
          (Yields-found (IsKeyed repr) (from_base repr fuel base) m (from_base-IsKeyed base) e))

  -- What was there before, and what was counted since.
  abbrev Grown : Merged × ℕ → Merged × ℕ → Type 0
  Grown s t = IsKeyed repr t.0 × (length t.0 + s.1 ≡ length s.0 + t.1)

  add_provided-Grown :
      (ps : List Provided) (s : Merged × ℕ)
      → IsKeyed repr s.0
      → Yields (Grown s) (add_provided repr fuel ps s)
  unfolding add_provided
  add_provided-Grown [] s h = (h, refl)
  add_provided-Grown (p ∷ ps) s h =
      chain-Yields (Grown s) (components_of repr fuel p.file.doc p.format) _ (λ cs e.
        weaken cs _
          (add_provided-Grown ps (count_added repr cs s) (count_added-IsKeyed repr cs s h)))
    where
      weaken :
          (cs : List Fields) (w : Walked (Merged × ℕ))
          → Yields (Grown (count_added repr cs s)) w
          → Yields (Grown s) w
      weaken cs exhausted y = tt
      weaken cs raised y = tt
      weaken cs (found t) y = (y.0, omega (arith, y.1, count_added-length repr cs s))

  add_provided-keeps :
      (k : Key) (ps : List Provided) (s : Merged × ℕ)
      → contains k (keys s.0) ≡ true
      → Yields (λ t. contains k (keys t.0) ≡ true) (add_provided repr fuel ps s)
  unfolding add_provided
  add_provided-keeps k [] s h = h
  add_provided-keeps k (p ∷ ps) s h =
      chain-Yields _ (components_of repr fuel p.file.doc p.format) _
        (λ cs e. add_provided-keeps k ps (count_added repr cs s) (count_added-keeps repr k cs s h))

  -- Every component of the documents is there, under its key.
  abbrev Holds : List Provided → Merged × ℕ → Type 0
  Holds ps t =
      (p : Provided) (cs : List Fields) (c : Fields)
      → In p ps
      → components_of repr fuel p.file.doc p.format ≡ found cs
      → In c cs
      → contains (key_of repr c) (keys t.0) ≡ true

  found-inj : (cs ds : List Fields) → found cs ≡ found ds → cs ≡ ds
  found-inj cs ds e = ground arith

  add_provided-Holds :
      (ps : List Provided) (s : Merged × ℕ) → Yields (Holds ps) (add_provided repr fuel ps s)
  unfolding add_provided
  add_provided-Holds [] s = λ p cs c i. absurd i
  add_provided-Holds (q ∷ qs) s =
      chain-Yields (Holds (q ∷ qs)) (components_of repr fuel q.file.doc q.format) _ (λ ds e.
        joined ds (add_provided repr fuel qs (count_added repr ds s)) e
          (add_provided-Holds qs (count_added repr ds s))
          (λ k h. add_provided-keeps k qs (count_added repr ds s) h))
    where
      joined :
          (ds : List Fields) (w : Walked (Merged × ℕ))
          → components_of repr fuel q.file.doc q.format ≡ found ds
          → Yields (Holds qs) w
          → ((k : Key)
              → contains k (keys (count_added repr ds s).0) ≡ true
              → Yields (λ t. contains k (keys t.0) ≡ true) w)
          → Yields (Holds (q ∷ qs)) w
      joined ds exhausted e y keep = tt
      joined ds raised e y keep = tt
      joined ds (found t) e y keep = λ p cs c i f j. elim i [
        | inl same ↦
            let g : components_of repr fuel q.file.doc q.format ≡ found cs = rw⁻¹ same f in
            keep (key_of repr c)
              (count_added-contains repr c ds s (rw (found-inj ds cs (sym e ∙ g)) j))
        | inr later ↦ y p cs c later f j
      ]

  -- The components of the result, from what the merge starts with and what it adds.
  merged-kept :
      (base : Option (JsonFile × JsonFile)) (ps : List Provided) (first : Merged) (s : Merged × ℕ)
      → StartsWith repr fuel base first
      → Adds repr fuel ps first s
      → (bs ds : List Fields) × IsBase repr fuel base bs
        × AreRead repr fuel ps ds
        × (values s.0 ≡ firsts repr [] (bs ++ ds))
        × (length first ≡ length (firsts repr [] bs))
  merged-kept base ps first s (bs, b, e) (ds, d, f) = (
    bs,
    ds,
    b,
    d,
    ap values (f ∙ ap (merge_all repr ds) e ∙ sym (merge_all-append repr bs ds []))
        ∙ merge_all-firsts repr (bs ++ ds) [],
    sym (length-values repr first) ∙ ap length (ap values e ∙ merge_all-firsts repr bs []),
  )

  build_scan_input-Yields :
      (tree : Option (List JsonFile)) (base : Option (JsonFile × JsonFile))
      → Yields (IsMerge repr fuel tree base) (build_scan_input repr fuel tree base)
  unfolding build_scan_input
  build_scan_input-Yields tree base =
      chain-Yields (IsMerge repr fuel tree base) (merged_base repr fuel base) _ (λ first e.
        chain-Yields (IsMerge repr fuel tree base) (detect_sboms repr fuel tree) _ (λ provided f.
          chain-Yields (IsMerge repr fuel tree base) (add_provided repr fuel provided (first, 0)) _
            (λ s g. merged first provided s e f g)))
    where
      merged :
          (first : Merged) (provided : List Provided) (s : Merged × ℕ)
          → merged_base repr fuel base ≡ found first
          → detect_sboms repr fuel tree ≡ found provided
          → add_provided repr fuel provided (first, 0) ≡ found s
          → IsMerge repr fuel tree base (record {
            components = values s.0;
            provided_sboms = provided;
            components_from_syft = length first;
            components_from_provided = s.1;
            components_total = length s.0;
          })
      merged first provided s e f g =
          let h = Yields-found (IsKeyed repr) _ first (merged_base-IsKeyed base) e in
          let k =
            Yields-found (Grown (first, 0)) _ s (add_provided-Grown provided (first, 0) h) g in
          let named = values-keys repr s.0 k.0 in
          record {
            detected = f;
            once = rw named k.0.once;
            provided =
                rw named
                  (Yields-found (Holds provided) _ s (add_provided-Holds provided (first, 0)) g);
            kept =
                merged-kept base provided first s
                  (Yields-found (StartsWith repr fuel base) _ first
                    (merged_base-StartsWith repr fuel base) e)
                  (Yields-found (Adds repr fuel provided first) _ s
                    (add_provided-Adds repr fuel provided (first, 0)) g);
            total = sym (length-values repr s.0);
            counted = omega (arith, k.1);
          }

  -- The components of the merged document are those of the base document, or those of the file
  -- "syft.json" beside it where the base document has none, and then those of the documents found in
  -- the tree, one after the other, of which the first of each key is kept. So no component of a
  -- document found is left out, no key stands twice, and a component that several describe is counted
  -- once. The number of components from Syft is that of the keys of the base document, and with the
  -- number of those from the documents found it adds up to the number of components.
  pub build_scan_input-IsMerge :
      (tree : Option (List JsonFile)) (base : Option (JsonFile × JsonFile)) (r : ScanInput)
      → build_scan_input repr fuel tree base ≡ found r
      → IsMerge repr fuel tree base r
  build_scan_input-IsMerge tree base r e =
      Yields-found (IsMerge repr fuel tree base) (build_scan_input repr fuel tree base) r
        (build_scan_input-Yields tree base) e
