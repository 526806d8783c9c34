-- ===== src/Sbom/Base.antt =====
-- sbom_ingest.py, build_scan_input: whose components the merge starts with, and those of the documents
-- that were found.
use el_sca_ansamble.Prelude.{
  ℕ, String, ◌≡◌, ◌≢◌, ◌⊎◌, refl, sym, ap, ◌∙◌, Bool, true, false, Option, none, some, List, [],
  ◌∷◌, ◌++◌, inl, inr, arith, if◌then◌else◌,
}
use el_sca_ansamble.Sbom.Json.{Json, null, boolean, number, string, array, object, Fields}
use el_sca_ansamble.Sbom.Walk.{Walked, exhausted, raised, found, chain, components_from_cyclonedx}
use el_sca_ansamble.Sbom.Components.{JsonFile, components_of}
use el_sca_ansamble.Sbom.Merge.{
  Merged, Provided, merge_all, count_added, base_components, from_base, or_syft, merged_base,
  add_provided,
}
use el_sca_ansamble.Sbom.Firsts.{merge_all-append, count_added-merge_all, merge_all-nonempty}

module _ {A : Type 0} where
  -- What a function returns, where it returns.
  abbrev pub Yields : (A → Type 0) → Walked A → Type 0
  Yields P exhausted = Unit
  Yields P raised = Unit
  Yields P (found a) = P a

  pub Yields-found : (P : A → Type 0) (w : Walked A) (a : A) → Yields P w → w ≡ found a → P a
  Yields-found P exhausted a y e = absurd (ground arith)
  Yields-found P raised a y e = absurd (ground arith)
  Yields-found P (found b) a y e = let same : b ≡ a = ground arith in rw (← same) y

  pub both-Yields :
      (P Q : A → Type 0) (w : Walked A) → Yields P w → Yields Q w → Yields (λ a. P a × Q a) w
  both-Yields P Q exhausted h k = tt
  both-Yields P Q raised h k = tt
  both-Yields P Q (found a) h k = (h, k)

  pub if-Yields :
      (P : A → Type 0) (b : Bool) (v w : Walked A)
      → Yields P v
      → Yields P w
      → Yields P (if b then v else w)
  if-Yields P true v w h k = h
  if-Yields P false v w h k = k

module _ {A B : Type 0} where
  pub chain-Yields :
      (P : B → Type 0) (w : Walked A) (next : A → Walked B)
      → ((a : A) → w ≡ found a → Yields P (next a))
      → Yields P (chain w next)
  chain-Yields P exhausted next h = tt
  chain-Yields P raised next h = tt
  chain-Yields P (found a) next h = h a refl

module _ (repr : Json → String) (fuel : ℕ) where
  -- The base document has no component: it is no file, it cannot be parsed, or it lists none.
  abbrev pub IsBare : JsonFile → Type 0
  IsBare base =
      (base.is_file ≡ false)
      ⊎ (base.doc ≡ none)
      ⊎ ((doc : Fields) × (base.doc ≡ some (object doc))
          × (components_from_cyclonedx fuel doc ≡ found []))

  -- The components that the run itself contributes: those of the base document or, where it has none,
  -- those of the file "syft.json" beside it.
  pub data IsBase : Option (JsonFile × JsonFile) → List Fields → Type 0 where
    without : IsBase none []
    listed :
        {base side : JsonFile} {doc : Fields} {cs : List Fields}
        → base.is_file ≡ true
        → base.doc ≡ some (object doc)
        → components_from_cyclonedx fuel doc ≡ found cs
        → cs ≢ []
        → IsBase (some (base, side)) cs
    beside :
        {base side : JsonFile} {cs : List Fields}
        → IsBare base
        → side.is_file ≡ true
        → components_of repr fuel side.doc "syft" ≡ found cs
        → IsBase (some (base, side)) cs
    neither :
        {base side : JsonFile} → IsBare base → side.is_file ≡ false → IsBase (some (base, side)) []

  -- The components of documents, one document after the other.
  pub data AreRead : List Provided → List Fields → Type 0 where
    none_left : AreRead [] []
    read :
        {p : Provided} {ps : List Provided} {cs ds all : List Fields}
        → components_of repr fuel p.file.doc p.format ≡ found cs
        → AreRead ps ds
        → all ≡ cs ++ ds
        → AreRead (p ∷ ps) all

  -- The base document's components, merged: all of them, or none because it has none.
  abbrev FromBase : JsonFile → JsonFile → Merged → Type 0
  FromBase base side m =
      ((cs : List Fields) × IsBase (some (base, side)) cs × (cs ≢ []) × (m ≡ merge_all repr cs []))
      ⊎ (IsBare base × (m ≡ []))

  listed-FromBase :
      (base side : JsonFile) (doc : Fields) (cs : List Fields)
      → base.is_file ≡ true
      → base.doc ≡ some (object doc)
      → components_from_cyclonedx fuel doc ≡ found cs
      → FromBase base side (merge_all repr cs [])
  unfolding merge_all
  listed-FromBase base side doc [] f d e = inr (inr (inr (doc, d, e)), refl)
  listed-FromBase base side doc (c ∷ cs) f d e =
      let full : ◌≢◌ {A = List Fields} (c ∷ cs) [] = λ h. cc in
      inl (c ∷ cs, listed f d e full, full, refl)

  read_base :
      (base side : JsonFile) (o : Option Json)
      → base.is_file ≡ true
      → base.doc ≡ o
      → Yields
          (FromBase base side)
          (chain (base_components fuel o) (λ cs. found (merge_all repr cs [])))
  unfolding merge_all
  read_base base side none f d = inr (inr (inl d), refl)
  read_base base side (some (object doc)) f d =
      chain-Yields (FromBase base side) (components_from_cyclonedx fuel doc) _
        (λ cs e. listed-FromBase base side doc cs f d e)
  read_base base side (some null) f d = tt
  read_base base side (some (boolean b)) f d = tt
  read_base base side (some (number w b)) f d = tt
  read_base base side (some (string w)) f d = tt
  read_base base side (some (array xs)) f d = tt

  from_base-FromBase :
      (base side : JsonFile) → Yields (FromBase base side) (from_base repr fuel base)
  from_base-FromBase base side = given base.is_file refl
    where
      given :
          (b : Bool)
          → base.is_file ≡ b
          → Yields (FromBase base side) (
              if b
              then chain (base_components fuel base.doc) (λ cs. found (merge_all repr cs []))
              else found [])
      given true f = read_base base side base.doc f refl
      given false f = inr (inl f, refl)

  -- What the merge starts with.
  abbrev pub StartsWith : Option (JsonFile × JsonFile) → Merged → Type 0
  StartsWith base m = (cs : List Fields) × IsBase base cs × (m ≡ merge_all repr cs [])

  or_syft-StartsWith :
      (base side : JsonFile) (m : Merged)
      → FromBase base side m
      → Yields (StartsWith (some (base, side))) (or_syft repr fuel side m)
  unfolding merge_all
  or_syft-StartsWith base side [] (inl (c ∷ cs, b, full, e)) =
      absurd (merge_all-nonempty repr c cs (sym e))
  or_syft-StartsWith base side [] (inl ([], b, full, e)) = absurd (full refl)
  or_syft-StartsWith base side [] (inr (bare, e)) = given side.is_file refl
    where
      given :
          (b : Bool)
          → side.is_file ≡ b
          → Yields (StartsWith (some (base, side))) (
              if b
              then chain
                  (components_of repr fuel side.doc "syft")
                  (λ cs. found (merge_all repr cs []))
              else found [])
      given true f =
          chain-Yields (StartsWith (some (base, side))) (components_of repr fuel side.doc "syft") _
            (λ cs g. (cs, beside bare f g, refl))
      given false f = ([], neither bare f, refl)
  or_syft-StartsWith base side (x ∷ m) (inl (cs, b, full, e)) = (cs, b, e)
  or_syft-StartsWith base side (x ∷ m) (inr (bare, e)) = cc

  pub merged_base-StartsWith :
      (base : Option (JsonFile × JsonFile)) → Yields (StartsWith base) (merged_base repr fuel base)
  unfolding merged_base merge_all
  merged_base-StartsWith none = ([], without, refl)
  merged_base-StartsWith (some (base, side)) =
      chain-Yields (StartsWith (some (base, side))) (from_base repr fuel base) _ (λ m e.
        or_syft-StartsWith base side m (
          Yields-found (FromBase base side) (from_base repr fuel base) m
            (from_base-FromBase base side) e))

  -- The documents' components are merged in order.
  abbrev pub Adds : List Provided → Merged → Merged × ℕ → Type 0
  Adds ps m t = (ds : List Fields) × AreRead ps ds × (t.0 ≡ merge_all repr ds m)

  add_cons :
      (q : Provided) (qs : List Provided) (s : Merged × ℕ) (cs : List Fields)
      (w : Walked (Merged × ℕ))
      → components_of repr fuel q.file.doc q.format ≡ found cs
      → Yields (Adds qs (count_added repr cs s).0) w
      → Yields (Adds (q ∷ qs) s.0) w
  add_cons q qs s cs exhausted e y = tt
  add_cons q qs s cs raised e y = tt
  add_cons q qs s cs (found t) e (ds, h, k) = (
    cs ++ ds,
    read e h refl,
    k
        ∙ ap (merge_all repr ds) (count_added-merge_all repr cs s)
        ∙ sym (merge_all-append repr cs ds s.0),
  )

  pub add_provided-Adds :
      (ps : List Provided) (s : Merged × ℕ) → Yields (Adds ps s.0) (add_provided repr fuel ps s)
  unfolding add_provided merge_all
  add_provided-Adds [] s = ([], none_left, refl)
  add_provided-Adds (q ∷ qs) s =
      chain-Yields (Adds (q ∷ qs) s.0) (components_of repr fuel q.file.doc q.format) _ (λ cs e.
        add_cons q qs s cs (add_provided repr fuel qs (count_added repr cs s)) e
          (add_provided-Adds qs (count_added repr cs s)))
