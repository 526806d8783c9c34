-- ===== src/Sbom/Firsts.antt =====
-- sbom_ingest.py, build_scan_input: the merged components without a dictionary. Of the components of
-- each key the first one is kept.
use mathlib.Core.List.{append_assoc, append-nil}
use el_sca_ansamble.Prelude.{
  ℕ, String, ◌≡◌, ◌≢◌, refl, sym, ap, ◌∙◌, List, [], ◌∷◌, ◌++◌, if◌then◌else◌, inl, inr, Bool-cases,
}
use el_sca_ansamble.Prelude.Keys.{string_eq, pair_eq, contains, add, keys}
use el_sca_ansamble.Sbom.Json.{Json, Fields}
use el_sca_ansamble.Sbom.Merge.{Key, Merged, key_of, set_default, merge_all, count_added, values}
use el_sca_ansamble.Sbom.Keyed.{keys-append}

-- The components whose keys are not among the seen ones and whose keys no earlier one has.
unfoldable pub firsts : (Json → String) → List Key → List Fields → List Fields
firsts repr seen [] = []
firsts repr seen (c ∷ cs) =
    let rest = firsts repr (add (key_of repr c) seen) cs in
    if contains (key_of repr c) seen then rest else c ∷ rest

values-append : (m n : Merged) → values (m ++ n) ≡ values m ++ values n
values-append [] n = refl
values-append (e ∷ m) n = ap (λ l. e.1 ∷ l) (values-append m n)

keys-set_default : (k : Key) (c : Fields) (m : Merged) → keys (set_default k c m) ≡ add k (keys m)
unfolding set_default add
keys-set_default k c m = elim (Bool-cases (contains k (keys m))) [
  | inl e ↦ rw e refl
  | inr e ↦ rw e (keys-append m ((k, c) ∷ []))
]

module _ (repr : Json → String) where
  pub merge_all-firsts :
      (cs : List Fields) (m : Merged)
      → values (merge_all repr cs m) ≡ values m ++ firsts repr (keys m) cs
  unfolding merge_all firsts set_default
  merge_all-firsts [] m = sym (append-nil (values m))
  merge_all-firsts (c ∷ cs) m =
      merge_all-firsts cs (set_default (key_of repr c) c m)
      ∙ rw (keys-set_default (key_of repr c) c m) (joined (firsts repr _ cs))
    where
      joined :
          (rest : List Fields)
          → values (set_default (key_of repr c) c m) ++ rest
            ≡ values m ++ (if contains (key_of repr c) (keys m) then rest else c ∷ rest)
      joined rest = elim (Bool-cases (contains (key_of repr c) (keys m))) [
        | inl e ↦ rw e refl
        | inr e ↦
            rw (e, values-append m ((key_of repr c, c) ∷ []))
              (append_assoc (values m) (c ∷ []) rest)
      ]

  pub merge_all-append :
      (cs ds : List Fields) (m : Merged)
      → merge_all repr (cs ++ ds) m ≡ merge_all repr ds (merge_all repr cs m)
  unfolding merge_all
  merge_all-append [] ds m = refl
  merge_all-append (c ∷ cs) ds m = merge_all-append cs ds _

  pub count_added-merge_all :
      (cs : List Fields) (s : Merged × ℕ) → (count_added repr cs s).0 ≡ merge_all repr cs s.0
  unfolding merge_all
  count_added-merge_all [] s = refl
  count_added-merge_all (c ∷ cs) s = count_added-merge_all cs _

  pub merge_all-nonempty : (c : Fields) (cs : List Fields) → merge_all repr (c ∷ cs) [] ≢ []
  unfolding firsts contains
  merge_all-nonempty c cs e =
      let h : values (merge_all repr (c ∷ cs) []) ≡ [] = ap values e in
      let k = merge_all-firsts (c ∷ cs) [] in absurd (cc)
