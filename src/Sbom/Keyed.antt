-- ===== src/Sbom/Keyed.antt =====
-- The keys of the merged components, and what the counting of added ones counts.
use el_sca_ansamble.Prelude.{
  ℕ, suc, ◌+◌, String, ◌≡◌, refl, sym, ap, ◌∙◌, true, ◌||◌, List, [], ◌∷◌, ◌++◌, length,
  length-append, map, All, All-append, In, if◌then◌else◌, inl, inr, arith, Bool-cases,
}
use el_sca_ansamble.Prelude.Keys.{
  ◌==◌, ==_iff, string_eq, pair_eq, contains, contains-append, keys, Unrepeated, append-Unrepeated,
}
use el_sca_ansamble.Sbom.Json.{Json, Fields}
use el_sca_ansamble.Sbom.Merge.{Key, Merged, key_of, set_default, merge_all, count_added, values}

pub keys-append : (m n : Merged) → keys (m ++ n) ≡ keys m ++ keys n
keys-append [] n = refl
keys-append (e ∷ m) n = ap (λ z. e.0 ∷ z) (keys-append m n)

contains-set_default :
    (j k : Key) (c : Fields) (m : Merged)
    → contains j (keys (set_default k c m)) ≡ (j == k || contains j (keys m))
unfolding set_default contains
contains-set_default j k c m = elim (Bool-cases (contains k (keys m))) [
  | inl e ↦ rw e (ground (arith, ==_iff j k, λ (h : j ≡ k). ap (λ z. contains z (keys m)) h))
  | inr e ↦ rw (e, keys-append m ((k, c) ∷ []), contains-append j (keys m) (k ∷ [])) (ground arith)
]

module _ (repr : Json → String) where
  -- Each entry stands under the key of its component, and no key twice.
  pub record IsKeyed (m : Merged) : Type 0 where
    pub own : All (λ (e : Key × Fields). e.0 ≡ key_of repr e.1) m
    pub once : Unrepeated (keys m)

  set_default-IsKeyed :
      (c : Fields) (m : Merged) → IsKeyed m → IsKeyed (set_default (key_of repr c) c m)
  unfolding set_default
  set_default-IsKeyed c m h = elim (Bool-cases (contains (key_of repr c) (keys m))) [
    | inl e ↦ rw e h
    | inr e ↦ rw e (record {
      own = All-append _ m ((key_of repr c, c) ∷ []) h.own (refl, tt);
      once =
          rw (keys-append m ((key_of repr c, c) ∷ []))
            (append-Unrepeated (key_of repr c) (keys m) e h.once);
    })
  ]

  pub merge_all-IsKeyed :
      (cs : List Fields) (m : Merged) → IsKeyed m → IsKeyed (merge_all repr cs m)
  unfolding merge_all
  merge_all-IsKeyed [] m h = h
  merge_all-IsKeyed (c ∷ cs) m h = merge_all-IsKeyed cs _ (set_default-IsKeyed c m h)

  pub empty-IsKeyed : IsKeyed []
  empty-IsKeyed = record { own = tt; once = tt }

  pub count_added-IsKeyed :
      (cs : List Fields) (s : Merged × ℕ) → IsKeyed s.0 → IsKeyed (count_added repr cs s).0
  count_added-IsKeyed [] s h = h
  count_added-IsKeyed (c ∷ cs) s h = count_added-IsKeyed cs _ (set_default-IsKeyed c s.0 h)

  length-set_default :
      (c : Fields) (m : Merged) (n : ℕ)
      → length (set_default (key_of repr c) c m) + n
        ≡ length m + (if contains (key_of repr c) (keys m) then n else suc n)
  unfolding set_default
  length-set_default c m n = elim (Bool-cases (contains (key_of repr c) (keys m))) [
    | inl e ↦ rw e refl
    | inr e ↦ rw e (omega (arith, length-append m ((key_of repr c, c) ∷ [])))
  ]

  -- What was counted is what was appended.
  pub count_added-length :
      (cs : List Fields) (s : Merged × ℕ)
      → length (count_added repr cs s).0 + s.1 ≡ length s.0 + (count_added repr cs s).1
  count_added-length [] s = refl
  count_added-length (c ∷ cs) s =
      let k = key_of repr c in
      omega (
        arith,
        length-set_default c s.0 s.1,
        count_added-length cs (set_default k c s.0, if contains k (keys s.0) then s.1 else suc s.1),
      )

  pub count_added-keeps :
      (k : Key) (cs : List Fields) (s : Merged × ℕ)
      → contains k (keys s.0) ≡ true
      → contains k (keys (count_added repr cs s).0) ≡ true
  count_added-keeps k [] s h = h
  count_added-keeps k (c ∷ cs) s h =
      count_added-keeps k cs _ (contains-set_default k (key_of repr c) c s.0 ∙ ground arith)

  pub count_added-contains :
      (c : Fields) (cs : List Fields) (s : Merged × ℕ)
      → In c cs
      → contains (key_of repr c) (keys (count_added repr cs s).0) ≡ true
  count_added-contains c (d ∷ cs) s (inl e) = count_added-keeps (key_of repr c) cs _ (
      contains-set_default (key_of repr c) (key_of repr d) d s.0
      ∙ ground (arith, ==_iff (key_of repr c) (key_of repr d), ap (key_of repr) e))
  count_added-contains c (d ∷ cs) s (inr h) = count_added-contains c cs _ h
  count_added-contains c [] s h = absurd h

  pub values-keys : (m : Merged) → IsKeyed m → map (key_of repr) (values m) ≡ keys m
  values-keys [] h = refl
  values-keys (e ∷ m) h =
      ap (λ z. z ∷ map (key_of repr) (values m)) (sym h.own.0)
      ∙ ap (λ z. e.0 ∷ z) (values-keys m (record { own = h.own.1; once = h.once.1 }))

  pub length-values : (m : Merged) → length (values m) ≡ length m
  length-values [] = refl
  length-values (e ∷ m) = ap suc (length-values m)
