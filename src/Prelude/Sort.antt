-- ===== src/Prelude/Sort.antt =====
-- Python's `sorted`: stable, by a strict comparison, as insertion sort.
use mathlib.Core.List.{Perm}
use mathlib.Core.List.Perm
use el_sca_ansamble.Prelude.{
  ◌≡◌, Bool, true, false, List, [], ◌∷◌, All, All-map, In, Bool-cases, if◌then◌else◌, inl, inr,
}

module _ {ℓ} {A : Type ℓ} where
  -- Pairwise, each element before the later ones.
  abbrev pub Sorted {κ} : (A → A → Type κ) → List A → Type κ
  Sorted R [] = Unit
  Sorted R (x ∷ xs) = All (R x) xs × Sorted R xs

module _ {ℓ} {A : Type ℓ} (lt : A → A → Bool) where
  unfoldable pub insert_sorted : A → List A → List A
  insert_sorted a [] = a ∷ []
  insert_sorted a (x ∷ xs) = if lt x a then x ∷ insert_sorted a xs else a ∷ x ∷ xs

  unfoldable pub sort : List A → List A
  unfolding insert_sorted
  sort [] = []
  sort (x ∷ xs) = insert_sorted x (sort xs)

  insert_sorted-perm : (a : A) (xs : List A) → Perm (insert_sorted a xs) (a ∷ xs)
  unfolding insert_sorted
  insert_sorted-perm a [] = Perm.refl (a ∷ [])
  insert_sorted-perm a (x ∷ xs) = elim (Bool-cases (lt x a)) [
    | inl e ↦ rw e (Perm.trans (Perm.cons x (insert_sorted-perm a xs)) (Perm.swap a x xs))
    | inr e ↦ rw e (Perm.refl (a ∷ x ∷ xs))
  ]

  pub sort-perm : (xs : List A) → Perm (sort xs) xs
  unfolding sort
  sort-perm [] = Perm.refl []
  sort-perm (x ∷ xs) = Perm.trans (insert_sorted-perm x (sort xs)) (Perm.cons x (sort-perm xs))

  module _ {κ} (P : A → Type κ) where
    insert_sorted-All : (a : A) (xs : List A) → P a → All P xs → All P (insert_sorted a xs)
    unfolding insert_sorted
    insert_sorted-All a [] p h = (p, tt)
    insert_sorted-All a (x ∷ xs) p h = elim (Bool-cases (lt x a)) [
      | inl e ↦ rw e (h.0, insert_sorted-All a xs p h.1)
      | inr e ↦ rw e (p, h)
    ]

    pub sort-All : (xs : List A) → All P xs → All P (sort xs)
    unfolding sort
    sort-All [] h = tt
    sort-All (x ∷ xs) h = insert_sorted-All x (sort xs) h.0 (sort-All xs h.1)

  module _ {κ} (R : A → A → Type κ) (trans : (a b c : A) → R a b → R b c → R a c)
      (of_lt : (a b : A) → lt a b ≡ true → R a b) (of_ge : (a b : A) → lt a b ≡ false → R b a) where
    insert_sorted-Sorted : (a : A) (xs : List A) → Sorted R xs → Sorted R (insert_sorted a xs)
    unfolding insert_sorted
    insert_sorted-Sorted a [] h = (tt, tt)
    insert_sorted-Sorted a (x ∷ xs) h = elim (Bool-cases (lt x a)) [
      | inl e ↦ rw e (insert_sorted-All (R x) a xs (of_lt x a e) h.0, insert_sorted-Sorted a xs h.1)
      | inr e ↦
          rw e ((of_ge x a e, All-map (R x) (R a) xs (λ y r. trans a x y (of_ge x a e) r) h.0), h)
    ]

    pub sort-Sorted : (xs : List A) → Sorted R (sort xs)
    unfolding sort
    sort-Sorted [] = tt
    sort-Sorted (x ∷ xs) = insert_sorted-Sorted x (sort xs) (sort-Sorted xs)

-- Sorting keeps the elements.
module _ {A : Type 0} (lt : A → A → Bool) where
  In-insert_sorted : (b a : A) (xs : List A) → In b (a ∷ xs) → In b (insert_sorted lt a xs)
  unfolding insert_sorted
  In-insert_sorted b a [] h = h
  In-insert_sorted b a (x ∷ xs) h = elim (Bool-cases (lt x a)) [
    | inl e ↦ rw e (elim h [
      | inl i ↦ inr (In-insert_sorted b a xs (inl i))
      | inr k ↦ elim k [ inl i ↦ inl i | inr i ↦ inr (In-insert_sorted b a xs (inr i)) ]
    ])
    | inr e ↦ rw e h
  ]

  In-of_insert_sorted : (b a : A) (xs : List A) → In b (insert_sorted lt a xs) → In b (a ∷ xs)
  unfolding insert_sorted
  In-of_insert_sorted b a [] = λ (h : In b (a ∷ [])). h
  In-of_insert_sorted b a (x ∷ xs) = elim (Bool-cases (lt x a)) [
    | inl e ↦ rw e (λ (h : In b (x ∷ insert_sorted lt a xs)). elim h [
      | inl i ↦ inr (inl i)
      | inr k ↦ elim (In-of_insert_sorted b a xs k) [ inl i ↦ inl i | inr i ↦ inr (inr i) ]
    ])
    | inr e ↦ rw e (λ (h : In b (a ∷ x ∷ xs)). h)
  ]

  pub In-sort : (b : A) (xs : List A) → In b xs → In b (sort lt xs)
  unfolding sort
  In-sort b (x ∷ xs) (inl e) = In-insert_sorted b x (sort lt xs) (inl e)
  In-sort b (x ∷ xs) (inr h) = In-insert_sorted b x (sort lt xs) (inr (In-sort b xs h))
  In-sort b [] h = absurd h

  pub In-of_sort : (b : A) (xs : List A) → In b (sort lt xs) → In b xs
  unfolding sort
  In-of_sort b [] h = h
  In-of_sort b (x ∷ xs) h = elim (In-of_insert_sorted b x (sort lt xs) h) [
    | inl e ↦ inl e
    | inr i ↦ inr (In-of_sort b xs i)
  ]
