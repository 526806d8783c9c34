-- ===== src/Prelude/Keys.antt =====
-- Types whose values Python compares with `==`: the interface, its instances, membership and
-- dictionaries. A dictionary keeps its keys in the order of their first insertion.
use text.Mathlib.Text.{◌==◌ as str_eq}
use text.Mathlib.TextEquality.{eq_iff}
use el_sca_ansamble.Prelude.{
  ℕ, suc, String, ◌≡◌, refl, sym, ap, inl, inr, Bool-cases, ◌↔◌, Bool, true, false, ◌&&◌, ◌||◌,
  Option, none, some, List, [], ◌∷◌, ◌++◌, arith, ◌==◌ as nat_beq, ==_iff as nat_eq_iff,
  if◌then◌else◌, In,
}

pub record HasEquality {ℓ} (A : Type ℓ) : Type ℓ where
  pub same : A → A → Bool
  pub same_iff : (a b : A) → (same a b ≡ true) ↔ (a ≡ b)

infix 50 ◌==◌
abbrev pub ◌==◌ {ℓ} : {A : Type ℓ} ⦃e : HasEquality A⦄ → A → A → Bool
◌==◌ ⦃e⦄ = e.same

pub ==_iff {ℓ} : {A : Type ℓ} ⦃e : HasEquality A⦄ (a b : A) → ((a == b) ≡ true) ↔ (a ≡ b)
==_iff ⦃e⦄ a b = e.same_iff a b

pub ==_refl {ℓ} : {A : Type ℓ} ⦃e : HasEquality A⦄ (a : A) → (a == a) ≡ true
==_refl a = (==_iff a a).1 refl

module _ {ℓ κ} {A : Type ℓ} {B : Type κ} ⦃a : HasEquality A⦄ ⦃b : HasEquality B⦄ where
  abbrev pub pair_beq : A × B → A × B → Bool
  pair_beq p q = p.0 == q.0 && p.1 == q.1

  pub pair_beq_iff : (p q : A × B) → (pair_beq p q ≡ true) ↔ (p ≡ q)
  pair_beq_iff p q = ground (arith, a.same_iff p.0 q.0, b.same_iff p.1 q.1)

instance abbrev pub pair_eq {ℓ κ} :
    {A : Type ℓ} {B : Type κ} ⦃a : HasEquality A⦄ ⦃b : HasEquality B⦄ → HasEquality (A × B)
pair_eq = record { same = pair_beq; same_iff = pair_beq_iff }

module _ {ℓ} {A : Type ℓ} ⦃a : HasEquality A⦄ where
  abbrev pub list_beq : List A → List A → Bool
  list_beq [] [] = true
  list_beq [] (y ∷ ys) = false
  list_beq (x ∷ xs) [] = false
  list_beq (x ∷ xs) (y ∷ ys) = x == y && list_beq xs ys

  pub list_beq_iff : (xs ys : List A) → (list_beq xs ys ≡ true) ↔ (xs ≡ ys)
  list_beq_iff [] [] = ground arith
  list_beq_iff [] (y ∷ ys) = ground arith
  list_beq_iff (x ∷ xs) [] = ground arith
  list_beq_iff (x ∷ xs) (y ∷ ys) = ground (arith, a.same_iff x y, list_beq_iff xs ys)

instance abbrev pub list_eq {ℓ} : {A : Type ℓ} ⦃a : HasEquality A⦄ → HasEquality (List A)
list_eq = record { same = list_beq; same_iff = list_beq_iff }

instance abbrev pub string_eq : HasEquality String
string_eq = record { same = str_eq; same_iff = eq_iff }

instance abbrev pub nat_eq : HasEquality ℕ
nat_eq = record { same = nat_beq; same_iff = nat_eq_iff }

module _ {ℓ} {A : Type ℓ} ⦃e : HasEquality A⦄ where
  -- `a in xs`
  unfoldable pub contains : A → List A → Bool
  contains a [] = false
  contains a (x ∷ xs) = a == x || contains a xs

  pub contains-append :
      (a : A) (xs ys : List A) → contains a (xs ++ ys) ≡ (contains a xs || contains a ys)
  unfolding contains
  contains-append a [] ys = refl
  contains-append a (x ∷ xs) ys = ground (arith, contains-append a xs ys)

  -- `s.add(a)`, for a set written as a list without repetitions
  unfoldable pub add : A → List A → List A
  add a xs = if contains a xs then xs else xs ++ a ∷ []

  pub contains-add : (b a : A) (xs : List A) → contains b (add a xs) ≡ (b == a || contains b xs)
  unfolding add contains
  contains-add b a xs = ground (arith, contains-append b xs (a ∷ []), e.same_iff b a)

-- The test and the membership that it decides.
module _ {A : Type 0} ⦃e : HasEquality A⦄ where
  pub In-of_contains : (a : A) (xs : List A) → contains a xs ≡ true → In a xs
  unfolding contains
  In-of_contains a [] h = cc
  In-of_contains a (x ∷ xs) h = elim (Bool-cases (a == x)) [
    | inl same ↦ inl ((e.same_iff a x).0 same)
    | inr other ↦ inr (In-of_contains a xs (ground arith))
  ]

  pub contains-of_In : (a : A) (xs : List A) → In a xs → contains a xs ≡ true
  unfolding contains
  contains-of_In a [] h = absurd h
  contains-of_In a (x ∷ xs) (inl same) = ground (arith, e.same_iff a x)
  contains-of_In a (x ∷ xs) (inr later) = ground (arith, contains-of_In a xs later)

  pub not_In : (a : A) (xs : List A) → contains a xs ≡ false → ¬ In a xs
  not_In a xs h i = elim (Bool-cases (contains a xs)) [
    | inl e ↦ absurd (ground arith)
    | inr e ↦ let k = contains-of_In a xs i in absurd (ground arith)
  ]

module _ {ℓ κ} {K : Type ℓ} {V : Type κ} ⦃e : HasEquality K⦄ where
  -- `d.get(k)`
  unfoldable pub lookup : K → List (K × V) → Option V
  lookup k [] = none
  lookup k ((j, v) ∷ d) = if j == k then some v else lookup k d

  -- `d[k] = v`
  unfoldable pub insert : K → V → List (K × V) → List (K × V)
  insert k v [] = (k, v) ∷ []
  insert k v ((j, w) ∷ d) = if j == k then (j, v) ∷ d else (j, w) ∷ insert k v d

  pub lookup-insert :
      (k j : K) (v : V) (d : List (K × V))
      → lookup j (insert k v d) ≡ (if k == j then some v else lookup j d)
  unfolding lookup insert
  lookup-insert k j v [] = refl
  lookup-insert k j v ((i, w) ∷ d) =
      ground (arith, e.same_iff k j, e.same_iff i k, e.same_iff i j, lookup-insert k j v d)

module _ {ℓ κ} {K : Type ℓ} {V : Type κ} where
  abbrev pub keys : List (K × V) → List K
  keys [] = []
  keys ((k, v) ∷ d) = k ∷ keys d

module _ {ℓ κ} {K : Type ℓ} {V : Type κ} ⦃e : HasEquality K⦄ where
  -- No key stands twice, as in every Python dictionary.
  abbrev pub Distinct : List (K × V) → Type 0
  Distinct [] = Unit
  Distinct ((k, v) ∷ d) = (contains k (keys d) ≡ false) × Distinct d

  pub contains-keys-insert :
      (k j : K) (v : V) (d : List (K × V))
      → contains j (keys (insert k v d)) ≡ (j == k || contains j (keys d))
  unfolding contains insert
  contains-keys-insert k j v [] = refl
  contains-keys-insert k j v ((i, w) ∷ d) =
      ground (arith, e.same_iff i k, e.same_iff j i, e.same_iff j k, contains-keys-insert k j v d)

  pub insert-Distinct : (k : K) (v : V) (d : List (K × V)) → Distinct d → Distinct (insert k v d)
  unfolding contains insert
  insert-Distinct k v [] h = (refl, tt)
  insert-Distinct k v ((i, w) ∷ d) h =
      ground (arith, e.same_iff i k, contains-keys-insert k i v d, insert-Distinct k v d h.1)

  pub lookup_of_absent :
      (k : K) (d : List (K × V)) → contains k (keys d) ≡ false → lookup k d ≡ none
  unfolding contains lookup
  lookup_of_absent k [] h = refl
  lookup_of_absent k ((i, w) ∷ d) h =
      ground (arith, e.same_iff i k, e.same_iff k i, lookup_of_absent k d)

module _ {ℓ} {A : Type ℓ} ⦃e : HasEquality A⦄ where
  -- No element stands twice: a list that stands for a set.
  abbrev pub Unrepeated : List A → Type 0
  Unrepeated [] = Unit
  Unrepeated (x ∷ xs) = (contains x xs ≡ false) × Unrepeated xs

  pub append-Unrepeated :
      (v : A) (xs : List A) → contains v xs ≡ false → Unrepeated xs → Unrepeated (xs ++ v ∷ [])
  unfolding contains
  append-Unrepeated v [] h u = (refl, tt)
  append-Unrepeated v (x ∷ xs) h u = (
    ground (arith, contains-append x xs (v ∷ []), e.same_iff x v, e.same_iff v x),
    append-Unrepeated v xs (ground arith) u.1,
  )

  pub add-Unrepeated : (v : A) (xs : List A) → Unrepeated xs → Unrepeated (add v xs)
  unfolding add
  add-Unrepeated v xs u = elim (Bool-cases (contains v xs)) [
    | inl e ↦ rw e u
    | inr e ↦ rw e (append-Unrepeated v xs e u)
  ]

  -- `len(xs & ys)`, for sets
  unfoldable pub common : List A → List A → ℕ
  common [] ys = 0
  common (x ∷ xs) ys = let rest = common xs ys in if contains x ys then suc rest else rest

  common-cons :
      (x : A) (xs ys : List A)
      → Unrepeated ys
      → contains x xs ≡ false
      → common ys (x ∷ xs) ≡ (if contains x ys then suc (common ys xs) else common ys xs)
  unfolding common contains
  common-cons x xs [] u h = refl
  common-cons x xs (y ∷ ys) u h = elim (Bool-cases (y == x)) [
    | inl same ↦
        let e : y ≡ x = (e.same_iff y x).0 same in
        rw (e, ==_refl x) (ground (arith, common-cons x xs ys u.1 h, ap (λ z. contains z ys) e))
    | inr other ↦ ground (arith, e.same_iff x y, e.same_iff y x, common-cons x xs ys u.1 h)
  ]

  -- The size of an intersection does not depend on the order of the two sets.
  pub common_comm : (xs ys : List A) → Unrepeated xs → Unrepeated ys → common xs ys ≡ common ys xs
  unfolding common contains
  common_comm [] ys u v = sym (common-nil ys)
    where
      common-nil : (ys : List A) → common ys [] ≡ 0
      common-nil [] = refl
      common-nil (y ∷ ys) = common-nil ys
  common_comm (x ∷ xs) ys u v = ground (arith, common-cons x xs ys v u.0, common_comm xs ys u.1 v)
