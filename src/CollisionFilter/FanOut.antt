-- ===== src/CollisionFilter/FanOut.antt =====
-- What the vendor count of a component means: that many different vendors among the findings.
use el_sca_ansamble.Prelude.{
  ◌≤◌, String, ◌≡◌, ◌≢◌, refl, sym, ◌⊎◌, inl, inr, Bool, true, false, List, [], ◌∷◌, arith, length,
  In, Bool-cases, if◌then◌else◌,
}
use el_sca_ansamble.Prelude.Keys.{
  ◌==◌, string_eq, pair_eq, contains, add, lookup, lookup-insert, ==_iff, contains-add, Unrepeated,
  add-Unrepeated,
}
use el_sca_ansamble.Prelude.Text.{lower}
use el_sca_ansamble.CollisionFilter.Finding.{Finding, text_of, is_real_vendor}
use el_sca_ansamble.CollisionFilter.Vendor.{Key, found}
use el_sca_ansamble.CollisionFilter.Collisions.{
  key_of, Vendors, note_vendor, vendors_onto, vendor_count,
}

-- A real vendor of the component, named by one of the findings.
pub record Names (findings : List Finding) (k : Key) (vendor : String) : Type 0 where
  pub finding : Finding
  pub among : In finding findings
  pub real : is_real_vendor finding ≡ true
  pub component : key_of finding ≡ k
  pub named : lower (text_of finding.vendor) ≡ vendor

Names-cons :
    {fs : List Finding} {k : Key} {v : String} (f : Finding) → Names fs k v → Names (f ∷ fs) k v
Names-cons f n = record {
  finding = n.finding;
  among = inr n.among;
  real = n.real;
  component = n.component;
  named = n.named;
}

abbrev vendors_of : Key → Vendors → List String
vendors_of k vendors = found (lookup k vendors)

vendors_of-note :
    (k : Key) (f : Finding) (vs : Vendors)
    → vendors_of k (note_vendor f vs) ≡ (
        if is_real_vendor f
        then if key_of f == k
          then add (lower (text_of f.vendor)) (vendors_of k vs)
          else vendors_of k vs
        else vendors_of k vs)
unfolding note_vendor
vendors_of-note k f vs = elim (Bool-cases (is_real_vendor f)) [
  | inr vague ↦ rw vague
  | inl real ↦ rw real (
      rw (lookup-insert (key_of f) k _ vs) (elim (Bool-cases (key_of f == k)) [
        | inl same ↦ rw same (rw ((==_iff (key_of f) k).0 same))
        | inr other ↦ rw other
      ]))
]

note_vendor-source :
    (f : Finding) (fs : List Finding) (k : Key) (v : String) (old : List String) (real same : Bool)
    → is_real_vendor f ≡ real
    → (key_of f == k) ≡ same
    → contains v (if real then if same then add (lower (text_of f.vendor)) old else old else old)
      ≡ true
    → Names (f ∷ fs) k v ⊎ (contains v old ≡ true)
note_vendor-source f fs k v old false same r e h = inr h
note_vendor-source f fs k v old true false r e h = inr h
note_vendor-source f fs k v old true true r e h =
    elim (Bool-cases (v == lower (text_of f.vendor))) [
      | inl here ↦ inl (record {
        finding = f;
        among = inl refl;
        real = r;
        component = (==_iff (key_of f) k).0 e;
        named = sym ((==_iff v (lower (text_of f.vendor))).0 here);
      })
      | inr there ↦ inr (ground (arith, contains-add v (lower (text_of f.vendor)) old))
    ]

vendors_onto-source :
    (fs : List Finding) (k : Key) (v : String) (vs : Vendors)
    → contains v (vendors_of k (vendors_onto fs vs)) ≡ true
    → Names fs k v ⊎ (contains v (vendors_of k vs) ≡ true)
unfolding vendors_onto
vendors_onto-source [] k v vs h = inr h
vendors_onto-source (f ∷ fs) k v vs h = elim (vendors_onto-source fs k v (note_vendor f vs) h) [
  | inl n ↦ inl (Names-cons f n)
  | inr old ↦
      note_vendor-source f fs k v (vendors_of k vs) (is_real_vendor f) (key_of f == k) refl refl
        (rw (vendors_of-note k f vs) at old)
]

note_vendor-Unrepeated :
    (v : String) (old : List String) (real same : Bool)
    → Unrepeated old
    → Unrepeated (if real then if same then add v old else old else old)
note_vendor-Unrepeated v old false same u = u
note_vendor-Unrepeated v old true false u = u
note_vendor-Unrepeated v old true true u = add-Unrepeated v old u

vendors_onto-Unrepeated :
    (fs : List Finding) (k : Key) (vs : Vendors)
    → Unrepeated (vendors_of k vs)
    → Unrepeated (vendors_of k (vendors_onto fs vs))
unfolding vendors_onto
vendors_onto-Unrepeated [] k vs u = u
vendors_onto-Unrepeated (f ∷ fs) k vs u = vendors_onto-Unrepeated fs k (note_vendor f vs) (
    rw (vendors_of-note k f vs) (
      note_vendor-Unrepeated (lower (text_of f.vendor)) (vendors_of k vs) (is_real_vendor f)
        (key_of f == k) u))

two_members :
    (xs : List String)
    → Unrepeated xs
    → 2 ≤ length xs
    → (u v : String) × (u ≢ v) × (contains u xs ≡ true) × (contains v xs ≡ true)
unfolding contains
two_members [] u h = absurd (omega arith)
two_members (x ∷ []) u h = absurd (omega arith)
two_members (x ∷ y ∷ xs) u h =
    (x, y, ground (arith, ==_iff x y), ground (arith, ==_iff x x), ground (arith, ==_iff y y))

-- A component whose vendor count is at least two was given two different real vendors by findings
-- of the list: the fan-out that the filter looks for is there.
pub vendor_count-fan_out :
    (findings : List Finding) (f : Finding)
    → 2 ≤ vendor_count f (vendors_onto findings [])
    → (u v : String) × (u ≢ v) × Names findings (key_of f) u × Names findings (key_of f) v
unfolding contains lookup
vendor_count-fan_out findings f h =
    let k = key_of f in
    let (u, v, ne, hu, hv) =
      two_members (vendors_of k (vendors_onto findings []))
        (vendors_onto-Unrepeated findings k [] tt) h in
    (
      u,
      v,
      ne,
      from_nothing u (vendors_onto-source findings k u [] hu),
      from_nothing v (vendors_onto-source findings k v [] hv),
    )
  where
    from_nothing :
        (v : String)
        → Names findings (key_of f) v ⊎ (contains v [] ≡ true)
        → Names findings (key_of f) v
    from_nothing v (inl n) = n
    from_nothing v (inr e) = cc
