-- ===== src/CollisionFilter/Evidence.antt =====
-- Every finding is kept or dropped, and what is dropped has a reason in the SBOM.
use mathlib.Core.List.{Perm, perm_middle, perm_append_comm, append_assoc, map-append}
use mathlib.Core.List.Perm
use el_sca_ansamble.Prelude.{
  ◌≤◌, String, ◌≡◌, ◌≢◌, refl, sym, ap, ◌∙◌, ◌⊎◌, inl, inr, true, false, List, [], ◌∷◌, ◌++◌, arith,
  map, All, All-append, All-map, In, In-append_left, ltb, Bool-cases,
}
use el_sca_ansamble.Prelude.Keys.{◌==◌, string_eq, pair_eq, contains, ==_iff}
use el_sca_ansamble.CollisionFilter.Finding.{Finding, Dropped, is_cve_bin_tool, is_real_vendor}
use el_sca_ansamble.CollisionFilter.Vendor.{Key, Groups, groups_for}
use el_sca_ansamble.CollisionFilter.Collisions.{
  key_of, Vendors, vendors_onto, owners, Verdict, keep, defer, drop, corroborated, is_inhouse,
  vendor_count, judge_owners, judge, Pass, route, first_pass, disproved, second_pass,
  filter_vendor_collisions,
}

abbrev finding_of : Dropped → Finding
finding_of d = d.finding

abbrev pub all_of : List Finding → List Dropped → List Finding
all_of kept dropped = kept ++ map finding_of dropped

module _ (groups : Groups) (vendors : Vendors) where
  -- No groupId that names an owner vouches for the vendor, though there is such a groupId, and the
  -- component was given several vendors.
  pub record IsUncorroborated (f : Finding) : Type 0 where
    pub real : is_real_vendor f ≡ true
    pub fan_out : 2 ≤ vendor_count f vendors
    pub owned : owners (groups_for f groups) ≢ []
    pub refuted : corroborated f (owners (groups_for f groups)) ≡ false

  -- The two grounds of the first pass.
  pub record IsDisproved (f : Finding) : Type 0 where
    pub tool : is_cve_bin_tool f ≡ true
    pub ground : (is_inhouse f groups ≡ true) ⊎ IsUncorroborated f

  abbrev Reasoned : Finding → Verdict → Type 0
  Reasoned f keep = Unit
  Reasoned f defer = (is_cve_bin_tool f ≡ true) × (is_real_vendor f ≡ false)
  Reasoned f (drop d) = (d.finding ≡ f) × IsDisproved f

  judge_owners-Reasoned :
      (f : Finding) (gs : List String)
      → is_cve_bin_tool f ≡ true
      → is_real_vendor f ≡ true
      → 2 ≤ vendor_count f vendors
      → owners (groups_for f groups) ≡ gs
      → Reasoned f (judge_owners f gs)
  judge_owners-Reasoned f [] tool real many e = tt
  judge_owners-Reasoned f (g ∷ gs) tool real many e = elim (Bool-cases (corroborated f (g ∷ gs))) [
    | inl yes' ↦ rw yes' tt
    | inr no' ↦ rw no' (
      refl,
      record {
        tool = tool;
        ground = inr (record {
          real = real;
          fan_out = many;
          owned = λ k. cc;
          refuted = ap (corroborated f) e ∙ no';
        });
      },
    )
  ]

  judge-Reasoned : (f : Finding) → Reasoned f (judge groups vendors f)
  unfolding judge
  judge-Reasoned f = elim (Bool-cases (is_cve_bin_tool f)) [
    | inr other ↦ rw other tt
    | inl tool ↦ rw tool (elim (Bool-cases (is_inhouse f groups)) [
      | inl own ↦ rw own (refl, record { tool = tool; ground = inl own })
      | inr published ↦ rw published (elim (Bool-cases (is_real_vendor f)) [
        | inr vague ↦ rw vague (tool, vague)
        | inl real ↦ rw real (elim (Bool-cases (ltb (vendor_count f vendors) 2)) [
          | inl single ↦ rw single tt
          | inr many ↦
              rw many (
                judge_owners-Reasoned f (owners (groups_for f groups)) tool real (ground arith)
                  refl)
        ])
      ])
    ])
  ]

  route-perm :
      (f : Finding) (v : Verdict) (p : Pass)
      → Reasoned f v
      → Perm
          ((route f v p).kept ++ (map finding_of (route f v p).dropped ++ (route f v p).deferred))
          (f ∷ (p.kept ++ (map finding_of p.dropped ++ p.deferred)))
  route-perm f keep p h = Perm.refl _
  route-perm f defer p h =
      Perm.trans (Perm.append_left p.kept (perm_middle (map finding_of p.dropped) p.deferred))
        (perm_middle p.kept _)
  route-perm f (drop d) p h = rw h.0 (perm_middle p.kept _)

  first_pass-perm :
      (fs : List Finding)
      → Perm
          ((first_pass groups vendors fs).kept
            ++ (map finding_of (first_pass groups vendors fs).dropped
                ++ (first_pass groups vendors fs).deferred))
          fs
  unfolding first_pass
  first_pass-perm [] = Perm.refl []
  first_pass-perm (f ∷ fs) =
      Perm.trans
        (route-perm f (judge groups vendors f) (first_pass groups vendors fs) (judge-Reasoned f))
        (Perm.cons f (first_pass-perm fs))

second_pass-perm :
    (ks : List Key) (fs : List Finding)
    → Perm (all_of (second_pass ks fs).0 (second_pass ks fs).1) fs
unfolding second_pass
second_pass-perm ks [] = Perm.refl []
second_pass-perm ks (f ∷ fs) = elim (Bool-cases (contains (key_of f) ks)) [
  | inl gone ↦
      rw gone
        (Perm.trans (perm_middle (second_pass ks fs).0 _) (Perm.cons f (second_pass-perm ks fs)))
  | inr stays ↦ rw stays (Perm.cons f (second_pass-perm ks fs))
]

perm_rotate : (a b c : List Finding) → Perm (a ++ (b ++ c)) (b ++ (a ++ c))
perm_rotate a b c =
    rw (← append_assoc a b c)
      (rw (← append_assoc b a c) (Perm.append_right c (perm_append_comm a b)))

regroup :
    (k k' : List Finding) (d d' : List Dropped)
    → Perm (all_of (k ++ k') (d ++ d')) (k ++ (map finding_of d ++ all_of k' d'))
regroup k k' d d' =
    rw (map-append, append_assoc)
      (Perm.append_left k (perm_rotate k' (map finding_of d) (map finding_of d')))

-- `filter_vendor_collisions` loses and invents nothing: the kept findings and the dropped ones, with
-- their annotations taken off, are together a permutation of the findings that came in.
pub filter_vendor_collisions-perm :
    (findings : List Finding) (groups : Groups)
    → Perm
        (all_of
          (filter_vendor_collisions findings groups).0
          (filter_vendor_collisions findings groups).1)
        findings
unfolding filter_vendor_collisions
filter_vendor_collisions-perm findings groups =
    let vendors = vendors_onto findings [] in
    let first = first_pass groups vendors findings in
    let ks = disproved first.dropped in
    Perm.trans
      (regroup first.kept (second_pass ks first.deferred).0 first.dropped
        (second_pass ks first.deferred).1)
      (Perm.trans
        (Perm.append_left first.kept
          (Perm.append_left (map finding_of first.dropped) (second_pass-perm ks first.deferred)))
        (first_pass-perm groups vendors findings))

module _ (groups : Groups) (vendors : Vendors) where
  -- A finding without a vendor goes along with a disproved finding of the same component.
  pub record RidesAlong (dropped : List Dropped) (f : Finding) : Type 0 where
    pub tool : is_cve_bin_tool f ≡ true
    pub vague : is_real_vendor f ≡ false
    pub sibling : Dropped
    pub was_dropped : In sibling dropped
    pub disproof : IsDisproved groups vendors sibling.finding
    pub same_component : key_of sibling.finding ≡ key_of f

  abbrev Disproved : Dropped → Type 0
  Disproved d = IsDisproved groups vendors d.finding

  abbrev Deferred : Finding → Type 0
  Deferred f = (is_cve_bin_tool f ≡ true) × (is_real_vendor f ≡ false)

  abbrev Sound : Pass → Type 0
  Sound p = All Disproved p.dropped × All Deferred p.deferred

  route-Sound :
      (f : Finding) (v : Verdict) (p : Pass)
      → Reasoned groups vendors f v
      → Sound p
      → Sound (route f v p)
  route-Sound f keep p h s = s
  route-Sound f defer p h s = (s.0, (h, s.1))
  route-Sound f (drop d) p h s = ((rw h.0 h.1, s.0), s.1)

  first_pass-Sound : (fs : List Finding) → Sound (first_pass groups vendors fs)
  unfolding first_pass
  first_pass-Sound [] = (tt, tt)
  first_pass-Sound (f ∷ fs) =
      route-Sound f (judge groups vendors f) (first_pass groups vendors fs)
        (judge-Reasoned groups vendors f) (first_pass-Sound fs)

  -- Where a disproved component comes from.
  disproved-source :
      (k : Key) (ds : List Dropped)
      → All Disproved ds
      → contains k (disproved ds) ≡ true
      → (d : Dropped) × In d ds × Disproved d × (key_of d.finding ≡ k)
  unfolding disproved contains
  disproved-source k [] h c = cc
  disproved-source k (d ∷ ds) h c = elim (Bool-cases (k == key_of d.finding)) [
    | inl e ↦ (d, inl refl, h.0, sym ((==_iff k (key_of d.finding)).0 e))
    | inr e ↦
        let (d', here, why, same) = disproved-source k ds h.1 (rw e at c) in
        (d', inr here, why, same)
  ]

  second_pass-RidesAlong :
      (ds : List Dropped) (fs : List Finding)
      → All Disproved ds
      → All Deferred fs
      → All (λ d. RidesAlong ds d.finding) (second_pass (disproved ds) fs).1
  unfolding second_pass
  second_pass-RidesAlong ds [] h k = tt
  second_pass-RidesAlong ds (f ∷ fs) h k = elim (Bool-cases (contains (key_of f) (disproved ds))) [
    | inr stays ↦ rw stays (second_pass-RidesAlong ds fs h k.1)
    | inl gone ↦
        let (d, here, why, same) = disproved-source (key_of f) ds h gone in
        rw gone (
          record {
            tool = k.0.0;
            vague = k.0.1;
            sibling = d;
            was_dropped = here;
            disproof = why;
            same_component = same;
          },
          second_pass-RidesAlong ds fs h k.1,
        )
  ]

  RidesAlong-append :
      (ds ds' : List Dropped) {f : Finding} → RidesAlong ds f → RidesAlong (ds ++ ds') f
  RidesAlong-append ds ds' r = record {
    tool = r.tool;
    vague = r.vague;
    sibling = r.sibling;
    was_dropped = In-append_left r.sibling ds ds' r.was_dropped;
    disproof = r.disproof;
    same_component = r.same_component;
  }

  -- Why a dropped finding went.
  abbrev pub HasReason : List Dropped → Dropped → Type 0
  HasReason dropped d = IsDisproved groups vendors d.finding ⊎ RidesAlong dropped d.finding

-- Every finding that `filter_vendor_collisions` drops is a cve-bin-tool finding, and either it is
-- disproved itself (an in-house build with synthesised coordinates; or one of several vendors of
-- its component, where a groupId names an owner and none of those vouches for the vendor), or it
-- names no vendor and another dropped finding of the same component is disproved itself.
pub filter_vendor_collisions-reasons :
    (findings : List Finding) (groups : Groups)
    → All
        (HasReason groups (vendors_onto findings []) (filter_vendor_collisions findings groups).1)
        (filter_vendor_collisions findings groups).1
unfolding filter_vendor_collisions
filter_vendor_collisions-reasons findings groups =
    let vendors = vendors_onto findings [] in
    let first = first_pass groups vendors findings in
    let sound = first_pass-Sound groups vendors findings in
    let second = (second_pass (disproved first.dropped) first.deferred).1 in
    let reason = HasReason groups vendors (first.dropped ++ second) in
    All-append reason first.dropped second
      (All-map (λ d. IsDisproved groups vendors d.finding) reason first.dropped (λ d h. inl h)
        sound.0)
      (All-map (λ d. RidesAlong groups vendors first.dropped d.finding) reason second
        (λ d r. inr (RidesAlong-append groups vendors first.dropped second r))
        (second_pass-RidesAlong groups vendors first.dropped first.deferred sound.0 sound.1))
