-- ===== src/CollisionFilter/Disproof.antt =====
-- When a platform disproves an attribution, and which findings the three plain filters drop.
use el_sca_ansamble.Prelude.{
  String, ◌≡◌, ◌≢◌, refl, sym, Bool, true, false, ◌&&◌, ◌||◌, not, Option, none, some, List, [],
  ◌∷◌, map, All, arith, any, all, inl, inr, Bool-cases, if◌then◌else◌,
}
use el_sca_ansamble.Prelude.Keys.{◌==◌, string_eq, ==_iff, contains, contains-append}
use el_sca_ansamble.CollisionFilter.Finding.{Finding, Dropped}
use el_sca_ansamble.CollisionFilter.Vendor.{found}
use el_sca_ansamble.CollisionFilter.Platforms.{
  is_meaningful, platforms_of, known_ecosystems, keep_known, allowed, is_empty, platform_disproves,
}
use el_sca_ansamble.CollisionFilter.Markers.{
  is_compiler_marker, filter_compiler_markers, is_distro_owned, drop_distro_owned,
  filter_distro_owned_binaries,
}

any-false :
    (p : String → Bool) (xs : List String) (x : String)
    → any p xs ≡ false
    → contains x xs ≡ true
    → p x ≡ false
unfolding any contains
any-false p [] x h m = cc
any-false p (y ∷ ys) x h m = elim (Bool-cases (x == y)) [
  | inl e ↦ rw ((==_iff x y).0 e) (ground arith)
  | inr e ↦ any-false p ys x (ground arith) (rw e at m)
]

all-true :
    (p : String → Bool) (xs : List String) (x : String)
    → all p xs ≡ true
    → contains x xs ≡ true
    → p x ≡ true
unfolding all contains
all-true p [] x h m = cc
all-true p (y ∷ ys) x h m = elim (Bool-cases (x == y)) [
  | inl e ↦ rw ((==_iff x y).0 e) (ground arith)
  | inr e ↦ all-true p ys x (ground arith) (rw e at m)
]

allowed-keep_known :
    (eco sw : String) (o : Option (List String)) (rest : List String)
    → platforms_of eco ≡ o
    → contains sw (allowed (keep_known eco o rest))
      ≡ (contains sw (found o) || contains sw (allowed rest))
unfolding allowed contains
allowed-keep_known eco sw none rest e = refl
allowed-keep_known eco sw (some ps) rest e = rw e (contains-append sw ps (allowed rest))

contains-allowed :
    (ecos : List String) (eco sw : String)
    → contains eco ecos ≡ true
    → contains sw (found (platforms_of eco)) ≡ true
    → contains sw (allowed (known_ecosystems ecos)) ≡ true
unfolding known_ecosystems contains
contains-allowed [] eco sw h k = cc
contains-allowed (e ∷ ecos) eco sw h k =
    rw (allowed-keep_known e sw (platforms_of e) (known_ecosystems ecos) refl)
      (elim (Bool-cases (eco == e)) [
        | inl here ↦ rw (← (==_iff eco e).0 here) (rw k)
        | inr there ↦ ground (arith, contains-allowed ecos eco sw (rw there at h) k)
      ])

-- The CPE's platforms are all recognised ones, there is one, and none of them is a platform of an
-- ecosystem that the component belongs to.
pub record Refutes (ecosystems target_sw : List String) : Type 0 where
  pub mapped : known_ecosystems ecosystems ≢ []
  pub named : target_sw ≢ []
  pub recognised : All (λ sw. is_meaningful sw ≡ true) target_sw
  pub foreign :
      All (λ eco. All (λ sw. contains sw (found (platforms_of eco)) ≡ false) target_sw) ecosystems

All-of_contains :
    (P : String → Type 0) (xs : List String)
    → ((x : String) → contains x xs ≡ true → P x)
    → All P xs
unfolding contains
All-of_contains P [] h = tt
All-of_contains P (x ∷ xs) h =
    (h x (ground (arith, ==_iff x x)), All-of_contains P xs (λ y m. h y (ground (arith, m))))

is_empty-eq-false : (xs : List String) → is_empty xs ≡ false → xs ≢ []
is_empty-eq-false [] h e = cc
is_empty-eq-false (x ∷ xs) h e = cc

-- What `platform_disproves` says is borne out: it holds only where every target_sw of the CPE is a
-- recognised platform, there is one, some ecosystem of the component is mapped, and no target_sw is
-- a platform of any ecosystem of the component.
pub platform_disproves-Refutes :
    (ecosystems target_sw : List String)
    → platform_disproves ecosystems target_sw ≡ true
    → Refutes ecosystems target_sw
unfolding platform_disproves
platform_disproves-Refutes ecos tsw h =
    let known = known_ecosystems ecos in
    record {
      mapped = is_empty-eq-false known (ground arith);
      named = is_empty-eq-false tsw (ground arith);
      recognised =
          All-of_contains (λ sw. is_meaningful sw ≡ true) tsw
            (λ sw. all-true is_meaningful tsw sw (ground arith));
      foreign =
          All-of_contains _ ecos
            (λ eco he. All-of_contains _ tsw (λ sw hs. is_foreign eco sw he hs));
    }
  where
    is_foreign :
        (eco sw : String)
        → contains eco ecos ≡ true
        → contains sw tsw ≡ true
        → contains sw (found (platforms_of eco)) ≡ false
    is_foreign eco sw he hs = elim (Bool-cases (contains sw (found (platforms_of eco)))) [
      | inr no' ↦ no'
      | inl bad ↦ absurd (
          ground (
            arith,
            h,
            any-false (λ s. contains s (allowed (known_ecosystems ecos))) tsw sw (ground arith) hs,
            contains-allowed ecos eco sw he bad,
          ))
    ]

abbrev finding_of : Dropped → Finding
finding_of d = d.finding

-- The findings for which a test says yes, and those for which it says no, in order.
abbrev pub select : (Finding → Bool) → List Finding → List Finding
select p [] = []
select p (f ∷ fs) = let rest = select p fs in if p f then f ∷ rest else rest

abbrev pub reject : (Finding → Bool) → List Finding → List Finding
reject p [] = []
reject p (f ∷ fs) = let rest = reject p fs in if p f then rest else f ∷ rest

abbrev pub IsSplitBy : (Finding → Bool) → List Finding → List Finding × List Dropped → Type 0
IsSplitBy p findings (kept, dropped) =
    (kept ≡ reject p findings) × (map finding_of dropped ≡ select p findings)

reject-none : (fs : List Finding) → reject (λ f. false) fs ≡ fs
reject-none [] = refl
reject-none (f ∷ fs) = rw (reject-none fs)

select-none : (fs : List Finding) → select (λ f. false) fs ≡ []
select-none [] = refl
select-none (f ∷ fs) = select-none fs

-- `filter_compiler_markers` drops, in order, exactly the cve-bin-tool findings of the product gcc, in
-- any letter case, and keeps the other findings in order.
pub filter_compiler_markers-IsSplitBy :
    (findings : List Finding)
    → IsSplitBy is_compiler_marker findings (filter_compiler_markers findings)
unfolding filter_compiler_markers
filter_compiler_markers-IsSplitBy [] = (refl, refl)
filter_compiler_markers-IsSplitBy (f ∷ fs) = ground (arith, filter_compiler_markers-IsSplitBy fs)

drop_distro_owned-IsSplitBy :
    (distro : String) (findings : List Finding)
    → IsSplitBy is_distro_owned findings (drop_distro_owned distro findings)
unfolding drop_distro_owned
drop_distro_owned-IsSplitBy distro [] = (refl, refl)
drop_distro_owned-IsSplitBy distro (f ∷ fs) = ground (arith, drop_distro_owned-IsSplitBy distro fs)

-- Without a recognised distribution `filter_distro_owned_binaries` drops nothing; with one it drops,
-- in order, exactly the cve-bin-tool findings in a system directory that are not under /opt, and
-- keeps the other findings in order.
pub filter_distro_owned_binaries-IsSplitBy :
    (findings : List Finding) (distro : String)
    → IsSplitBy
        (λ f. not (distro == "") && is_distro_owned f)
        findings
        (filter_distro_owned_binaries findings distro)
unfolding filter_distro_owned_binaries
filter_distro_owned_binaries-IsSplitBy fs distro = elim (Bool-cases (distro == "")) [
  | inl e ↦ rw e (sym (reject-none fs), sym (select-none fs))
  | inr e ↦ rw e (drop_distro_owned-IsSplitBy distro fs)
]
