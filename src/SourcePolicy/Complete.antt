-- ===== src/SourcePolicy/Complete.antt =====
-- resilient_updates/source_policy.py, build_sources: lemmas for the candidates that must be there.
use el_sca_ansamble.Prelude.{
  ℕ, suc, ◌+◌, ◌≡◌, refl, ap, sym, inl, inr, String, Bool, true, false, ◌&&◌, Option, none, some,
  List, [], ◌∷◌, ◌++◌, map, In, In-append_left, In-append_right, Bool-cases, if◌then◌else◌, arith,
  ◌∙◌,
}
use mathlib.Core.Path.{subst}
use el_sca_ansamble.Prelude.Keys.{==_iff, string_eq}
use el_sca_ansamble.SourcePolicy.Order.{SourceCandidate}
use el_sca_ansamble.SourcePolicy.Build.{
  RepoItem, CustomEntry, Config, is_text, custom_matches, repo_candidate, syft_from, trivy_field,
  tool_candidates, only_enabled,
}
use el_sca_ansamble.SourcePolicy.Offered.{
  IsListed, trivy_db, trivy_java_db, trivy_checks, trivy_vex, grype, cve_bin_tool, At, first, next,
  IsOffered, repository, custom, local, custom_candidate, local_candidate,
}

pub In-only_enabled :
    (s : SourceCandidate) (ss : List SourceCandidate)
    → In s ss
    → s.enabled ≡ true
    → In s (only_enabled ss)
unfolding only_enabled
In-only_enabled s [] i h = absurd i
In-only_enabled s (t ∷ ss) i h = given (λ k. In-only_enabled s ss k h) t.enabled refl i
  where
    given :
        (In s ss → In s (only_enabled ss))
        → (b : Bool) → t.enabled ≡ b
        → In s (t ∷ ss)
        → In s (if b then t ∷ only_enabled ss else only_enabled ss)
    given ih true e (inl same) = inl same
    given ih true e (inr later) = inr (ih later)
    given ih false e (inl same) =
        absurd (ground (arith, ap (λ (c : SourceCandidate). c.enabled) same))
    given ih false e (inr later) = ih later

pub In-of_only_enabled :
    (s : SourceCandidate) (ss : List SourceCandidate)
    → In s (only_enabled ss)
    → In s ss × (s.enabled ≡ true)
unfolding only_enabled
In-of_only_enabled s [] i = absurd i
In-of_only_enabled s (t ∷ ss) i = given (In-of_only_enabled s ss) t.enabled refl i
  where
    given :
        (In s (only_enabled ss) → In s ss × (s.enabled ≡ true))
        → (b : Bool) → t.enabled ≡ b
        → In s (if b then t ∷ only_enabled ss else only_enabled ss)
        → In s (t ∷ ss) × (s.enabled ≡ true)
    given ih true e (inl same) = (inl same, ap (λ (c : SourceCandidate). c.enabled) same ∙ e)
    given ih true e (inr later) = let (k, h) = ih later in (inr k, h)
    given ih false e later = let (k, h) = ih later in (inr k, h)

In-map :
    {A : Type 0} (f : A → SourceCandidate) (a : A) (xs : List A) → In a xs → In (f a) (map f xs)
In-map f a [] i = absurd i
In-map f a (x ∷ xs) (inl e) = inl (ap f e)
In-map f a (x ∷ xs) (inr i) = inr (In-map f a xs i)

module _ (config : Config) (tool layer : String) where
  is_text-some : (o : Option String) (t : String) → o ≡ some t → is_text o t ≡ true
  is_text-some none t h = cc
  is_text-some (some u) t h = ground (arith, ==_iff u t)

  In-custom_matches :
      (e : CustomEntry) (es : List CustomEntry)
      → e.tool ≡ some tool
      → e.layer ≡ some layer
      → In e es
      → In (custom_candidate tool layer e) (custom_matches tool layer es)
  unfolding custom_matches
  In-custom_matches e [] t l i = absurd i
  In-custom_matches e (f ∷ es) t l i =
      elim (Bool-cases (is_text f.tool tool && is_text f.layer layer)) [
        | inl b ↦ rw b (elim i [
          | inl same ↦ inl (ap (custom_candidate tool layer) same)
          | inr later ↦ inr (In-custom_matches e es t l later)
        ])
        | inr b ↦ rw b (elim i [
          | inl same ↦
              let p = is_text-some f.tool tool (sym (ap (λ (g : CustomEntry). g.tool) same) ∙ t) in
              let q =
                is_text-some f.layer layer (sym (ap (λ (g : CustomEntry). g.layer) same) ∙ l) in
              absurd (ground arith)
          | inr later ↦ In-custom_matches e es t l later
        ])
      ]

  listed-candidates :
      (items : List RepoItem)
      → IsListed config tool layer items
      → tool_candidates config tool layer ≡ some (map (repo_candidate tool layer) items)
  unfolding tool_candidates trivy_field
  listed-candidates items (trivy_db t l e) = rw (t, l, e) refl
  listed-candidates items (trivy_java_db t l e) = rw (t, l, e) refl
  listed-candidates items (trivy_checks t l e) = rw (t, l, e) refl
  listed-candidates items (trivy_vex t l e) = rw (t, l, e) refl
  listed-candidates items (grype t e) = rw (t, e) refl
  listed-candidates items (cve_bin_tool t e) = rw (t, e) refl

  local-candidates :
      tool ≡ "syft"
      → tool_candidates config tool layer ≡ some (syft_from 1 tool layer config.scan_sources)
  unfolding tool_candidates
  local-candidates t = rw t refl

  In-syft_from :
      (n m : ℕ) (v : String) (vs : List String)
      → At n v vs
      → In (local_candidate tool layer (n + m) v) (syft_from (suc m) tool layer vs)
  unfolding syft_from
  In-syft_from n m v vs (first w ws) =
      let e : 0 + m ≡ m = omega arith in inl (ap (λ k. local_candidate tool layer k v) e)
  In-syft_from n m v vs (next {n = k} w {vs = ws} a) =
      let e : k + suc m ≡ suc k + m = omega arith in
      inr (
        subst (λ j. In (local_candidate tool layer j v) (syft_from (suc (suc m)) tool layer ws)) e
          (In-syft_from k (suc m) v ws a))

  pub all-complete :
      (cs : List SourceCandidate) (s : SourceCandidate)
      → tool_candidates config tool layer ≡ some cs
      → IsOffered config tool layer s
      → In s (cs ++ custom_matches tool layer config.custom_entries)
  unfolding repo_candidate
  all-complete cs s h (custom e i t l same) =
      In-append_right s cs _ (rw same (In-custom_matches e config.custom_entries t l i))
  all-complete cs s h (repository {items = items} i listed k same) = In-append_left s cs _ (
      rw (same, some-inj (sym h ∙ listed-candidates items listed))
        (In-map (repo_candidate tool layer) i items k))
    where
      some-inj : {ds : List SourceCandidate} → some cs ≡ some ds → cs ≡ ds
      some-inj e = ground arith
  all-complete cs s h (local n v t a same) =
      let e : n + 0 ≡ n = omega arith in
      In-append_left s cs _ (
        rw (same, some-inj (sym h ∙ local-candidates t))
          (subst
            (λ j. In (local_candidate tool layer j v) (syft_from 1 tool layer config.scan_sources))
            e (In-syft_from n 0 v config.scan_sources a)))
    where
      some-inj : {ds : List SourceCandidate} → some cs ≡ some ds → cs ≡ ds
      some-inj e = ground arith
