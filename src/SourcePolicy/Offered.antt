-- ===== src/SourcePolicy/Offered.antt =====
-- resilient_updates/source_policy.py: what a configuration offers for a tool and a layer, described by
-- the entries that it comes from.
use Prim.Native.String.{◌++◌ as str_append}
use el_sca_ansamble.Prelude.{
  ℕ, suc, ◌+◌, ◌*◌, ◌≡◌, refl, ap, inl, inr, String, Bool, true, false, ◌&&◌, Option, none, some,
  List, [], ◌∷◌, ◌++◌, map, In, In-of_append, Bool-cases, if◌then◌else◌, arith,
}
use mathlib.Core.Path.{subst}
use el_sca_ansamble.Prelude.Int.{pos}
use el_sca_ansamble.Prelude.Keys.{◌==◌, ==_iff, string_eq}
use el_sca_ansamble.SourcePolicy.Order.{SourceCandidate}
use el_sca_ansamble.SourcePolicy.Build.{
  RepoItem, CustomEntry, Config, get_or, is_text, custom_matches, repo_candidate, syft_from,
  trivy_field, tool_candidates, candidates_of,
}

-- The repository lists of a tool and layer.
pub data IsListed (config : Config) (tool layer : String) (items : List RepoItem) : Type 0 where
  trivy_db :
      tool ≡ "trivy"
      → layer ≡ "trivy-db"
      → items ≡ config.trivy.db_repositories
      → IsListed config tool layer items
  trivy_java_db :
      tool ≡ "trivy"
      → layer ≡ "trivy-java-db"
      → items ≡ config.trivy.java_db_repositories
      → IsListed config tool layer items
  trivy_checks :
      tool ≡ "trivy"
      → layer ≡ "trivy-checks"
      → items ≡ config.trivy.checks_bundle_repositories
      → IsListed config tool layer items
  trivy_vex :
      tool ≡ "trivy"
      → layer ≡ "trivy-vex"
      → items ≡ config.trivy.vex_repositories
      → IsListed config tool layer items
  grype : tool ≡ "grype" → items ≡ config.upstream_update_urls → IsListed config tool layer items
  cve_bin_tool : tool ≡ "cve_bin_tool" → items ≡ config.mirrors → IsListed config tool layer items

-- A text stands at a position of a list.
pub data At : ℕ → String → List String → Type 0 where
  first : (v : String) (vs : List String) → At 0 v (v ∷ vs)
  next : {n : ℕ} {v : String} (w : String) {vs : List String} → At n v vs → At (suc n) v (w ∷ vs)

-- The candidates that an entry of a repository list, a custom entry and a local source ask for.
module _ (tool layer : String) where
  abbrev pub repository_candidate : RepoItem → SourceCandidate
  repository_candidate i = record {
    priority = i.priority;
    name = i.name;
    url = i.url;
    tool = tool;
    layer = layer;
    enabled = get_or true i.enabled;
    auth_env = none;
    trust_level = get_or "official" i.trust_level;
    notes = "";
  }

  abbrev pub custom_candidate : CustomEntry → SourceCandidate
  custom_candidate e = record {
    priority = e.priority;
    name = e.name;
    url = e.url;
    tool = tool;
    layer = layer;
    enabled = get_or true e.enabled;
    auth_env = e.auth_env;
    trust_level = get_or "custom" e.trust_level;
    notes = get_or "" e.notes;
  }

  abbrev pub local_candidate : ℕ → String → SourceCandidate
  local_candidate n v = record {
    priority = pos (suc n * 10);
    name = str_append "syft-" v;
    url = v;
    tool = tool;
    layer = layer;
    enabled = true;
    auth_env = none;
    trust_level = "local";
    notes = "";
  }

-- A property of an optional result, where there is one.
abbrev pub Each : {A : Type 0} → (A → Type 0) → Option A → Type 0
Each P none = Unit
Each P (some a) = P a

Each-if :
    {A : Type 0} (P : A → Type 0) (b : Bool) (x y : Option A)
    → (b ≡ true → Each P x)
    → Each P y
    → Each P (if b then x else y)
Each-if P true x y h k = h refl
Each-if P false x y h k = k

module _ (config : Config) (tool layer : String) where
  -- Where a candidate comes from: an entry of a repository list, a custom entry that names the tool
  -- and the layer, or a local source of syft.
  pub data IsOffered (s : SourceCandidate) : Type 0 where
    repository :
        {items : List RepoItem} (i : RepoItem)
        → IsListed config tool layer items
        → In i items
        → s ≡ repository_candidate tool layer i
        → IsOffered s
    custom :
        (e : CustomEntry)
        → In e config.custom_entries
        → e.tool ≡ some tool
        → e.layer ≡ some layer
        → s ≡ custom_candidate tool layer e
        → IsOffered s
    local :
        (n : ℕ) (v : String)
        → tool ≡ "syft"
        → At n v config.scan_sources
        → s ≡ local_candidate tool layer n v
        → IsOffered s

  -- Every element of the list is offered.
  abbrev Sound : List SourceCandidate → Type 0
  Sound ss = (s : SourceCandidate) → In s ss → IsOffered s

  module _ (o : Option String) (t : String) where
    is_text-named : is_text o t ≡ true → o ≡ some t
    is_text-named = go o
      where
        go : (o : Option String) → is_text o t ≡ true → o ≡ some t
        go none h = cc
        go (some u) h = ap some ((==_iff u t).0 h)

  custom-Sound :
      (es : List CustomEntry)
      → ((e : CustomEntry) → In e es → In e config.custom_entries)
      → Sound (custom_matches tool layer es)
  unfolding custom_matches
  custom-Sound [] sub = λ s i. absurd i
  custom-Sound (e ∷ es) sub = elim (Bool-cases (is_text e.tool tool && is_text e.layer layer)) [
    | inl b ↦ rw b (λ s i. elim i [
      | inl same ↦
          custom e (sub e (inl refl)) (is_text-named e.tool tool (ground arith))
            (is_text-named e.layer layer (ground arith)) same
      | inr later ↦ custom-Sound es (λ f k. sub f (inr k)) s later
    ])
    | inr b ↦ rw b (custom-Sound es (λ f k. sub f (inr k)))
  ]

  items-Sound :
      (items : List RepoItem)
      → IsListed config tool layer items
      → (is : List RepoItem) → ((i : RepoItem) → In i is → In i items)
      → Sound (map (repo_candidate tool layer) is)
  unfolding repo_candidate
  items-Sound items l [] sub = λ s k. absurd k
  items-Sound items l (i ∷ is) sub = λ s k. elim k [
    | inl same ↦ repository i l (sub i (inl refl)) same
    | inr later ↦ items-Sound items l is (λ j m. sub j (inr m)) s later
  ]

  syft-Sound :
      tool ≡ "syft"
      → (m : ℕ) (vs : List String)
      → ((k : ℕ) (v : String) → At k v vs → At (k + m) v config.scan_sources)
      → Sound (syft_from (suc m) tool layer vs)
  unfolding syft_from
  syft-Sound e m [] sub = λ s k. absurd k
  syft-Sound e m (v ∷ vs) sub = λ s k. elim k [
    | inl same ↦
        let here : 0 + m ≡ m = omega arith in
        local m v e (subst (λ n. At n v config.scan_sources) here (sub 0 v (first v vs))) same
    | inr later ↦
        syft-Sound e (suc m) vs
          (λ k w a.
            let moved : suc k + m ≡ k + suc m = omega arith in
            subst (λ n. At n w config.scan_sources) moved (sub (suc k) w (next v a)))
          s later
  ]

  listed-Sound :
      (o : Option (List RepoItem))
      → Each (IsListed config tool layer) o
      → Each Sound (candidates_of tool layer o)
  listed-Sound none h = tt
  listed-Sound (some items) h = items-Sound items h items (λ i k. k)

  trivy_field-IsListed :
      tool ≡ "trivy" → Each (IsListed config tool layer) (trivy_field layer config.trivy)
  unfolding trivy_field
  trivy_field-IsListed e =
      Each-if (IsListed config tool layer) (layer == "trivy-db") _ _
        (λ b. trivy_db e ((==_iff layer "trivy-db").0 b) refl)
        (Each-if (IsListed config tool layer) (layer == "trivy-java-db") _ _
          (λ b. trivy_java_db e ((==_iff layer "trivy-java-db").0 b) refl)
          (Each-if (IsListed config tool layer) (layer == "trivy-checks") _ _
            (λ b. trivy_checks e ((==_iff layer "trivy-checks").0 b) refl)
            (Each-if (IsListed config tool layer) (layer == "trivy-vex")
              (some config.trivy.vex_repositories) none
              (λ b. trivy_vex e ((==_iff layer "trivy-vex").0 b) refl) tt)))

  pub tool_candidates-Sound : Each Sound (tool_candidates config tool layer)
  unfolding tool_candidates
  tool_candidates-Sound =
      Each-if Sound (tool == "trivy") _ _
        (λ b.
          listed-Sound (trivy_field layer config.trivy)
            (trivy_field-IsListed ((==_iff tool "trivy").0 b)))
        (Each-if Sound (tool == "grype") _ _
          (λ b.
            listed-Sound (some config.upstream_update_urls)
              (grype ((==_iff tool "grype").0 b) refl))
          (Each-if Sound (tool == "cve_bin_tool") _ _
            (λ b.
              listed-Sound (some config.mirrors)
                (cve_bin_tool ((==_iff tool "cve_bin_tool").0 b) refl))
            (Each-if Sound (tool == "syft") _ _
              (λ b. syft-Sound ((==_iff tool "syft").0 b) 0 config.scan_sources (λ k v a.
                let same : k ≡ k + 0 = omega arith in
                subst (λ n. At n v config.scan_sources) same a))
              (λ s i. absurd i))))

  -- The candidates of a tool's own section and the custom entries, all of them offered.
  pub all-Sound :
      (cs : List SourceCandidate)
      → tool_candidates config tool layer ≡ some cs
      → Sound (cs ++ custom_matches tool layer config.custom_entries)
  all-Sound cs e s i =
      elim (In-of_append s cs (custom_matches tool layer config.custom_entries) i) [
        | inl k ↦ subst (Each Sound) e tool_candidates-Sound s k
        | inr k ↦ custom-Sound config.custom_entries (λ f m. m) s k
      ]
