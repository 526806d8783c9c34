-- ===== src/SourcePolicy/Build.antt =====
-- `_custom_matches` and `build_sources`.
use Prim.Native.String.{◌++◌ as str_append}
use el_sca_ansamble.Prelude.{
  ℕ, suc, ◌*◌, String, Bool, true, false, ◌&&◌, Option, none, some, List, [], ◌∷◌, ◌++◌, map,
  if◌then◌else◌,
}
use el_sca_ansamble.Prelude.Int.{ℤ, pos}
use el_sca_ansamble.Prelude.Keys.{◌==◌, string_eq}
use el_sca_ansamble.Prelude.Sort.{sort}
use el_sca_ansamble.SourcePolicy.Order.{SourceCandidate, source_less, clashing}

-- An entry of `db_repositories`, `upstream_update_urls`, `mirrors` and the like.
pub record RepoItem : Type 0 where
  pub priority : ℤ
  pub name : String
  pub url : String
  pub enabled : Option Bool
  pub trust_level : Option String

-- An entry of `custom_sources.entries`.
pub record CustomEntry : Type 0 where
  pub tool : Option String
  pub layer : Option String
  pub priority : ℤ
  pub name : String
  pub url : String
  pub enabled : Option Bool
  pub auth_env : Option String
  pub trust_level : Option String
  pub notes : Option String

pub record TrivySection : Type 0 where
  pub db_repositories : List RepoItem
  pub java_db_repositories : List RepoItem
  pub checks_bundle_repositories : List RepoItem
  pub vex_repositories : List RepoItem

pub record Config : Type 0 where
  pub custom_entries : List CustomEntry
  pub trivy : TrivySection
  pub upstream_update_urls : List RepoItem
  pub mirrors : List RepoItem
  pub scan_sources : List String

-- `d.get(key, default)`
abbrev pub get_or {ℓ} : {A : Type ℓ} → A → Option A → A
get_or d none = d
get_or d (some a) = a

-- `d.get(key) == text`
abbrev pub is_text : Option String → String → Bool
is_text none t = false
is_text (some s) t = s == t

unfoldable pub custom_matches : String → String → List CustomEntry → List SourceCandidate
custom_matches tool layer [] = []
custom_matches tool layer (entry ∷ entries) =
    let rest = custom_matches tool layer entries in
    if is_text entry.tool tool && is_text entry.layer layer
    then record {
      priority = entry.priority;
      name = entry.name;
      url = entry.url;
      tool = tool;
      layer = layer;
      enabled = get_or true entry.enabled;
      auth_env = entry.auth_env;
      trust_level = get_or "custom" entry.trust_level;
      notes = get_or "" entry.notes;
    }
      ∷ rest
    else rest

unfoldable pub repo_candidate : String → String → RepoItem → SourceCandidate
repo_candidate tool layer item = record {
  priority = item.priority;
  name = item.name;
  url = item.url;
  tool = tool;
  layer = layer;
  enabled = get_or true item.enabled;
  auth_env = none;
  trust_level = get_or "official" item.trust_level;
  notes = "";
}

-- `enumerate(scan_sources, start=idx)`
unfoldable pub syft_from : ℕ → String → String → List String → List SourceCandidate
syft_from idx tool layer [] = []
syft_from idx tool layer (value ∷ values) =
    record {
      priority = pos (idx * 10);
      name = str_append "syft-" value;
      url = value;
      tool = tool;
      layer = layer;
      enabled = true;
      auth_env = none;
      trust_level = "local";
      notes = "";
    }
    ∷ syft_from (suc idx) tool layer values

-- `mapping[layer]`: an unknown layer is a KeyError.
unfoldable pub trivy_field : String → TrivySection → Option (List RepoItem)
trivy_field layer trivy =
    if layer == "trivy-db"
    then some trivy.db_repositories
    else if layer == "trivy-java-db"
    then some trivy.java_db_repositories
    else if layer == "trivy-checks"
    then some trivy.checks_bundle_repositories
    else if layer == "trivy-vex"
    then some trivy.vex_repositories
    else none

abbrev pub candidates_of : String → String → Option (List RepoItem) → Option (List SourceCandidate)
candidates_of tool layer none = none
candidates_of tool layer (some items) = some (map (repo_candidate tool layer) items)

-- The branches on the tool.
unfoldable pub tool_candidates : Config → String → String → Option (List SourceCandidate)
unfolding trivy_field repo_candidate syft_from
tool_candidates config tool layer =
    if tool == "trivy"
    then candidates_of tool layer (trivy_field layer config.trivy)
    else if tool == "grype"
    then candidates_of tool layer (some config.upstream_update_urls)
    else if tool == "cve_bin_tool"
    then candidates_of tool layer (some config.mirrors)
    else if tool == "syft"
    then some (syft_from 1 tool layer config.scan_sources)
    else some []

unfoldable pub only_enabled : List SourceCandidate → List SourceCandidate
only_enabled [] = []
only_enabled (s ∷ ss) = let rest = only_enabled ss in if s.enabled then s ∷ rest else rest

-- `sorted`, with `none` for a TypeError
abbrev pub sorted_sources : List SourceCandidate → Option (List SourceCandidate)
sorted_sources ss = if clashing ss then none else some (sort source_less ss)

-- The last lines: the custom entries join, the disabled ones go, and what is left is sorted.
abbrev pub ranked :
    String
    → String
    → List CustomEntry
    → Option (List SourceCandidate)
    → Option (List SourceCandidate)
ranked tool layer entries none = none
ranked tool layer entries (some cs) =
    sorted_sources (only_enabled (cs ++ custom_matches tool layer entries))

-- `none` is an exception: the KeyError of `mapping[layer]`, or the TypeError of `sorted`.
unfoldable pub build_sources : Config → String → String → Option (List SourceCandidate)
unfolding tool_candidates custom_matches only_enabled sort source_less clashing
build_sources config tool layer =
    ranked tool layer config.custom_entries (tool_candidates config tool layer)
