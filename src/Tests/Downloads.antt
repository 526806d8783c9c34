-- ===== src/Tests/Downloads.antt =====
-- Two sources, the first of which answers 503 and times out, and the list that names them.
use el_sca_ansamble.Prelude.{
  if◌then◌else◌, ℕ, suc, ◌*◌, ◌≤◌, String, Bool, ◌≡◌, refl, true, Option, none, some, List, [], ◌∷◌,
  map, any,
}
use el_sca_ansamble.Prelude.Keys.{◌==◌, nat_eq, string_eq}
use el_sca_ansamble.Prelude.Int.{ℤ, pos}
use el_sca_ansamble.SourcePolicy.Order.{SourceCandidate}
use el_sca_ansamble.SourcePolicy.Build.{RepoItem, CustomEntry, Config, build_sources}
use el_sca_ansamble.SourcePolicy.Priority.{IsRanking, build_sources-Sorted}
use el_sca_ansamble.Fallback.Attempt.{Fetched, response, Selection, attempt_sources, rule_of}
use el_sca_ansamble.Fallback.Trace.{Trace, attempt_sources-Trace}
use el_sca_ansamble.Fallback.Outcome.{
  tally, sources_of, IsConsistent, attempt_sources-IsConsistent, attempt_sources-length,
  attempt_sources-exhausted,
}

abbrev mirror : ℤ → String → SourceCandidate
mirror priority name = record {
  priority = priority;
  name = name;
  url = name;
  tool = "grype";
  layer = "db";
  enabled = true;
  auth_env = none;
  trust_level = "mirror";
  notes = "";
}

abbrev sources : List SourceCandidate
sources = mirror (pos 1) "a" ∷ mirror (pos 2) "b" ∷ []

-- The third call of the downloader succeeds.
abbrev answer : ℕ → Fetched
answer calls = if calls == 2 then response 200 (1 ∷ []) else response 503 []

abbrev downloader : String → ℕ → Option ℕ → ℕ → Fetched × ℕ
downloader url timeout session calls = (answer calls, suc calls)

abbrev always_busy : String → ℕ → Option ℕ → ℕ → Fetched × ℕ
always_busy url timeout session calls = (response 503 [], suc calls)

abbrev sleep : ℕ → ℕ → ℕ
sleep seconds calls = calls

abbrev codes : List ℕ
codes = 503 ∷ []

abbrev no_session : Option ℕ
no_session = none

abbrev outcome : Selection ℕ
outcome = attempt_sources downloader sleep sources 30 1 2 codes no_session none 0

abbrev busy : Selection ℕ
busy = attempt_sources always_busy sleep sources 30 1 2 codes no_session none 0

attempt_sources-Trace_example :
    Trace (rule_of 1 codes none) sources outcome.attempts outcome.source outcome.payload
attempt_sources-Trace_example =
    attempt_sources-Trace downloader sleep sources 30 1 2 codes no_session none 0

attempt_sources-IsConsistent_example : IsConsistent outcome.attempts outcome.source outcome.payload
attempt_sources-IsConsistent_example =
    attempt_sources-IsConsistent downloader sleep sources 30 1 2 codes no_session none 0

abbrev is_a : SourceCandidate → Bool
is_a s = s.name == "a"

attempt_sources-length_example :
    tally is_a (sources_of outcome.attempts) ≤ tally is_a sources * suc 1
attempt_sources-length_example =
    attempt_sources-length downloader sleep sources 30 1 2 codes no_session none 0 is_a

busy_source : busy.source ≡ none
unfolding attempt_sources
busy_source = refl

attempt_sources-exhausted_example : tally is_a sources ≤ tally is_a (sources_of busy.attempts)
attempt_sources-exhausted_example =
    attempt_sources-exhausted always_busy sleep sources 30 1 2 codes no_session none 0 is_a
      busy_source

abbrev repository : ℤ → String → RepoItem
repository priority name = record {
  priority = priority;
  name = name;
  url = name;
  enabled = none;
  trust_level = none;
}

abbrev entry : String → String → Option String → CustomEntry
entry layer name auth_env = record {
  tool = some "trivy";
  layer = some layer;
  priority = pos 15;
  name = name;
  url = name;
  enabled = none;
  auth_env = auth_env;
  trust_level = none;
  notes = none;
}

abbrev config_with : List CustomEntry → Config
config_with entries = record {
  custom_entries = entries;
  trivy = record {
    db_repositories = repository (pos 20) "late" ∷ repository (pos 10) "early" ∷ [];
    java_db_repositories = [];
    checks_bundle_repositories = [];
    vex_repositories = [];
  };
  upstream_update_urls = [];
  mirrors = [];
  scan_sources = [];
}

-- Only the first custom entry is for the layer.
abbrev config : Config
config = config_with (entry "trivy-db" "own" none ∷ entry "trivy-vex" "other" none ∷ [])

abbrev built : List SourceCandidate
built = elim (build_sources config "trivy" "trivy-db") [ none ↦ [] | some ss ↦ ss ]

build_sources-built : build_sources config "trivy" "trivy-db" ≡ some built
unfolding build_sources any
build_sources-built = refl

build_sources-names : map (λ (s : SourceCandidate). s.name) built ≡ "early" ∷ "own" ∷ "late" ∷ []
unfolding build_sources any
build_sources-names = refl

-- Two entries that differ in `auth_env` alone cannot be sorted.
build_sources-raises :
    build_sources
      (config_with (entry "trivy-db" "own" none ∷ entry "trivy-db" "own" (some "TOKEN") ∷ []))
      "trivy"
      "trivy-db"
    ≡ none
unfolding build_sources any
build_sources-raises = refl

build_sources-Sorted_example : IsRanking config "trivy" "trivy-db" built
build_sources-Sorted_example = build_sources-Sorted config "trivy" "trivy-db" build_sources-built
