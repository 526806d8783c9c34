-- ===== src/Tests/Pipelines.antt =====
-- The state file of a run whose second stage failed, and a run of another target.
use mathlib.Core.List.{foldl}
use el_sca_ansamble.Prelude.{ℕ, ◌-◌, ◌≡◌, refl, true, false, none, some, List, [], ◌∷◌, All}
use el_sca_ansamble.Prelude.Int.{pos}
use el_sca_ansamble.Prelude.Keys.{==_iff, string_eq, contains}
use el_sca_ansamble.PipelineState.State.{
  Status, done, error, StageInfo, State, Disk, Platform, Reading, Run, compute_run_key, begin_run,
  schema_version_now,
}
use el_sca_ansamble.PipelineState.Stages.{completed_stages, should_skip}
use el_sca_ansamble.PipelineState.Checkpoint.{
  Event, started, ended, apply, completed_after, Holds, should_skip-apply,
}
use el_sca_ansamble.PipelineState.Resume.{IsRested, begin_run-resumes, begin_run-completed}
use el_sca_ansamble.PipelineState.RunKey.{SameRun, IsPlain, compute_run_key-inj, begin_run-other}

abbrev platform : Platform
platform = record {
  Time = ℕ;
  Duration = ℕ;
  elapsed = λ a b. b - a;
  normcase = λ s. s;
  digest = λ s. s;
}

abbrev scan : Run
scan = record { target = "/app"; tool = "all"; extra = "" }

abbrev other_scan : Run
other_scan = record { target = "/lib"; tool = "all"; extra = "" }

abbrev now : Reading ℕ
now = record { iso = "12:00"; ts = 50 }

abbrev stage_info : Status → StageInfo ℕ ℕ
stage_info status = record {
  status = status;
  started_utc = none;
  started_ts = none;
  finished_utc = none;
  rc = none;
  duration_s = none;
  skipped_via_resume = false;
}

abbrev stored : State ℕ ℕ
stored = record {
  schema_version = 1;
  run_key = compute_run_key platform scan;
  target = "/app";
  tool = "all";
  case_id = "";
  extra = "";
  status = "error";
  resumed = false;
  started_utc = "11:00";
  started_ts = 10;
  updated_utc = "11:30";
  finished_utc = none;
  current_stage = some "sbom";
  stages = ("extract", stage_info done) ∷ ("sbom", stage_info error) ∷ [];
}

abbrev disk : Disk ℕ ℕ
disk = record { file = some stored; writable = true }

abbrev events : List (Event platform)
events = started "sbom" now ∷ ended "sbom" true (some (pos 0)) now ∷ started "grype" now ∷ []

disk-Holds : Holds platform (compute_run_key platform scan) disk stored
unfolding contains
disk-Holds = record { stored = refl; accepts = refl; run_key = refl; distinct = (refl, (refl, tt)) }

should_skip-apply_example :
    should_skip platform "sbom" scan (foldl (apply platform) disk events)
    ≡ foldl (completed_after platform "sbom") (should_skip platform "sbom" scan disk) events
should_skip-apply_example = should_skip-apply platform "sbom" scan events disk-Holds

begin_run-resumes_example :
    (completed_stages platform (some (begin_run platform scan "c1" true now disk).0)
      ≡ completed_stages platform (some stored))
    × All (IsRested platform) (begin_run platform scan "c1" true now disk).0.stages
begin_run-resumes_example = begin_run-resumes platform scan "c1" now disk refl refl refl

extract_kept :
    contains "extract"
      (completed_stages platform (some (begin_run platform scan "c1" true now disk).0))
    ≡ true
unfolding contains completed_stages begin_run compute_run_key
extract_kept = refl

begin_run-completed_example :
    (prev : State ℕ ℕ) × (disk.file ≡ some prev)
    × (true ≡ true)
    × (prev.run_key ≡ compute_run_key platform scan)
    × (prev.schema_version ≡ schema_version_now)
    × (contains "extract" (completed_stages platform (some prev)) ≡ true)
begin_run-completed_example =
    begin_run-completed platform scan "c1" now disk true "extract" extract_kept

scan-IsPlain : IsPlain platform scan
scan-IsPlain = record {
  target =
      ((λ e. absurd (cc)), ((λ e. absurd (cc)), ((λ e. absurd (cc)), ((λ e. absurd (cc)), tt))));
  tool = ((λ e. absurd (cc)), ((λ e. absurd (cc)), ((λ e. absurd (cc)), tt)));
}

other-IsPlain : IsPlain platform other_scan
other-IsPlain = record {
  target =
      ((λ e. absurd (cc)), ((λ e. absurd (cc)), ((λ e. absurd (cc)), ((λ e. absurd (cc)), tt))));
  tool = ((λ e. absurd (cc)), ((λ e. absurd (cc)), ((λ e. absurd (cc)), tt)));
}

compute_run_key-inj_example : SameRun platform scan scan
compute_run_key-inj_example =
    compute_run_key-inj platform scan scan (λ e. e) scan-IsPlain scan-IsPlain refl

different : ¬ SameRun platform scan other_scan
different same = distinguished ((==_iff "/app" "/lib").1 same.target)
  where
    distinguished : false ≡ true → ⊥
    distinguished e = cc

begin_run-other_example :
    contains "extract"
      (completed_stages platform (some (begin_run platform other_scan "c1" true now disk).0))
    ≡ false
begin_run-other_example =
    begin_run-other platform other_scan scan "c1" true now disk refl refl (λ e. e) other-IsPlain
      scan-IsPlain different "extract"
