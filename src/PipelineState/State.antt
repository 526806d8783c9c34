-- ===== src/PipelineState/State.antt =====
-- The state file and its operations. A file that cannot be read as such a state counts as absent.
-- The clock, `os.path.normcase` and the truncated SHA-256 are parameters; the readings of the clock
-- within one operation are one instant.
use Prim.Native.Char.{nul}
use Prim.Native.String.{◌++◌ as str_append}
use text.Mathlib.Text.{is_lt}
use Prim.Native.String.{compare}
use el_sca_ansamble.Prelude.{
  ℕ, String, Bool, true, false, ◌&&◌, Option, none, some, List, [], ◌∷◌, if◌then◌else◌,
}
use el_sca_ansamble.Prelude.Int.{ℤ}
use el_sca_ansamble.Prelude.Sort.{sort}
use el_sca_ansamble.Prelude.Keys.{◌==◌, nat_eq, string_eq}

pub data Status : Type 0 where
  pending active done error : Status

abbrev pub is_done : Status → Bool
is_done done = true
is_done _ = false

abbrev pub is_active : Status → Bool
is_active active = true
is_active _ = false

pub record StageInfo (Time Duration : Type 0) : Type 0 where
  pub status : Status
  pub started_utc : Option String
  pub started_ts : Option Time
  pub finished_utc : Option String
  pub rc : Option ℤ
  pub duration_s : Option Duration
  pub skipped_via_resume : Bool

pub record State (Time Duration : Type 0) : Type 0 where
  pub schema_version : ℕ
  pub run_key : String
  pub target : String
  pub tool : String
  pub case_id : String
  pub extra : String
  pub status : String
  pub resumed : Bool
  pub started_utc : String
  pub started_ts : Time
  pub updated_utc : String
  pub finished_utc : Option String
  pub current_stage : Option String
  pub stages : List (String × StageInfo Time Duration)

-- The artifacts directory: its state file, and whether a write would succeed.
pub record Disk (Time Duration : Type 0) : Type 0 where
  pub file : Option (State Time Duration)
  pub writable : Bool

abbrev pub schema_version_now : ℕ
schema_version_now = 1

abbrev pub known_stages : List String
known_stages = "extract" ∷ "sbom" ∷ "grype" ∷ "trivy" ∷ "cve-bin-tool" ∷ "report" ∷ []

-- `s or default`
abbrev pub or_text : String → String → String
or_text s default = if s == "" then default else s

-- What the module takes from its surroundings.
pub record Platform : Type 1 where
  pub Time : Type 0
  pub Duration : Type 0
  pub elapsed : Time → Time → Duration
  pub normcase : String → String
  pub digest : String → String

pub record Reading (Time : Type 0) : Type 0 where
  pub iso : String
  pub ts : Time

pub record Run : Type 0 where
  pub target : String
  pub tool : String
  pub extra : String

module _ (p : Platform) where
  open p use {Time, Duration, elapsed, normcase, digest}

  abbrev pub Info : Type 0
  Info = StageInfo Time Duration

  abbrev pub separated : String → String → String
  separated a b = str_append a (String.◌∷◌ nul b)

  unfoldable pub blob : Run → String
  blob run = separated (normcase run.target) (separated (or_text run.tool "all") run.extra)

  unfoldable pub compute_run_key : Run → String
  unfolding blob
  compute_run_key run = digest (blob run)

  abbrev name_less : String × Info → String × Info → Bool
  name_less a b = is_lt (compare a.0 b.0)

  -- What reading the file back gives: it is written with its keys in alphabetical order.
  abbrev pub dumped : State Time Duration → State Time Duration
  dumped state = record state { stages = sort name_less state.stages }

  unfoldable pub write_state : Disk Time Duration → State Time Duration → Disk Time Duration
  write_state disk state =
      if disk.writable then record disk { file = some (dumped state) } else disk

  -- Only "done" survives a resume.
  abbrev pub requeue : List (String × Info) → List (String × Info)
  requeue [] = []
  requeue ((name, info) ∷ stages) =
      (name, if is_done info.status then info else record info { status = pending })
      ∷ requeue stages

  abbrev pub fresh : Run → Reading Time → State Time Duration
  fresh run now = record {
    schema_version = schema_version_now;
    run_key = compute_run_key run;
    target = run.target;
    tool = or_text run.tool "all";
    case_id = "";
    extra = run.extra;
    status = "running";
    resumed = false;
    started_utc = now.iso;
    started_ts = now.ts;
    updated_utc = now.iso;
    finished_utc = none;
    current_stage = none;
    stages = [];
  }

  abbrev pub resumes : String → State Time Duration → Bool
  resumes run_key prev = prev.run_key == run_key && prev.schema_version == schema_version_now

  -- `prev` is the state on disk where a resume was asked for.
  unfoldable pub next_state :
      Option (State Time Duration) → Run → Reading Time → State Time Duration
  unfolding compute_run_key
  next_state none run now = fresh run now
  next_state (some prev) run now =
      if resumes (compute_run_key run) prev
      then record prev {
        resumed = true;
        status = "running";
        updated_utc = now.iso;
        stages = requeue prev.stages;
      }
      else fresh run now

  abbrev pub with_case : String → State Time Duration → State Time Duration
  with_case case_id state = if case_id == "" then state else record state { case_id = case_id }

  -- An absent `case_id` is the empty one.
  unfoldable pub begin_run :
      Run
      → String
      → Bool
      → Reading Time
      → Disk Time Duration
      → State Time Duration × Disk Time Duration
  unfolding next_state write_state
  begin_run run case_id resume now disk =
      let prev = if resume then disk.file else none in
      let state = with_case case_id (next_state prev run now) in (state, write_state disk state)
