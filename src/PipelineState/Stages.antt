-- ===== src/PipelineState/Stages.antt =====
-- The operations on one stage, the end of a run, and what a later run may skip.
use el_sca_ansamble.Prelude.{
  String, Bool, true, false, not, Option, none, some, List, [], ◌∷◌, if◌then◌else◌,
}
use el_sca_ansamble.Prelude.Int.{ℤ}
use el_sca_ansamble.Prelude.Keys.{◌==◌, string_eq, contains, lookup, insert}
use el_sca_ansamble.PipelineState.State.{
  pending, active, done, error, is_done, State, Disk, Platform, Reading, Run, Info, compute_run_key,
  write_state,
}

module _ (p : Platform) where
  open p use {Time, Duration, elapsed}

  abbrev pub new_info : Info p
  new_info = record {
    status = pending;
    started_utc = none;
    started_ts = none;
    finished_utc = none;
    rc = none;
    duration_s = none;
    skipped_via_resume = false;
  }

  abbrev pub or_new : Option (Info p) → Info p
  or_new none = new_info
  or_new (some info) = info

  -- `info = _touch_stage(state, stage)`, and the writes to `info` that follow.
  unfoldable pub touch_stage :
      String → (Info p → Info p) → State Time Duration → State Time Duration
  unfolding lookup insert
  touch_stage stage change state = record state {
    stages = insert stage (change (or_new (lookup stage state.stages))) state.stages;
  }

  abbrev pub start_info : Reading Time → Info p → Info p
  start_info now info = record info {
    status = active;
    started_utc = some now.iso;
    started_ts = some now.ts;
  }

  abbrev pub end_info : Bool → Option ℤ → Reading Time → Info p → Info p
  end_info ok rc now info = record info {
    status = if ok then done else error;
    finished_utc = some now.iso;
    rc = elim rc [ none ↦ info.rc | some code ↦ some code ];
    duration_s = elim info.started_ts [
      | none ↦ info.duration_s
      | some started ↦ some (elapsed now.ts started)
    ];
  }

  abbrev pub skip_info : Info p → Info p
  skip_info info = record info {
    status = if is_done info.status then info.status else done;
    skipped_via_resume = true;
  }

  -- The common frame: load, change, persist. Without a state nothing happens.
  abbrev pub update_state :
      (State Time Duration → State Time Duration) → Disk Time Duration → Disk Time Duration
  update_state change disk = elim disk.file [
    | none ↦ disk
    | some state ↦ write_state p disk (change state)
  ]

  abbrev pub start_state : String → Reading Time → State Time Duration → State Time Duration
  start_state stage now state = record (touch_stage stage (start_info now) state) {
    current_stage = some stage;
    updated_utc = now.iso;
  }

  abbrev pub is_current : String → Option String → Bool
  is_current stage none = false
  is_current stage (some s) = s == stage

  abbrev pub end_state :
      String → Bool → Option ℤ → Reading Time → State Time Duration → State Time Duration
  end_state stage ok rc now state = record (touch_stage stage (end_info ok rc now) state) {
    current_stage = if is_current stage state.current_stage then none else state.current_stage;
    updated_utc = now.iso;
  }

  abbrev pub skip_state : String → Reading Time → State Time Duration → State Time Duration
  skip_state stage now state = record (touch_stage stage skip_info state) { updated_utc = now.iso }

  unfoldable pub stage_start : String → Reading Time → Disk Time Duration → Disk Time Duration
  unfolding touch_stage write_state
  stage_start stage now = update_state (start_state stage now)

  unfoldable pub stage_end :
      String → Bool → Option ℤ → Reading Time → Disk Time Duration → Disk Time Duration
  unfolding touch_stage write_state
  stage_end stage ok rc now = update_state (end_state stage ok rc now)

  unfoldable pub stage_skip : String → Reading Time → Disk Time Duration → Disk Time Duration
  unfolding touch_stage write_state
  stage_skip stage now = update_state (skip_state stage now)

  abbrev pub finish_state : String → Reading Time → State Time Duration → State Time Duration
  finish_state status now state = record state {
    status = status;
    current_stage = none;
    finished_utc = some now.iso;
    updated_utc = now.iso;
  }

  unfoldable pub finish_run : String → Reading Time → Disk Time Duration → Disk Time Duration
  unfolding write_state
  finish_run status now = update_state (finish_state status now)

  abbrev pub done_names : List (String × Info p) → List String
  done_names [] = []
  done_names ((name, info) ∷ stages) =
      let rest = done_names stages in if is_done info.status then name ∷ rest else rest

  unfoldable pub completed_stages : Option (State Time Duration) → List String
  completed_stages none = []
  completed_stages (some state) = done_names state.stages

  abbrev pub is_run : Option (State Time Duration) → String → Bool
  is_run none key = false
  is_run (some state) key = state.run_key == key

  -- True when the stage already completed for the same run configuration.
  unfoldable pub should_skip : String → Run → Disk Time Duration → Bool
  unfolding completed_stages compute_run_key contains
  should_skip stage run disk =
      if not (is_run disk.file (compute_run_key p run))
      then false
      else contains stage (completed_stages disk.file)
