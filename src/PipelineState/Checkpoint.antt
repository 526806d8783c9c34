-- ===== src/PipelineState/Checkpoint.antt =====
-- What the state file says after any sequence of stage events.
use mathlib.Core.List.{foldl}
use el_sca_ansamble.Prelude.{
  String, Bool, true, false, ◌≡◌, refl, sym, ap, ◌∙◌, Option, none, some, List, [], ◌∷◌, arith,
  if◌then◌else◌,
}
use el_sca_ansamble.Prelude.Int.{ℤ}
use el_sca_ansamble.Prelude.Keys.{
  ◌==◌, string_eq, ==_iff, contains, lookup, Distinct, lookup-insert, insert-Distinct,
  lookup_of_absent,
}
use el_sca_ansamble.PipelineState.State.{
  is_done, State, Disk, Platform, Reading, Run, Info, compute_run_key, dumped, write_state,
}
use el_sca_ansamble.PipelineState.Stages.{
  or_new, touch_stage, start_info, end_info, skip_info, start_state, end_state, skip_state,
  finish_state, update_state, stage_start, stage_end, stage_skip, finish_run, done_names,
  should_skip,
}
use el_sca_ansamble.PipelineState.Order.{sort-Distinct, contains-done_names-sort}

module _ (p : Platform) where
  open p use {Time, Duration}

  pub data Event : Type 0 where
    started : String → Reading Time → Event
    ended : String → Bool → Option ℤ → Reading Time → Event
    skipped : String → Reading Time → Event
    finished : String → Reading Time → Event

  unfoldable pub apply : Disk Time Duration → Event → Disk Time Duration
  apply disk (started stage now) = stage_start p stage now disk
  apply disk (ended stage ok rc now) = stage_end p stage ok rc now disk
  apply disk (skipped stage now) = stage_skip p stage now disk
  apply disk (finished status now) = finish_run p status now disk

  -- Whether a stage counts as completed, by the last event that is about it.
  abbrev pub completed_after : String → Bool → Event → Bool
  completed_after s before (started stage now) = if stage == s then false else before
  completed_after s before (ended stage ok rc now) = if stage == s then ok else before
  completed_after s before (skipped stage now) = if stage == s then true else before
  completed_after s before (finished status now) = before

  -- A disk that accepts writes and holds a state of the given run.
  pub record Holds (key : String) (disk : Disk Time Duration) (state : State Time Duration)
      : Type 0 where
    pub stored : disk.file ≡ some state
    pub accepts : disk.writable ≡ true
    pub run_key : state.run_key ≡ key
    pub distinct : Distinct state.stages

  abbrev is_done_at : Option (Info p) → Bool
  is_done_at none = false
  is_done_at (some info) = is_done info.status

  contains-done_names :
      (s : String) (d : List (String × Info p))
      → Distinct d
      → contains s (done_names p d) ≡ is_done_at (lookup s d)
  unfolding contains lookup
  contains-done_names s [] h = refl
  contains-done_names s ((i, w) ∷ d) h =
      ground (arith, ==_iff s i, ==_iff i s, contains-done_names s d h.1, lookup_of_absent i d h.0)

  module _ (stage : String) (change : Info p → Info p) (state : State Time Duration)
      (distinct : Distinct state.stages) where
    abbrev touched : State Time Duration
    touched = touch_stage p stage change state

    touch_stage-Distinct : Distinct touched.stages
    unfolding touch_stage
    touch_stage-Distinct = insert-Distinct stage _ state.stages distinct

    contains-touch_stage :
        (s : String)
        → contains s (done_names p touched.stages) ≡ (
            if stage == s
            then is_done (change (or_new p (lookup stage state.stages))).status
            else contains s (done_names p state.stages))
    unfolding touch_stage
    contains-touch_stage s = ground (
      arith,
      contains-done_names s touched.stages touch_stage-Distinct,
      contains-done_names s state.stages distinct,
      lookup-insert stage s (change (or_new p (lookup stage state.stages))) state.stages,
    )

  update_state-Holds :
      {key : String} (disk : Disk Time Duration) {state : State Time Duration}
      (change : State Time Duration → State Time Duration)
      → Holds key disk state
      → (change state).run_key ≡ state.run_key
      → Distinct (change state).stages
      → Holds key (update_state p change disk) (dumped p (change state))
  unfolding write_state
  update_state-Holds disk {state} change h same distinct = rw h.stored (
      rw h.accepts (record {
        stored = refl;
        accepts = refl;
        run_key = same ∙ h.run_key;
        distinct = sort-Distinct p _ (change state).stages distinct;
      }))

  abbrev changed : Event → State Time Duration → State Time Duration
  changed (started stage now) = start_state p stage now
  changed (ended stage ok rc now) = end_state p stage ok rc now
  changed (skipped stage now) = skip_state p stage now
  changed (finished status now) = finish_state p status now

  apply-Holds :
      {key : String} (disk : Disk Time Duration) {state : State Time Duration} (e : Event)
      → Holds key disk state
      → Holds key (apply disk e) (dumped p (changed e state))
  unfolding apply stage_start stage_end stage_skip finish_run
  apply-Holds disk {state} (started stage now) h =
      update_state-Holds disk (start_state p stage now) h refl
        (touch_stage-Distinct stage (start_info p now) state h.distinct)
  apply-Holds disk {state} (ended stage ok rc now) h =
      update_state-Holds disk (end_state p stage ok rc now) h refl
        (touch_stage-Distinct stage (end_info p ok rc now) state h.distinct)
  apply-Holds disk {state} (skipped stage now) h =
      update_state-Holds disk (skip_state p stage now) h refl
        (touch_stage-Distinct stage (skip_info p) state h.distinct)
  apply-Holds disk {state} (finished status now) h =
      update_state-Holds disk (finish_state p status now) h refl h.distinct

  contains-changed :
      (s : String) (e : Event) (state : State Time Duration)
      → Distinct state.stages
      → contains s (done_names p (changed e state).stages)
        ≡ completed_after s (contains s (done_names p state.stages)) e
  contains-changed s (started stage now) state d =
      contains-touch_stage stage (start_info p now) state d s
  contains-changed s (ended stage true rc now) state d =
      contains-touch_stage stage (end_info p true rc now) state d s
  contains-changed s (ended stage false rc now) state d =
      contains-touch_stage stage (end_info p false rc now) state d s
  contains-changed s (skipped stage now) state d =
      ground (arith, contains-touch_stage stage (skip_info p) state d s)
  contains-changed s (finished status now) state d = refl

  should_skip-Holds :
      (s : String) (run : Run) {disk : Disk Time Duration} {state : State Time Duration}
      → Holds (compute_run_key p run) disk state
      → should_skip p s run disk ≡ contains s (done_names p state.stages)
  unfolding should_skip
  should_skip-Holds s run h = rw h.stored (rw ((==_iff _ _).1 h.run_key))

  -- On a writable disk that holds a state of this run, `should_skip` says of a stage, after any
  -- sequence of stage events, exactly what the last event about that stage says: it was ended well
  -- or skipped. Without such an event it says what the state on disk said before.
  pub should_skip-apply :
      (s : String) (run : Run) (events : List Event) {disk : Disk Time Duration}
      {state : State Time Duration}
      → Holds (compute_run_key p run) disk state
      → should_skip p s run (foldl apply disk events)
        ≡ foldl (completed_after s) (should_skip p s run disk) events
  should_skip-apply s run [] h = refl
  should_skip-apply s run (e ∷ events) {disk} {state} h =
      should_skip-apply s run events (apply-Holds disk e h)
      ∙ ap (λ b. foldl (completed_after s) b events)
          (should_skip-Holds s run (apply-Holds disk e h)
            ∙ contains-done_names-sort p _ s (changed e state).stages
            ∙ (contains-changed s e state h.distinct
                ∙ ap (λ b. completed_after s b e) (sym (should_skip-Holds s run h))))
