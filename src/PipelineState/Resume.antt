-- ===== src/PipelineState/Resume.antt =====
-- What `begin_run` keeps of an earlier run.
use el_sca_ansamble.Prelude.{
  String, Bool, true, false, ◌≡◌, ◌⊎◌, inl, inr, refl, ◌∙◌, Option, none, some, List, [], ◌∷◌,
  arith, All, Bool-cases,
}
use el_sca_ansamble.Prelude.Keys.{string_eq, nat_eq, ==_iff, contains}
use el_sca_ansamble.PipelineState.State.{
  pending, done, State, Disk, Platform, Reading, Run, Info, compute_run_key, requeue, resumes,
  next_state, with_case, begin_run, schema_version_now,
}
use el_sca_ansamble.PipelineState.Stages.{done_names, completed_stages}

module _ (p : Platform) where
  open p use {Time, Duration}

  -- A stage after a resume: finished, or waiting to be run again.
  abbrev pub IsRested : String × Info p → Type 0
  IsRested stage = (stage.1.status ≡ done) ⊎ (stage.1.status ≡ pending)

  requeue-done_names : (d : List (String × Info p)) → done_names p (requeue p d) ≡ done_names p d
  requeue-done_names [] = refl
  requeue-done_names ((name, info) ∷ d) = ground (arith, requeue-done_names d)

  requeue-IsRested : (d : List (String × Info p)) → All IsRested (requeue p d)
  requeue-IsRested [] = tt
  requeue-IsRested ((name, info) ∷ d) = (ground arith, requeue-IsRested d)

  with_case-stages :
      (case_id : String) (state : State Time Duration)
      → (with_case p case_id state).stages ≡ state.stages
  with_case-stages case_id state = ground arith

  module _ (run : Run) (case_id : String) (now : Reading Time) (disk : Disk Time Duration) where
    resumed_stages :
        {prev : State Time Duration}
        → disk.file ≡ some prev
        → resumes p (compute_run_key p run) prev ≡ true
        → (begin_run p run case_id true now disk).0.stages ≡ requeue p prev.stages
    unfolding begin_run next_state
    resumed_stages {prev} file same =
        with_case-stages case_id (next_state p disk.file run now) ∙ rw file (rw same)

    begun_stages :
        (o : Option (State Time Duration)) (s : String)
        → contains s (done_names p (next_state p o run now).stages) ≡ true
        → (prev : State Time Duration) × (o ≡ some prev)
          × (resumes p (compute_run_key p run) prev ≡ true)
          × (contains s (done_names p prev.stages) ≡ true)
    unfolding next_state contains
    begun_stages none s h = cc
    begun_stages (some prev) s h = elim (Bool-cases (resumes p (compute_run_key p run) prev)) [
      | inl same ↦ (prev, refl, same, ground (arith, requeue-done_names prev.stages))
      | inr other ↦ absurd (ground arith)
    ]

    -- Resuming a state of the same run and schema keeps exactly its completed stages, and leaves
    -- every stage either done or pending: what was active or had failed is to run again.
    pub begin_run-resumes :
        {prev : State Time Duration}
        → disk.file ≡ some prev
        → prev.run_key ≡ compute_run_key p run
        → prev.schema_version ≡ schema_version_now
        → (completed_stages p (some (begin_run p run case_id true now disk).0)
            ≡ completed_stages p (some prev))
          × All IsRested (begin_run p run case_id true now disk).0.stages
    unfolding completed_stages
    begin_run-resumes {prev} file key schema =
        let same : resumes p (compute_run_key p run) prev ≡ true =
          rw ((==_iff _ _).1 key) ((==_iff _ _).1 schema) in
        rw (resumed_stages file same) (requeue-done_names prev.stages, requeue-IsRested prev.stages)

    -- A stage that counts as completed when a run begins was completed in a state that was on disk,
    -- of the same run key and schema, and a resume was asked for.
    pub begin_run-completed :
        (resume : Bool) (s : String)
        → contains s (completed_stages p (some (begin_run p run case_id resume now disk).0)) ≡ true
        → (prev : State Time Duration) × (disk.file ≡ some prev)
          × (resume ≡ true)
          × (prev.run_key ≡ compute_run_key p run)
          × (prev.schema_version ≡ schema_version_now)
          × (contains s (completed_stages p (some prev)) ≡ true)
    unfolding begin_run completed_stages
    begin_run-completed false s h =
        let (prev, found, same, kept) =
          begun_stages none s (rw (with_case-stages case_id (next_state p none run now)) at h) in
        absurd (cc)
    begin_run-completed true s h =
        let (prev, found, same, kept) =
          begun_stages disk.file s
            (rw (with_case-stages case_id (next_state p disk.file run now)) at h) in
        (
          prev,
          found,
          refl,
          ground (arith, ==_iff prev.run_key (compute_run_key p run)),
          ground arith,
          kept,
        )
