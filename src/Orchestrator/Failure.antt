-- ===== src/Orchestrator/Failure.antt =====
-- A stage that failed is not hidden by the stages after it.
use el_sca_ansamble.Prelude.{
  ℕ, zero, suc, ◌<◌, String, ◌≡◌, ◌≢◌, refl, ap, ◌∙◌, Bool, true, false, some, List, [], ◌∷◌, any,
  length, Option-cases, inl, inr, arith,
}
use el_sca_ansamble.Prelude.Int.{pos}
use el_sca_ansamble.Prelude.Keys.{string_eq, lookup}
use el_sca_ansamble.Orchestrator.Stage.{
  StageStatus, pending, active, done, error, Stage, is_error, started, passed, begin_list,
  set_status,
}
use el_sca_ansamble.Orchestrator.Job.{Job, errored, begin_stage, end_stage, finalize, publish}

-- What a runner does between a failure and the end: it begins stages, and ends other ones.
pub data Step : Type 0 where
  begins : String → Step
  ends : String → Bool → Step

unfoldable pub steps : List Step → Job → Job
steps [] job = job
steps (begins key ∷ ss) job = steps ss (begin_stage key job)
steps (ends key ok ∷ ss) job = steps ss (end_stage key ok job)

-- Whether a stage of the list has failed and the index is its own.
failed_at : ℕ → List Stage → Bool
failed_at n [] = false
failed_at zero (s ∷ ss) = is_error s.status
failed_at (suc n) (s ∷ ss) = failed_at n ss

started-error : (s : StageStatus) → is_error s ≡ true → is_error (started s) ≡ true
started-error pending h = h
started-error active h = h
started-error done h = h
started-error error h = h

passed-error : (s : StageStatus) → is_error s ≡ true → is_error (passed s) ≡ true
passed-error pending h = absurd (ground (arith, h))
passed-error active h = absurd (ground (arith, h))
passed-error done h = h
passed-error error h = h

begin_list-failed_at :
    (i n : ℕ) (ss : List Stage) → failed_at n ss ≡ true → failed_at n (begin_list i ss) ≡ true
unfolding failed_at begin_list
begin_list-failed_at i n [] h = h
begin_list-failed_at zero zero (s ∷ ss) h = started-error s.status h
begin_list-failed_at zero (suc n) (s ∷ ss) h = h
begin_list-failed_at (suc i) zero (s ∷ ss) h = passed-error s.status h
begin_list-failed_at (suc i) (suc n) (s ∷ ss) h = begin_list-failed_at i n ss h

set_status-failed_at :
    (i n : ℕ) (status : StageStatus) (ss : List Stage)
    → (i ≡ n → ⊥)
    → failed_at n ss ≡ true
    → failed_at n (set_status i status ss) ≡ true
unfolding failed_at set_status
set_status-failed_at i n status [] d h = h
set_status-failed_at zero zero status (s ∷ ss) d h = absurd (d refl)
set_status-failed_at zero (suc n) status (s ∷ ss) d h = h
set_status-failed_at (suc i) zero status (s ∷ ss) d h = h
set_status-failed_at (suc i) (suc n) status (s ∷ ss) d h =
    set_status-failed_at i n status ss (λ e. d (ap suc e)) h

set_status-fails :
    (n : ℕ) (ss : List Stage) → n < length ss → failed_at n (set_status n error ss) ≡ true
unfolding failed_at set_status
set_status-fails n [] h = absurd (omega (arith, h))
set_status-fails zero (s ∷ ss) h = refl
set_status-fails (suc n) (s ∷ ss) h = set_status-fails n ss (omega (arith, h))

any-failed_at :
    (n : ℕ) (ss : List Stage) → failed_at n ss ≡ true → any (λ s. is_error s.status) ss ≡ true
unfolding failed_at any
any-failed_at n [] h = h
any-failed_at zero (s ∷ ss) h = ground (arith, h)
any-failed_at (suc n) (s ∷ ss) h = ground (arith, any-failed_at n ss h)

-- No step ends the stage at an index.
unfoldable pub Avoids : ℕ → List (String × ℕ) → List Step → Type 0
Avoids n index [] = Unit
Avoids n index (begins key ∷ ss) = Avoids n index ss
Avoids n index (ends key ok ∷ ss) = (lookup key index ≢ some n) × Avoids n index ss

begin_stage-index : (key : String) (job : Job) → (begin_stage key job).index ≡ job.index
unfolding begin_stage publish
begin_stage-index key job = elim (Option-cases (lookup key job.index)) [
  | inl e ↦ rw e refl
  | inr (i, e) ↦ rw e refl
]

end_stage-index : (key : String) (ok : Bool) (job : Job) → (end_stage key ok job).index ≡ job.index
unfolding end_stage publish
end_stage-index key ok job = elim (Option-cases (lookup key job.index)) [
  | inl e ↦ rw e refl
  | inr (i, e) ↦ rw e refl
]

begin_stage-failed_at :
    (n : ℕ) (key : String) (job : Job)
    → failed_at n job.stages ≡ true
    → failed_at n (begin_stage key job).stages ≡ true
unfolding begin_stage publish
begin_stage-failed_at n key job h = elim (Option-cases (lookup key job.index)) [
  | inl e ↦ rw e h
  | inr (i, e) ↦ rw e (begin_list-failed_at i n job.stages h)
]

end_stage-failed_at :
    (n : ℕ) (key : String) (ok : Bool) (job : Job)
    → lookup key job.index ≢ some n
    → failed_at n job.stages ≡ true
    → failed_at n (end_stage key ok job).stages ≡ true
unfolding end_stage publish
end_stage-failed_at n key ok job d h = elim (Option-cases (lookup key job.index)) [
  | inl e ↦ rw e h
  | inr (i, e) ↦
      rw e (set_status-failed_at i n _ job.stages (λ (same : i ≡ n). d (e ∙ ap some same)) h)
]

steps-failed_at :
    (n : ℕ) (ss : List Step) (job : Job)
    → Avoids n job.index ss
    → failed_at n job.stages ≡ true
    → failed_at n (steps ss job).stages ≡ true
unfolding steps Avoids
steps-failed_at n [] job a h = h
steps-failed_at n (begins key ∷ ss) job a h =
    steps-failed_at n ss (begin_stage key job) (rw (begin_stage-index key job) a)
      (begin_stage-failed_at n key job h)
steps-failed_at n (ends key ok ∷ ss) job a h =
    steps-failed_at n ss (end_stage key ok job) (rw (end_stage-index key ok job) a.1)
      (end_stage-failed_at n key ok job a.0 h)

end_stage-fails :
    (n : ℕ) (key : String) (job : Job)
    → lookup key job.index ≡ some n
    → n < length job.stages
    → failed_at n (end_stage key false job).stages ≡ true
unfolding end_stage publish
end_stage-fails n key job e l = rw e (set_status-fails n job.stages l)

-- When a known stage ends with a failure and the calls after it begin any stages and end other
-- ones only, `finalize` reports the job as failed, with return code 1.
pub finalize-failed :
    (n : ℕ) (key : String) (ss : List Step) (job : Job)
    → lookup key job.index ≡ some n
    → n < length job.stages
    → Avoids n job.index ss
    → let ended = finalize (steps ss (end_stage key false job)) in
      (ended.status ≡ errored) × (ended.returncode ≡ some (pos 1))
unfolding finalize publish
finalize-failed n key ss job e l a =
    let stuck =
      steps-failed_at n ss (end_stage key false job) (rw (end_stage-index key false job) a)
        (end_stage-fails n key job e l) in
    let found = any-failed_at n (steps ss (end_stage key false job)).stages stuck in
    rw found (refl, refl)
