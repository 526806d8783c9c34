-- ===== src/Orchestrator/Pipeline.antt =====
-- A job that only reads log lines: the pipeline advances monotonically.
use el_sca_ansamble.Prelude.{
  ℕ, zero, suc, ◌≤◌, ◌<◌, ◌+◌, String, ◌≡◌, refl, ap, false, not, ◌&&◌, Option, none, some, List,
  [], ◌∷◌, All, length, Bool-cases, inl, inr, if◌then◌else◌, arith,
}
use el_sca_ansamble.Prelude.Keys.{string_eq, lookup, insert, lookup-insert}
use el_sca_ansamble.Orchestrator.Stage.{
  pending, active, done, StageSpec, Stage, initial_stage_list, index_from, advance_list,
  resolve_stage,
}
use el_sca_ansamble.Orchestrator.Job.{
  Job, LogLine, new_job, advance, advance_to, advance_key, is_behind, follow, progress_of, report,
  current_key, is_due, logged, moved, feed_line, publish,
}

-- The stages before the index are done, the one at it is active, the later ones are pending.
pub IsPipeline : Option ℕ → List Stage → Type 0
IsPipeline none ss = All (λ s. s.status ≡ pending) ss
IsPipeline (some n) [] = ⊥
IsPipeline (some zero) (s ∷ ss) = (s.status ≡ active) × All (λ s. s.status ≡ pending) ss
IsPipeline (some (suc n)) (s ∷ ss) = (s.status ≡ done) × IsPipeline (some n) ss

-- Every index that the job knows is one of a stage.
abbrev AreInRange : List (String × ℕ) → List Stage → Type 0
AreInRange d ss = (key : String) (i : ℕ) → lookup key d ≡ some i → i < length ss

pending-IsPipeline :
    (n : ℕ) (ss : List Stage)
    → All (λ s. s.status ≡ pending) ss
    → n < length ss
    → IsPipeline (some n) (advance_list n ss)
unfolding advance_list IsPipeline
pending-IsPipeline n [] h l = absurd (omega (arith, l))
pending-IsPipeline zero (s ∷ ss) h l = (refl, h.1)
pending-IsPipeline (suc n) (s ∷ ss) h l = (refl, pending-IsPipeline n ss h.1 (omega (arith, l)))

advance_list-IsPipeline :
    (m : Option ℕ) (n : ℕ) (ss : List Stage)
    → IsPipeline m ss
    → is_behind n m ≡ false
    → n < length ss
    → IsPipeline (some n) (advance_list n ss)
unfolding advance_list IsPipeline
advance_list-IsPipeline none n ss h b l = pending-IsPipeline n ss h l
advance_list-IsPipeline (some m) n [] h b l = absurd (omega (arith, l))
advance_list-IsPipeline (some zero) zero (s ∷ ss) h b l = (refl, h.1)
advance_list-IsPipeline (some zero) (suc n) (s ∷ ss) h b l =
    (refl, pending-IsPipeline n ss h.1 (omega (arith, l)))
advance_list-IsPipeline (some (suc m)) zero (s ∷ ss) h b l = absurd (ground (arith, b))
advance_list-IsPipeline (some (suc m)) (suc n) (s ∷ ss) h b l =
    (refl, advance_list-IsPipeline (some m) n ss h.1 (ground (arith, b)) (omega (arith, l)))

length-advance_list : (n : ℕ) (ss : List Stage) → length (advance_list n ss) ≡ length ss
unfolding advance_list
length-advance_list n [] = refl
length-advance_list zero (s ∷ ss) = refl
length-advance_list (suc n) (s ∷ ss) = ap suc (length-advance_list n ss)

-- The shape that log lines keep.
pub record IsPiped (job : Job) : Type 0 where
  pub shape : IsPipeline job.max_index job.stages
  range : AreInRange job.index job.stages

advance_to-IsPiped :
    (i : Option ℕ) (job : Job)
    → ((n : ℕ) → i ≡ some n → n < length job.stages)
    → IsPiped job
    → IsPiped (advance_to i job).1
advance_to-IsPiped none job l h = h
advance_to-IsPiped (some i) job l h = elim (Bool-cases (is_behind i job.max_index)) [
  | inl e ↦ rw e h
  | inr e ↦ rw e (record {
    shape = advance_list-IsPipeline job.max_index i job.stages h.shape e (l i refl);
    range = λ key n k. rw (length-advance_list i job.stages) (h.range key n k);
  })
]

advance_key-IsPiped :
    (key : Option String) (job : Job) → IsPiped job → IsPiped (advance_key key job).1
unfolding advance
advance_key-IsPiped none job h = h
advance_key-IsPiped (some key) job h = advance_to-IsPiped (lookup key job.index) job (h.range key) h

follow-IsPiped : (svc : Option String) (job : Job) → IsPiped job → IsPiped (follow svc job).1
unfolding follow
follow-IsPiped none job h = h
follow-IsPiped (some svc) job h = advance_key-IsPiped (resolve_stage job.services svc) job h

moved-IsPiped : (line : LogLine) (job : Job) → IsPiped job → IsPiped (moved line job).1
unfolding moved
moved-IsPiped line job h = elim (Bool-cases (not job.explicit && not line.is_bar)) [
  | inl e ↦ rw e (follow-IsPiped line.service job h)
  | inr e ↦ rw e h
]

logged-IsPiped : (line : LogLine) (job : Job) → IsPiped job → IsPiped (logged line job)
unfolding logged
logged-IsPiped line job h = elim (Bool-cases line.is_bar) [
  | inl e ↦ rw e h
  | inr e ↦ rw e (record { shape = h.shape; range = h.range })
]

progress_of-IsPiped : (pct : Option ℕ) (job : Job) → IsPiped job → IsPiped (progress_of pct job).1
unfolding progress_of
progress_of-IsPiped pct job h = reported (current_key job) pct
  where
    reported : (key : Option String) (pct : Option ℕ) → IsPiped (report key pct job).1
    reported none pct = h
    reported (some key) none = h
    reported (some key) (some pct) = elim (Bool-cases (is_due pct (lookup key job.last_pct))) [
      | inl e ↦ rw e (record { shape = h.shape; range = h.range })
      | inr e ↦ rw e h
    ]

feed_line-IsPiped : (line : LogLine) (job : Job) → IsPiped job → IsPiped (feed_line line job)
unfolding feed_line publish
feed_line-IsPiped line job h =
    let pct = if job.explicit then none else line.pct in
    let l = logged line job in
    let m = (moved line l).1 in
    let p = progress_of-IsPiped pct m (moved-IsPiped line l (logged-IsPiped line job h)) in
    record { shape = p.shape; range = p.range }

unfoldable pub feed_lines : List LogLine → Job → Job
feed_lines [] job = job
feed_lines (line ∷ lines) job = feed_lines lines (feed_line line job)

feed_lines-IsPiped :
    (lines : List LogLine) (job : Job) → IsPiped job → IsPiped (feed_lines lines job)
unfolding feed_lines
feed_lines-IsPiped [] job h = h
feed_lines-IsPiped (line ∷ lines) job h =
    feed_lines-IsPiped lines (feed_line line job) (feed_line-IsPiped line job h)

initial-pending :
    (specs : List StageSpec) → All (λ s. s.status ≡ pending) (initial_stage_list specs)
unfolding initial_stage_list
initial-pending [] = tt
initial-pending (spec ∷ specs) = (refl, initial-pending specs)

index_from-bounded :
    (i n : ℕ) (specs : List StageSpec) (d : List (String × ℕ))
    → ((key : String) (j : ℕ) → lookup key d ≡ some j → j < n)
    → i + length (initial_stage_list specs) ≤ n
    → (key : String) (j : ℕ) → lookup key (index_from i specs d) ≡ some j
    → j < n
unfolding index_from initial_stage_list
index_from-bounded i n [] d h l key j k = h key j k
index_from-bounded i n (spec ∷ specs) d h l key j k =
    index_from-bounded (suc i) n specs (insert spec.key i d) inserted (omega (arith, l)) key j k
  where
    inserted : (key : String) (j : ℕ) → lookup key (insert spec.key i d) ≡ some j → j < n
    inserted key j k = ground (arith, lookup-insert spec.key key i d, k, h key j, l)

-- After any log lines, the stages of a new job before the one reached last are done, that one is
-- active and the later ones are pending; all are pending while no line has named a stage.
pub feed_lines-IsPipeline :
    (specs : List StageSpec) (lines : List LogLine)
    → let job = feed_lines lines (new_job specs) in IsPipeline job.max_index job.stages
unfolding new_job IsPipeline lookup
feed_lines-IsPipeline specs lines =
    (feed_lines-IsPiped lines (new_job specs) (record {
      shape = initial-pending specs;
      range =
          index_from-bounded 0 (length (initial_stage_list specs)) specs []
            (λ key j k. absurd (ground (arith, k))) (omega arith);
    })).shape
