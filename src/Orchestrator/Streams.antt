-- ===== src/Orchestrator/Streams.antt =====
-- What a subscriber's queue holds: a stream of events that ends once, when the job ends.
use el_sca_ansamble.Prelude.{
  ℕ, zero, suc, String, ◌≡◌, refl, ap, ◌∙◌, Bool, true, false, not, ◌&&◌, Option, none, some, List,
  [], ◌∷◌, ◌++◌, All, All-append, Bool-cases, Option-cases, inl, inr, if◌then◌else◌, arith,
}
use el_sca_ansamble.Prelude.Int.{ℤ, pos, negsuc}
use el_sca_ansamble.Prelude.Keys.{lookup, string_eq}
use el_sca_ansamble.Orchestrator.Stage.{StageSpec, Stage, resolve_stage}
use el_sca_ansamble.Orchestrator.Job.{
  JobStatus, is_running, Event, Item, close, update, Queue, Job, LogLine, new_job, put, put_all,
  publish, subscribe, advance, advance_to, advance_key, is_behind, follow, progress_of, report,
  current_key, is_due, logged, moved, new_queue, feed_line, begin_stage, end_stage, finalize,
  finish, Call, feeds, begins, ends, subscribes, finalizes, finishes, call, run_calls,
}

-- No end of the stream so far.
is_open : List Item → Bool
is_open [] = true
is_open (close ∷ items) = false
is_open (_ ∷ items) = is_open items

-- One end of the stream, in the last place.
pub is_closed : List Item → Bool
is_closed [] = false
is_closed (close ∷ []) = true
is_closed (close ∷ items) = false
is_closed (_ ∷ items) = is_closed items

-- A subscribed queue is open, and the job runs; another queue is closed.
pub stream_ok : Bool → Queue → Bool
stream_ok runs q = if q.subscribed then runs && is_open q.items else is_closed q.items

abbrev pub StreamsOk : Job → Type 0
StreamsOk job = All (λ q. stream_ok (is_running job.status) q ≡ true) job.queues

is_open-append : (xs ys : List Item) → is_open xs ≡ true → is_open (xs ++ ys) ≡ is_open ys
unfolding is_open
is_open-append [] ys h = refl
is_open-append (close ∷ xs) ys h = absurd (ground (arith, h))
is_open-append (Item.snapshot a b c d ∷ xs) ys h = is_open-append xs ys h
is_open-append (update e ∷ xs) ys h = is_open-append xs ys h

is_closed-append : (xs ys : List Item) → is_open xs ≡ true → is_closed (xs ++ ys) ≡ is_closed ys
unfolding is_open is_closed
is_closed-append [] ys h = refl
is_closed-append (close ∷ xs) ys h = absurd (ground (arith, h))
is_closed-append (Item.snapshot a b c d ∷ xs) ys h = is_closed-append xs ys h
is_closed-append (update e ∷ xs) ys h = is_closed-append xs ys h

put-stream_ok :
    (runs : Bool) (event : Event) (q : Queue)
    → stream_ok runs q ≡ true
    → stream_ok runs (put false event q) ≡ true
unfolding stream_ok put is_open
put-stream_ok runs event q h = elim (Bool-cases q.subscribed) [
  | inl e ↦ rw e (ground (arith, h, e, is_open-append q.items (update event ∷ [])))
  | inr e ↦ rw e (ground (arith, h, e))
]

put-final :
    (runs now : Bool) (event : Event) (q : Queue)
    → stream_ok runs q ≡ true
    → stream_ok now (put true event q) ≡ true
unfolding stream_ok put is_closed
put-final runs now event q h = elim (Bool-cases q.subscribed) [
  | inl e ↦ rw e (ground (arith, h, e, is_closed-append q.items (update event ∷ close ∷ [])))
  | inr e ↦ rw e (ground (arith, h, e))
]

publish-StreamsOk :
    (line : Option String) (state : Bool) (progress : Option (String × ℕ)) (job : Job)
    → StreamsOk job
    → StreamsOk (publish line state false progress job)
unfolding publish put_all
publish-StreamsOk line state progress job h = over _ job.queues h
  where
    over :
        (event : Event) (qs : List Queue)
        → All (λ q. stream_ok (is_running job.status) q ≡ true) qs
        → All (λ q. stream_ok (is_running job.status) q ≡ true) (put_all false event qs)
    over event [] h = tt
    over event (q ∷ qs) h = (put-stream_ok (is_running job.status) event q h.0, over event qs h.1)

-- A last event closes every queue, whether the job ran or not.
publish-final :
    (runs : Bool) (line : Option String) (state : Bool) (progress : Option (String × ℕ)) (job : Job)
    → All (λ q. stream_ok runs q ≡ true) job.queues
    → StreamsOk (publish line state true progress job)
unfolding publish put_all
publish-final runs line state progress job h = over _ job.queues h
  where
    over :
        (event : Event) (qs : List Queue)
        → All (λ q. stream_ok runs q ≡ true) qs
        → All (λ q. stream_ok (is_running job.status) q ≡ true) (put_all true event qs)
    over event [] h = tt
    over event (q ∷ qs) h = (put-final runs (is_running job.status) event q h.0, over event qs h.1)

-- The part of a job that a step leaves alone while it changes stages or progress.
record IsSameStream (old new : Job) : Type 0 where
  status : new.status ≡ old.status
  queues : new.queues ≡ old.queues

StreamsOk-of_same : (old new : Job) → IsSameStream old new → StreamsOk old → StreamsOk new
StreamsOk-of_same old new same h = rw (same.status, same.queues) h

advance_to-IsSameStream : (i : Option ℕ) (job : Job) → IsSameStream job (advance_to i job).1
advance_to-IsSameStream none job = record { status = refl; queues = refl }
advance_to-IsSameStream (some i) job = elim (Bool-cases (is_behind i job.max_index)) [
  | inl e ↦ rw e (record { status = refl; queues = refl })
  | inr e ↦ rw e (record { status = refl; queues = refl })
]

advance_key-IsSameStream :
    (key : Option String) (job : Job) → IsSameStream job (advance_key key job).1
unfolding advance
advance_key-IsSameStream none job = record { status = refl; queues = refl }
advance_key-IsSameStream (some key) job = advance_to-IsSameStream (lookup key job.index) job

follow-IsSameStream : (svc : Option String) (job : Job) → IsSameStream job (follow svc job).1
unfolding follow
follow-IsSameStream none job = record { status = refl; queues = refl }
follow-IsSameStream (some svc) job = advance_key-IsSameStream (resolve_stage job.services svc) job

progress_of-IsSameStream : (pct : Option ℕ) (job : Job) → IsSameStream job (progress_of pct job).1
unfolding progress_of
progress_of-IsSameStream pct job = reported (current_key job) pct
  where
    reported : (key : Option String) (pct : Option ℕ) → IsSameStream job (report key pct job).1
    reported none pct = record { status = refl; queues = refl }
    reported (some key) none = record { status = refl; queues = refl }
    reported (some key) (some pct) = elim (Bool-cases (is_due pct (lookup key job.last_pct))) [
      | inl e ↦ rw e (record { status = refl; queues = refl })
      | inr e ↦ rw e (record { status = refl; queues = refl })
    ]

logged-IsSameStream : (line : LogLine) (job : Job) → IsSameStream job (logged line job)
unfolding logged
logged-IsSameStream line job = elim (Bool-cases line.is_bar) [
  | inl e ↦ rw e (record { status = refl; queues = refl })
  | inr e ↦ rw e (record { status = refl; queues = refl })
]

moved-IsSameStream : (line : LogLine) (job : Job) → IsSameStream job (moved line job).1
unfolding moved
moved-IsSameStream line job = elim (Bool-cases (not job.explicit && not line.is_bar)) [
  | inl e ↦ rw e (follow-IsSameStream line.service job)
  | inr e ↦ rw e (record { status = refl; queues = refl })
]

feed_line-StreamsOk : (line : LogLine) (job : Job) → StreamsOk job → StreamsOk (feed_line line job)
unfolding feed_line
feed_line-StreamsOk line job h =
    let pct = if job.explicit then none else line.pct in
    let l = logged line job in
    let m = (moved line l).1 in
    publish-StreamsOk _ _ _ (progress_of pct m).1 (
      StreamsOk-of_same m _ (progress_of-IsSameStream pct m) (
        StreamsOk-of_same l _ (moved-IsSameStream line l)
          (StreamsOk-of_same job _ (logged-IsSameStream line job) h)))

new_queue-stream_ok :
    (runs : Bool) (s : JobStatus) (rc : Option ℤ) (stages : List Stage) (log : List String)
    → stream_ok runs (new_queue runs (Item.snapshot s rc stages log)) ≡ true
unfolding new_queue stream_ok is_open is_closed
new_queue-stream_ok true s rc stages log = refl
new_queue-stream_ok false s rc stages log = refl

subscribe-StreamsOk : (job : Job) → StreamsOk job → StreamsOk (subscribe job)
unfolding subscribe
subscribe-StreamsOk job h =
    All-append (λ q. stream_ok (is_running job.status) q ≡ true) job.queues _ h
      (new_queue-stream_ok (is_running job.status) job.status job.returncode job.stages job.log, tt)

finish-StreamsOk : (rc : ℤ) (job : Job) → StreamsOk job → StreamsOk (finish rc job)
unfolding finish
finish-StreamsOk (pos zero) job h = publish-final (is_running job.status) none true none _ h
finish-StreamsOk (pos (suc n)) job h = publish-final (is_running job.status) none true none _ h
finish-StreamsOk (negsuc n) job h = publish-final (is_running job.status) none true none _ h

call-StreamsOk : (c : Call) (job : Job) → StreamsOk job → StreamsOk (call c job)
unfolding call begin_stage end_stage finalize finish
call-StreamsOk (feeds line) job h = feed_line-StreamsOk line job h
call-StreamsOk (begins key) job h = elim (Option-cases (lookup key job.index)) [
  | inl e ↦ rw e h
  | inr (i, e) ↦ rw e (publish-StreamsOk none true none _ h)
]
call-StreamsOk (ends key ok) job h = elim (Option-cases (lookup key job.index)) [
  | inl e ↦ rw e h
  | inr (i, e) ↦ rw e (publish-StreamsOk none true none _ h)
]
call-StreamsOk subscribes job h = subscribe-StreamsOk job h
call-StreamsOk finalizes job h = publish-final (is_running job.status) none true none _ h
call-StreamsOk (finishes returncode) job h = finish-StreamsOk returncode job h

run_calls-StreamsOk : (cs : List Call) (job : Job) → StreamsOk job → StreamsOk (run_calls cs job)
unfolding run_calls
run_calls-StreamsOk [] job h = h
run_calls-StreamsOk (c ∷ cs) job h = run_calls-StreamsOk cs (call c job) (call-StreamsOk c job h)

-- After any calls of a new job's operations, every queue that was handed out is either subscribed
-- to a running job and has no end of stream in it, or is not subscribed and ends with the one end
-- of stream that it has.
pub run_calls-streams :
    (specs : List StageSpec) (cs : List Call) → StreamsOk (run_calls cs (new_job specs))
unfolding new_job
run_calls-streams specs cs = run_calls-StreamsOk cs (new_job specs) tt

feed_line-status : (line : LogLine) (job : Job) → (feed_line line job).status ≡ job.status
unfolding feed_line publish
feed_line-status line job =
    let pct = if job.explicit then none else line.pct in
    let l = logged line job in
    let m = (moved line l).1 in
    (progress_of-IsSameStream pct m).status
    ∙ ((moved-IsSameStream line l).status ∙ (logged-IsSameStream line job).status)

-- A job that does not run never runs again.
call-stopped :
    (c : Call) (job : Job) → is_running job.status ≡ false → is_running (call c job).status ≡ false
unfolding call begin_stage end_stage finalize finish subscribe publish
call-stopped (feeds line) job h = ap is_running (feed_line-status line job) ∙ h
call-stopped (begins key) job h = elim (Option-cases (lookup key job.index)) [
  | inl e ↦ rw e h
  | inr (i, e) ↦ rw e h
]
call-stopped (ends key ok) job h = elim (Option-cases (lookup key job.index)) [
  | inl e ↦ rw e h
  | inr (i, e) ↦ rw e h
]
call-stopped subscribes job h = h
call-stopped finalizes job h = ground arith
call-stopped (finishes (pos zero)) job h = refl
call-stopped (finishes (pos (suc n))) job h = refl
call-stopped (finishes (negsuc n)) job h = refl

run_calls-stopped :
    (cs : List Call) (job : Job)
    → is_running job.status ≡ false
    → is_running (run_calls cs job).status ≡ false
unfolding run_calls
run_calls-stopped [] job h = h
run_calls-stopped (c ∷ cs) job h = run_calls-stopped cs (call c job) (call-stopped c job h)

closed_of_stopped :
    (runs : Bool) (qs : List Queue)
    → runs ≡ false
    → All (λ q. stream_ok runs q ≡ true) qs
    → All (λ q. is_closed q.items ≡ true) qs
unfolding stream_ok
closed_of_stopped runs [] h k = tt
closed_of_stopped runs (q ∷ qs) h k = (ground (arith, k.0, h), closed_of_stopped runs qs h k.1)

finish-stopped : (rc : ℤ) (job : Job) → is_running (finish rc job).status ≡ false
unfolding finish publish
finish-stopped (pos zero) job = refl
finish-stopped (pos (suc n)) job = refl
finish-stopped (negsuc n) job = refl

-- Whatever calls come before and after `finish`, every queue that was handed out ends with the one
-- end of stream that it has.
pub finish-closes :
    (specs : List StageSpec) (before after : List Call) (rc : ℤ)
    → All
        (λ q. is_closed q.items ≡ true)
        (run_calls after (finish rc (run_calls before (new_job specs)))).queues
finish-closes specs before after rc =
    let job = run_calls before (new_job specs) in
    closed_of_stopped _ _ (run_calls-stopped after (finish rc job) (finish-stopped rc job)) (
      run_calls-StreamsOk after (finish rc job)
        (finish-StreamsOk rc job (run_calls-streams specs before)))
