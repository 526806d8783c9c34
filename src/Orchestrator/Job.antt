-- ===== src/Orchestrator/Job.antt =====
-- `Job`: its state and its operations. A queue that `subscribe` handed out stays in the list of
-- queues; `subscribed` says whether it still is one of `_subscribers`. A log line comes with what
-- the regular expressions of the file read in it; a percentage is in hundredths. The transcript
-- file and the checkpoints are left out.
use el_sca_ansamble.Prelude.{
  ℕ, zero, suc, ◌+◌, String, Bool, true, false, not, ◌&&◌, ◌||◌, Option, none, some, List, [], ◌∷◌,
  ◌++◌, if◌then◌else◌, ltb, leb, any, length,
}
use el_sca_ansamble.Prelude.Int.{ℤ, pos}
use el_sca_ansamble.Prelude.Keys.{string_eq, insert, lookup}
use el_sca_ansamble.Orchestrator.Stage.{
  StageSpec, Stage, is_error, service_to_stage, initial_stage_list, index_from, resolve_stage,
  advance_list, advance_changes, begin_list, set_status, all_done, active_to_error, done, error,
}

pub data JobStatus : Type 0 where
  running finished errored : JobStatus

abbrev pub is_running : JobStatus → Bool
is_running running = true
is_running _ = false

-- An update event; `final` holds the return code of a last event.
pub record Event : Type 0 where
  pub line : Option String
  pub progress : Option (String × ℕ)
  pub state : Option (JobStatus × List Stage)
  pub final : Option (Option ℤ)

-- What stands in a subscriber's queue; `close` is the `None` that ends the stream.
pub data Item : Type 0 where
  snapshot : JobStatus → Option ℤ → List Stage → List String → Item
  update : Event → Item
  close : Item

pub record Queue : Type 0 where
  pub items : List Item
  pub subscribed : Bool

pub record Job : Type 0 where
  pub status : JobStatus
  pub returncode : Option ℤ
  pub stages : List Stage
  pub index : List (String × ℕ)
  pub services : List (String × String)
  -- none is the -1 of a new job
  pub max_index : Option ℕ
  pub explicit : Bool
  pub log : List String
  pub last_pct : List (String × ℕ)
  pub queues : List Queue

unfoldable pub new_job : List StageSpec → Job
new_job specs = record {
  status = running;
  returncode = none;
  stages = initial_stage_list specs;
  index = index_from 0 specs [];
  services = service_to_stage specs;
  max_index = none;
  explicit = false;
  log = [];
  last_pct = [];
  queues = [];
}

-- The queue gets the event and, when it is the last one, the end of the stream.
unfoldable pub put : Bool → Event → Queue → Queue
put final event q =
    if q.subscribed
    then record {
      items = q.items ++ (if final then update event ∷ close ∷ [] else update event ∷ []);
      subscribed = not final;
    }
    else q

unfoldable pub put_all : Bool → Event → List Queue → List Queue
put_all final event [] = []
put_all final event (q ∷ qs) = put final event q ∷ put_all final event qs

unfoldable pub publish : Option String → Bool → Bool → Option (String × ℕ) → Job → Job
publish line include_state final progress job =
    let event : Event = record {
      line = line;
      progress = progress;
      state = if include_state then some (job.status, job.stages) else none;
      final = if final then some job.returncode else none;
    } in
    record job { queues = put_all final event job.queues }

-- The queue of a new subscriber, which is closed at once when the job does not run.
unfoldable pub new_queue : Bool → Item → Queue
new_queue true replay = record { items = replay ∷ []; subscribed = true }
new_queue false replay = record { items = replay ∷ close ∷ []; subscribed = false }

unfoldable pub subscribe : Job → Job
subscribe job =
    let replay = snapshot job.status job.returncode job.stages job.log in
    record job { queues = job.queues ++ new_queue (is_running job.status) replay ∷ [] }

-- Whether `_advance` refuses an index: it lies before the one that was reached.
abbrev pub is_behind : ℕ → Option ℕ → Bool
is_behind i none = false
is_behind i (some m) = ltb i m

abbrev pub advance_to : Option ℕ → Job → Bool × Job
advance_to none job = (false, job)
advance_to (some i) job = if is_behind i job.max_index then (false, job) else (
  advance_changes i job.stages,
  record job { stages = advance_list i job.stages; max_index = some i },
)

unfoldable pub advance : String → Job → Bool × Job
advance key job = advance_to (lookup key job.index) job

-- A log line without its line ending, and what is read in it.
pub record LogLine : Type 0 where
  pub text : String
  pub is_bar : Bool
  pub pct : Option ℕ
  pub service : Option String

-- `deque(maxlen=4000)`
unfoldable pub push_log : List String → String → List String
push_log log line =
    let grown = log ++ line ∷ [] in if ltb 4000 (length grown) then drop_first grown else grown
  where
    drop_first : List String → List String
    drop_first [] = []
    drop_first (x ∷ xs) = xs

abbrev pub advance_key : Option String → Job → Bool × Job
advance_key none job = (false, job)
advance_key (some key) job = advance key job

unfoldable pub follow : Option String → Job → Bool × Job
follow none job = (false, job)
follow (some svc) job = advance_key (resolve_stage job.services svc) job

abbrev pub stage_key : ℕ → List Stage → Option String
stage_key n [] = none
stage_key zero (s ∷ ss) = some s.key
stage_key (suc n) (s ∷ ss) = stage_key n ss

-- An event is due after a change of a whole percent, and near the end.
abbrev pub is_due : ℕ → Option ℕ → Bool
is_due pct none = true
is_due pct (some last) = leb (last + 100) pct || leb (pct + 100) last || leb 9990 pct

abbrev pub current_key : Job → Option String
current_key job = elim job.max_index [ none ↦ none | some i ↦ stage_key i job.stages ]

abbrev pub report : Option String → Option ℕ → Job → Option (String × ℕ) × Job
report (some key) (some pct) job =
    if is_due pct (lookup key job.last_pct)
    then (some (key, pct), record job { last_pct = insert key pct job.last_pct })
    else (none, job)
report _ _ job = (none, job)

-- The progress of the current stage, throttled.
unfoldable pub progress_of : Option ℕ → Job → Option (String × ℕ) × Job
progress_of pct job = report (current_key job) pct job

-- A redraw of a progress bar is kept out of the log.
unfoldable pub logged : LogLine → Job → Job
logged line job = if line.is_bar then job else record job { log = push_log job.log line.text }

-- In a job whose stages are not driven explicitly, the service of a line moves the pipeline.
unfoldable pub moved : LogLine → Job → Bool × Job
moved line job =
    if not job.explicit && not line.is_bar then follow line.service job else (false, job)

unfoldable pub feed_line : LogLine → Job → Job
feed_line line job =
    let pct = if job.explicit then none else line.pct in
    let (changed, job) = moved line (logged line job) in
    let (progress, job) = progress_of pct job in
    publish (if line.is_bar then none else some line.text) changed false progress job

unfoldable pub begin_stage : String → Job → Job
begin_stage key job = begin_at (lookup key job.index) (record job { explicit = true })
  where
    begin_at : Option ℕ → Job → Job
    begin_at none job = job
    begin_at (some i) job =
        publish none true false none (record job { stages = begin_list i job.stages })

unfoldable pub end_stage : String → Bool → Job → Job
end_stage key ok job = end_at (lookup key job.index) job
  where
    end_at : Option ℕ → Job → Job
    end_at none job = job
    end_at (some i) job =
        publish none true false none
          (record job { stages = set_status i (if ok then done else error) job.stages })

unfoldable pub finalize : Job → Job
finalize job =
    let any_err = any (λ s. is_error s.status) job.stages in
    publish none true true none (record job {
      status = if any_err then errored else finished;
      returncode = some (if any_err then pos 1 else pos 0);
    })

unfoldable pub finish : ℤ → Job → Job
finish (pos zero) job =
    publish none true true none
      (record job { status = finished; returncode = some (pos 0); stages = all_done job.stages })
finish returncode job = publish none true true none (record job {
  status = errored;
  returncode = some returncode;
  stages = active_to_error job.stages;
})

-- A call of one of the job's operations.
pub data Call : Type 0 where
  feeds : LogLine → Call
  begins : String → Call
  ends : String → Bool → Call
  subscribes finalizes : Call
  finishes : ℤ → Call

unfoldable pub call : Call → Job → Job
call (feeds line) job = feed_line line job
call (begins key) job = begin_stage key job
call (ends key ok) job = end_stage key ok job
call subscribes job = subscribe job
call finalizes job = finalize job
call (finishes returncode) job = finish returncode job

unfoldable pub run_calls : List Call → Job → Job
run_calls [] job = job
run_calls (c ∷ cs) job = run_calls cs (call c job)
