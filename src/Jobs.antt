-- ===== src/Jobs.antt =====
-- A deferred task (platform/jobs.rs): the record behind its mutex and what the worker, the
-- supervisor and the callers do to it, one function for each time that the mutex is taken.
-- Instants are in nanoseconds.
pub mod Limit
pub mod History
pub mod Outcome
pub mod Registry
use free_llama.Base.{
  ℕ, Bool, true, false, not, ◌&&◌, ◌||◌, List, Option, none, some, String, Result, ok, err,
  if◌then◌else◌, u64_max, saturating_add,
}
use text.Mathlib.Text.{◌==◌}
use free_llama.Task.{TaskKind, TaskPriority}
use free_llama.Jobs.Limit.{Value, fits_retention_limit}

pub data JobStatus : Type 0 where
  queued : JobStatus
  waiting_for_admission : JobStatus
  waiting_for_resources : JobStatus
  waiting_for_runner : JobStatus
  loading : JobStatus
  running : JobStatus
  cancelling : JobStatus
  completed : JobStatus
  failed : JobStatus
  cancelled : JobStatus
  expired : JobStatus

abbrev pub terminal : JobStatus → Bool
terminal completed = true
terminal failed = true
terminal cancelled = true
terminal expired = true
terminal _ = false

abbrev pub is_cancelling : JobStatus → Bool
is_cancelling cancelling = true
is_cancelling _ = false

-- What the registry reads of an `ApiError`; `batch_result` is its `into_batch_result`, encoded.
pub record ApiError : Type 0 where
  pub status : ℕ
  pub code : Option String
  pub retry_after_seconds : Option ℕ
  pub batch_result : Value

-- The error that a job retains: its own, or the note that this one was too large.
pub data JobError : Type 0 where
  retained : ApiError → JobError
  too_large : JobError

pub record Job : Type 0 where
  pub id : ℕ
  pub status : JobStatus
  pub task : TaskKind
  pub priority : TaskPriority
  pub requested_model : Option String
  pub selected_model : Option String
  pub backend : Option String
  pub reason : String
  pub detail : Option Value
  pub created_at : ℕ
  pub timeout_seconds : ℕ
  pub finished : Option ℕ
  pub result : Option Value
  pub error : Option JobError
  pub cancel : Bool
  pub done : Bool
  pub completion_committed : Bool

-- The record that `submit` makes.
unfoldable pub new_job : ℕ → TaskKind → TaskPriority → Option String → ℕ → ℕ → Job
new_job id task priority requested_model now timeout = record {
  id = id;
  status = queued;
  task = task;
  priority = priority;
  requested_model = requested_model;
  selected_model = none;
  backend = none;
  reason = "discovering_model";
  detail = none;
  created_at = now;
  timeout_seconds = timeout;
  finished = none;
  result = none;
  error = none;
  cancel = false;
  done = false;
  completion_committed = false;
}

-- `JobProgress::update`.
unfoldable pub update : Job → JobStatus → String → Option Value → Job
update job status reason detail =
    if not (terminal job.status) && not (is_cancelling job.status)
    then record job { status = status; reason = reason; detail = detail }
    else job

-- `JobProgress::route`.
unfoldable pub route : Job → String → String → Job
route job model backend = record job { selected_model = some model; backend = some backend }

-- What the registry's own errors are written as.
module _ (error_body : ℕ → String → Value) where
  abbrev pub task_cancelled : ApiError
  task_cancelled = record {
    status = 409;
    code = some "task_cancelled";
    retry_after_seconds = none;
    batch_result = error_body 409 "task_cancelled";
  }

  abbrev pub result_too_large : ApiError
  result_too_large = record {
    status = 413;
    code = some "task_job_result_too_large";
    retry_after_seconds = none;
    batch_result = error_body 413 "task_job_result_too_large";
  }

  -- `JobProgress::commit_result`; `commit` is what the closure returns where it is called.
  unfoldable pub commit_result {ℓ} :
      {T : Type ℓ} → Job → Result T ApiError → Job × Result T ApiError
  commit_result job commit = if job.cancel then (job, err task_cancelled) else elim commit [
    | ok value ↦ (record job { completion_committed = true }, ok value)
    | err e ↦ (job, err e)
  ]

  -- `outcome.and_then`, before the lock.
  abbrev pub checked_outcome : Result Value ApiError → Result Value ApiError
  checked_outcome (ok value) = if fits_retention_limit value then ok value else err result_too_large
  checked_outcome (err e) = err e

  abbrev pub outcome_unless_cancelled : Job → Result Value ApiError → Result Value ApiError
  outcome_unless_cancelled job outcome = if job.cancel then err task_cancelled else outcome

abbrev pub code_is : Option String → String → Bool
code_is none text = false
code_is (some code) text = code == text

abbrev pub status_of : Option String → JobStatus
status_of code =
    if code_is code "task_cancelled" || code_is code "session_killed"
    then cancelled
    else if code_is code "task_deadline_exceeded"
    then expired
    else failed

abbrev pub reason_of : JobStatus → String
reason_of cancelled = "cancelled"
reason_of expired = "deadline_exceeded"
reason_of _ = "failed"

abbrev pub retained_error : ApiError → JobError
retained_error e = if fits_retention_limit e.batch_result then retained e else too_large

abbrev pub settle : Job → Result Value ApiError → Job
settle job (ok value) = record job { status = completed; reason = "completed"; result = some value }
settle job (err e) = record job {
  status = status_of e.code;
  reason = reason_of (status_of e.code);
  error = some (retained_error e);
}

-- `JobProgress::finish`.
unfoldable pub finish : (ℕ → String → Value) → Job → Result Value ApiError → ℕ → Job
finish error_body job outcome now =
    settle (record job { finished = some now; detail = none })
      (outcome_unless_cancelled error_body job (checked_outcome error_body outcome))

-- The supervisor's `done.send(true)`.
unfoldable pub signal_done : Job → Job
signal_done job = record job { done = true }

-- The critical section of `cancel_job`; the caller returns where the job was terminal, and waits
-- for `done` elsewhere.
unfoldable pub cancel_job : Job → Job
cancel_job job =
    if terminal job.status
    then job
    else if job.completion_committed
    then job
    else record job { status = cancelling; reason = "cancellation_requested"; cancel = true }

-- The critical section of `remove`, after `cancel_job` has returned.
unfoldable pub discard : Job → Job
discard job = record job { result = none; error = none }

-- The numbers and payloads of `Job::receipt`.
pub record Receipt : Type 0 where
  pub status : JobStatus
  pub reason : String
  pub detail : Option Value
  pub deadline_at : ℕ
  pub result : Option (Option Value)
  pub error : Option (Option JobError)

unfoldable pub receipt : Job → Bool → Receipt
receipt job include_result = record {
  status = job.status;
  reason = job.reason;
  detail = job.detail;
  deadline_at = saturating_add u64_max job.created_at job.timeout_seconds;
  result = if include_result then some job.result else none;
  error = if include_result then some job.error else none;
}
