-- ===== src/Jobs/History.antt =====
-- The life of a job (platform/jobs.rs): its worker, its supervisor and its callers take the mutex
-- in any order, and the invariant of the record.
use free_llama.Base.{
  ℕ, ◌≡◌, Bool, true, false, ◌&&◌, Option, String, Result, ok, err, is_some, is_none_or,
  if◌then◌else◌, arith,
}
use free_llama.Task.{TaskKind, TaskPriority}
use free_llama.Jobs.Limit.{Value, fits_retention_limit}
use free_llama.Jobs.{
  JobStatus, completed, terminal, is_cancelling, ApiError, JobError, retained, too_large, Job,
  new_job, update, route, commit_result, finish, signal_done, cancel_job, discard,
}

abbrev pub is_completed : JobStatus → Bool
is_completed completed = true
is_completed _ = false

abbrev error_fits : JobError → Bool
error_fits (retained e) = fits_retention_limit e.batch_result
error_fits too_large = true

module _ (error_body : ℕ → String → Value) where
  -- One time that the mutex is taken. The worker updates, routes, commits and finishes while the
  -- job has not finished; it only reports statuses that are not final.
  pub data Step : Job → Job → Type 0 where
    updated :
        (job : Job) (status : JobStatus) (reason : String) (detail : Option Value)
        → terminal status ≡ false
        → is_cancelling status ≡ false
        → is_some job.finished ≡ false
        → Step job (update job status reason detail)
    routed :
        (job : Job) (model backend : String)
        → is_some job.finished ≡ false
        → Step job (route job model backend)
    committed :
        (job : Job) (commit : Result Value ApiError)
        → is_some job.finished ≡ false
        → Step job (commit_result error_body job commit).0
    finishes :
        (job : Job) (outcome : Result Value ApiError) (now : ℕ)
        → is_some job.finished ≡ false
        → Step job (finish error_body job outcome now)
    signalled : (job : Job) → is_some job.finished ≡ true → Step job (signal_done job)
    cancelled : (job : Job) → Step job (cancel_job job)
    discarded : (job : Job) → is_some job.finished ≡ true → Step job (discard job)

  pub data Steps : Job → Job → Type 0 where
    stop : (job : Job) → Steps job job
    step : (job next last : Job) → Step job next → Steps next last → Steps job last

-- A job is final exactly when its worker has finished. The cancellation flag and the commit of a
-- result exclude each other, the flag goes with a status that says so, and a cancelled job never
-- ends as completed. What is retained fits the limit.
pub record JobInv (job : Job) : Type 0 where
  pub finished_terminal : is_some job.finished ≡ terminal job.status
  pub exclusive : (job.cancel && job.completion_committed) ≡ false
  pub flagged : (if is_cancelling job.status then job.cancel else true) ≡ true
  pub never_completed : (job.cancel && is_completed job.status) ≡ false
  pub done_finished : (if job.done then is_some job.finished else true) ≡ true
  pub result_fits : is_none_or job.result fits_retention_limit ≡ true
  pub error_fits : is_none_or job.error error_fits ≡ true

pub new_job-JobInv :
    (id : ℕ) (task : TaskKind) (priority : TaskPriority) (model : Option String) (now timeout : ℕ)
    → JobInv (new_job id task priority model now timeout)
unfolding new_job
new_job-JobInv id task priority model now timeout = ground arith

update-JobInv :
    (job : Job) (status : JobStatus) (reason : String) (detail : Option Value)
    → terminal status ≡ false
    → is_cancelling status ≡ false
    → JobInv job
    → JobInv (update job status reason detail)
unfolding update
update-JobInv job status reason detail t c v = ground arith

pub commit_result-JobInv :
    (error_body : ℕ → String → Value) (job : Job) (commit : Result Value ApiError)
    → JobInv job
    → JobInv (commit_result error_body job commit).0
unfolding commit_result
commit_result-JobInv error_body job (ok x) v = ground arith
commit_result-JobInv error_body job (err e) v = ground arith

cancel_job-JobInv : (job : Job) → JobInv job → JobInv (cancel_job job)
unfolding cancel_job
cancel_job-JobInv job v = ground arith

finish-JobInv :
    (error_body : ℕ → String → Value) (job : Job) (outcome : Result Value ApiError) (now : ℕ)
    → is_some job.finished ≡ false
    → JobInv job
    → JobInv (finish error_body job outcome now)
unfolding finish
finish-JobInv error_body job (ok value) now f v = ground arith
finish-JobInv error_body job (err e) now f v = ground arith

pub Step-JobInv :
    (error_body : ℕ → String → Value) (job next : Job)
    → Step error_body job next
    → JobInv job
    → JobInv next
unfolding route signal_done discard
Step-JobInv error_body job _ (updated _ status reason detail t c f) v =
    update-JobInv job status reason detail t c v
Step-JobInv error_body job _ (routed _ model backend f) v = ground arith
Step-JobInv error_body job _ (committed _ commit f) v = commit_result-JobInv error_body job commit v
Step-JobInv error_body job _ (finishes _ outcome now f) v =
    finish-JobInv error_body job outcome now f v
Step-JobInv error_body job _ (signalled _ f) v = ground arith
Step-JobInv error_body job _ (Step.cancelled _) v = cancel_job-JobInv job v
Step-JobInv error_body job _ (discarded _ f) v = ground arith

pub Steps-JobInv :
    (error_body : ℕ → String → Value) (job last : Job)
    → Steps error_body job last
    → JobInv job
    → JobInv last
Steps-JobInv error_body job _ (stop _) v = v
Steps-JobInv error_body job last (step _ next _ s rest) v =
    Steps-JobInv error_body next last rest (Step-JobInv error_body job next s v)

-- In every history of a job that was submitted, the job is final exactly when its worker has
-- finished, its cancellation flag and the commit of its result exclude each other, a job whose flag
-- is set never ends as completed, `done` is signalled only behind the finish, and the result and
-- the error that it retains fit the limit of two MiB.
pub history-JobInv :
    (error_body : ℕ → String → Value) (id : ℕ) (task : TaskKind) (priority : TaskPriority)
    (model : Option String) (now timeout : ℕ) (last : Job)
    → Steps error_body (new_job id task priority model now timeout) last
    → JobInv last
history-JobInv error_body id task priority model now timeout last steps =
    Steps-JobInv error_body _ last steps (new_job-JobInv id task priority model now timeout)
