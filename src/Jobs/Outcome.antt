-- ===== src/Jobs/Outcome.antt =====
-- Who decides how a job ends (platform/jobs.rs): the commit of its result or its cancellation,
-- whichever takes the mutex first; and nothing after its worker has finished.
use free_llama.Base.{
  sym, ap, ◌∙◌, refl, is_some, ℕ, ◌≡◌, refl, ◌∙◌, true, false, Option, some, String, Result, ok,
  err, is_some, arith,
}
use free_llama.Jobs.Limit.{Value, fits_retention_limit}
use free_llama.Jobs.{
  JobStatus, completed, cancelled, terminal, ApiError, Job, update, route, commit_result, finish,
  signal_done, cancel_job, discard,
}
use free_llama.Jobs.History.{
  updated, routed, committed, finishes, signalled, discarded, stop, step, Steps-JobInv, Step-JobInv,
  commit_result-JobInv, Step, Steps, JobInv,
}

-- A flag, once set, stays.
pub record Keeps (job next : Job) : Type 0 where
  pub commits : job.completion_committed ≡ true → next.completion_committed ≡ true
  pub cancels : job.cancel ≡ true → next.cancel ≡ true

Keeps-update :
    (job : Job) (status : JobStatus) (reason : String) (detail : Option Value)
    → Keeps job (update job status reason detail)
unfolding update
Keeps-update job status reason detail = ground arith

Keeps-commit_result :
    (error_body : ℕ → String → Value) (job : Job) (commit : Result Value ApiError)
    → Keeps job (commit_result error_body job commit).0
unfolding commit_result
Keeps-commit_result error_body job (ok value) = ground arith
Keeps-commit_result error_body job (err e) = ground arith

Keeps-finish :
    (error_body : ℕ → String → Value) (job : Job) (outcome : Result Value ApiError) (now : ℕ)
    → Keeps job (finish error_body job outcome now)
unfolding finish
Keeps-finish error_body job (ok value) now = ground arith
Keeps-finish error_body job (err e) now = ground arith

Keeps-cancel_job : (job : Job) → Keeps job (cancel_job job)
unfolding cancel_job
Keeps-cancel_job job = ground arith

Keeps-Step :
    (error_body : ℕ → String → Value) (job next : Job) → Step error_body job next → Keeps job next
unfolding route signal_done discard
Keeps-Step error_body job _ (updated _ status reason detail t c f) =
    Keeps-update job status reason detail
Keeps-Step error_body job _ (routed _ model backend f) = ground arith
Keeps-Step error_body job _ (committed _ commit f) = Keeps-commit_result error_body job commit
Keeps-Step error_body job _ (finishes _ outcome now f) = Keeps-finish error_body job outcome now
Keeps-Step error_body job _ (signalled _ f) = ground arith
Keeps-Step error_body job _ (Step.cancelled _) = Keeps-cancel_job job
Keeps-Step error_body job _ (discarded _ f) = ground arith

Keeps-Steps :
    (error_body : ℕ → String → Value) (job last : Job) → Steps error_body job last → Keeps job last
Keeps-Steps error_body job _ (stop _) = record { commits = λ e. e; cancels = λ e. e }
Keeps-Steps error_body job last (step _ next _ s rest) =
    let now = Keeps-Step error_body job next s in
    let later = Keeps-Steps error_body next last rest in
    record {
      commits = λ e. later.commits (now.commits e);
      cancels = λ e. later.cancels (now.cancels e);
    }

finish-cancelled :
    (error_body : ℕ → String → Value) (job : Job) (outcome : Result Value ApiError) (now : ℕ)
    → job.cancel ≡ true
    → (finish error_body job outcome now).status ≡ cancelled
unfolding finish
finish-cancelled error_body job (ok value) now c = ground arith
finish-cancelled error_body job (err e) now c = ground arith

-- A cancellation that comes before the commit decides: a live job that has committed nothing ends
-- as cancelled, whatever its worker does meanwhile and whatever it returns.
pub cancel_job-cancelled :
    (error_body : ℕ → String → Value) (job last : Job) (outcome : Result Value ApiError) (now : ℕ)
    → terminal job.status ≡ false
    → job.completion_committed ≡ false
    → Steps error_body (cancel_job job) last
    → (finish error_body last outcome now).status ≡ cancelled
unfolding cancel_job
cancel_job-cancelled error_body job last outcome now t c steps =
    finish-cancelled error_body last outcome now
      ((Keeps-Steps error_body _ last steps).cancels (ground arith))

finish-completed :
    (error_body : ℕ → String → Value) (job : Job) (value : Value) (now : ℕ)
    → job.cancel ≡ false
    → fits_retention_limit value ≡ true
    → let job' = finish error_body job (ok value) now in
      (job'.status ≡ completed) × (job'.result ≡ some value)
unfolding finish
finish-completed error_body job value now c f = ground arith

-- A commit that comes before any cancellation decides: where a job that keeps its invariant has
-- committed, however many cancellations follow, a worker that returns a value within the limit
-- completes the job with it.
commit_result-completed :
    (error_body : ℕ → String → Value) (job last : Job) (value result : Value) (now : ℕ)
    → JobInv job
    → job.cancel ≡ false
    → Steps error_body (commit_result error_body job (ok value)).0 last
    → fits_retention_limit result ≡ true
    → let job' = finish error_body last (ok result) now in
      (job'.status ≡ completed) × (job'.result ≡ some result)
unfolding commit_result
commit_result-completed error_body job last value result now v c steps f =
    finish-completed error_body last result now
      (not_cancelled _ (Keeps-Steps error_body _ last steps)
        (Steps-JobInv error_body _ last steps (commit_result-JobInv error_body job (ok value) v))
        (ground arith))
      f
  where
    not_cancelled :
        (job : Job)
        → Keeps job last
        → JobInv last
        → job.completion_committed ≡ true
        → last.cancel ≡ false
    not_cancelled job k w e = let e' = k.commits e in ground arith

-- What is settled once the worker has finished.
pub record Settled (job next : Job) : Type 0 where
  pub status : next.status ≡ job.status
  pub reason : next.reason ≡ job.reason
  pub finished : next.finished ≡ job.finished
  pub detail : next.detail ≡ job.detail
  pub cancel : next.cancel ≡ job.cancel

Settled-Step :
    (error_body : ℕ → String → Value) (job next : Job)
    → Step error_body job next
    → terminal job.status ≡ true
    → is_some job.finished ≡ true
    → Settled job next
unfolding route signal_done discard cancel_job
Settled-Step error_body job _ (updated _ status reason detail t c f) e g = cc
Settled-Step error_body job _ (routed _ model backend f) e g = cc
Settled-Step error_body job _ (committed _ commit f) e g = cc
Settled-Step error_body job _ (finishes _ outcome now f) e g = cc
Settled-Step error_body job _ (signalled _ f) e g = ground arith
Settled-Step error_body job _ (Step.cancelled _) e g = ground arith
Settled-Step error_body job _ (discarded _ f) e g = ground arith

-- Once the worker of a job that keeps its invariant has finished, nothing changes the status that
-- the job ended with, its reason, its time, its detail or its cancellation flag.
Settled-Steps :
    (error_body : ℕ → String → Value) (job last : Job)
    → Steps error_body job last
    → JobInv job
    → is_some job.finished ≡ true
    → Settled job last
Settled-Steps error_body job _ (stop _) v g = record {
  status = refl;
  reason = refl;
  finished = refl;
  detail = refl;
  cancel = refl;
}
Settled-Steps error_body job last (step _ next _ s rest) v g =
    let now = Settled-Step error_body job next s (sym v.finished_terminal ∙ g) g in
    let later =
      Settled-Steps error_body next last rest (Step-JobInv error_body job next s v)
        (ap is_some now.finished ∙ g) in
    record {
      status = later.status ∙ now.status;
      reason = later.reason ∙ now.reason;
      finished = later.finished ∙ now.finished;
      detail = later.detail ∙ now.detail;
      cancel = later.cancel ∙ now.cancel;
    }
