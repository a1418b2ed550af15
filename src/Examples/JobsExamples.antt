-- ===== src/Examples/JobsExamples.antt =====
-- Deferred jobs (platform/jobs.rs) at concrete inputs.
use free_llama.Base.{
  if◌then◌else◌, zero, suc, ℕ, ◌≡◌, refl, List, [], ◌∷◌, none, some, String, ok, length, arith,
  ◌==◌, All, ◌<◌, ◌⊎◌,
}
use free_llama.Task.{TaskKind, TaskPriority}
use free_llama.Jobs.Limit.{Value}
use free_llama.Jobs.{
  Job, new_job, running, cancelled, completed, cancel_job, commit_result, finish, update,
}
use free_llama.Jobs.History.{Step, Steps, stop, step, updated, finishes, JobInv, history-JobInv}
use free_llama.Jobs.Outcome.{cancel_job-cancelled}
use free_llama.Jobs.Registry.{Store, make_room, task_jobs_full}
use free_llama.Jobs.Registry.Room.{make_room-full, Unfinished}

abbrev body : ℕ → String → Value
body status text = record { writes = 10 ∷ 20 ∷ [] }

abbrev fresh : Job
fresh = new_job 7 TaskKind.completion TaskPriority.normal (some "llama") 1000 10

abbrev answer : Value
answer = record { writes = 100 ∷ 24 ∷ [] }

abbrev busy : Job
busy = update fresh running "decoding" none

life : Steps body fresh (finish body (cancel_job busy) (ok answer) 5)
unfolding new_job cancel_job update
life = step fresh busy _ (updated fresh running "decoding" none refl refl refl) (
    step busy (cancel_job busy) _ (Step.cancelled busy) (
      step (cancel_job busy) _ _ (finishes (cancel_job busy) (ok answer) 5 refl)
        (stop (finish body (cancel_job busy) (ok answer) 5))))

history-JobInv_example : JobInv (finish body (cancel_job busy) (ok answer) 5)
history-JobInv_example =
    history-JobInv body 7 TaskKind.completion TaskPriority.normal (some "llama") 1000 10
      (finish body (cancel_job busy) (ok answer) 5) life

cancel_job-cancelled_example :
    (finish body (update (cancel_job busy) running "late" none) (ok answer) 9).status ≡ cancelled
unfolding new_job cancel_job update
cancel_job-cancelled_example =
    cancel_job-cancelled body busy (update (cancel_job busy) running "late" none) (ok answer) 9 refl
      refl
      (step (cancel_job busy) (update (cancel_job busy) running "late" none) _
        (updated (cancel_job busy) running "late" none refl refl refl)
        (stop (update (cancel_job busy) running "late" none)))

abbrev committed_job : Job
committed_job = (commit_result body fresh (ok answer)).0

abbrev ended : Job
ended = finish body (cancel_job busy) (ok answer) 5

-- Jobs 1 and 2 have finished, the others have not.
abbrev store : Store
store = λ i.
    if i == 1
    then record fresh { finished = some 5; status = completed }
    else if i == 2
    then record fresh { finished = some 9; status = completed }
    else fresh

abbrev ids : ℕ → List ℕ
ids zero = []
ids (suc n) = suc n ∷ ids n

make_room-full_example :
    let (entries', refusal) = make_room body store 100 (ids 64) in
    ((refusal ≡ none) × (length entries' < 64))
    ⊎ ((refusal ≡ some (task_jobs_full body))
        × (length entries' ≡ 64)
        × All (Unfinished store) entries')
make_room-full_example = make_room-full body store 100 (ids 64) (omega arith)
