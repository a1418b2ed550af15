-- ===== src/Jobs/Registry.antt =====
-- The registry of deferred tasks (platform/jobs.rs, `JobRegistry` and the handlers). A job is
-- shared between the registry, its worker and its callers, so `jobs` is the store behind the
-- handles, and the registry's map holds handles in the order of the ids: an id is a UUID, which as
-- text is ordered like the number that it writes. Instants are in nanoseconds.
pub mod Room
pub mod Bounds
use free_llama.Base.{
  ℕ, ◌-◌, ◌*◌, Bool, not, List, [], ◌∷◌, Option, none, some, String, Result, ok, err, is_none_or,
  ltb, leb, ◌==◌, if◌then◌else◌, length, retain, any,
}
use free_llama.Jobs.Limit.{Value}
use free_llama.Jobs.{ApiError, Job, discard}

abbrev pub max_jobs : ℕ
max_jobs = 64

abbrev pub result_ttl : ℕ
result_ttl = 600 * 1000000000

abbrev pub max_input_bytes : ℕ
max_input_bytes = 1024 * 1024

abbrev pub Store : Type 0
Store = ℕ → Job

abbrev pub put : Store → ℕ → Job → Store
put jobs id job = λ i. if i == id then job else jobs i

abbrev pub is_retained : Store → ℕ → ℕ → Bool
is_retained jobs now id = is_none_or (jobs id).finished (λ at. ltb (now - at) result_ttl)

-- `JobRegistry::prune`.
unfoldable pub prune : Store → ℕ → List ℕ → List ℕ
prune jobs now entries = retain (is_retained jobs now) entries

-- The finished jobs, each with its time: the `filter_map` of `make_room`.
abbrev pub add_finished : ℕ → Option ℕ → List (ℕ × ℕ) → List (ℕ × ℕ)
add_finished id none rest = rest
add_finished id (some at) rest = (at, id) ∷ rest

unfoldable pub finished_jobs : Store → List ℕ → List (ℕ × ℕ)
finished_jobs jobs [] = []
finished_jobs jobs (id ∷ entries) = add_finished id (jobs id).finished (finished_jobs jobs entries)

-- `min_by_key(|(at, _)| *at)`: the first of the least.
abbrev pub earlier : ℕ × ℕ → Option (ℕ × ℕ) → Option (ℕ × ℕ)
earlier first none = some first
earlier first (some later) = if leb first.0 later.0 then some first else some later

unfoldable pub min_by_time : List (ℕ × ℕ) → Option (ℕ × ℕ)
min_by_time [] = none
min_by_time (first ∷ rest) = earlier first (min_by_time rest)

-- `BTreeMap::remove` and `BTreeMap::insert`.
abbrev pub remove_entry : ℕ → List ℕ → List ℕ
remove_entry id entries = retain (λ i. not (i == id)) entries

abbrev pub insert_entry : ℕ → List ℕ → List ℕ
insert_entry id [] = id ∷ []
insert_entry id (i ∷ entries) =
    let rest = insert_entry id entries in
    if ltb id i then id ∷ i ∷ entries else if id == i then i ∷ entries else i ∷ rest

unfoldable pub evict : Option (ℕ × ℕ) → List ℕ → List ℕ
evict none entries = entries
evict (some (at, id)) entries = remove_entry id entries

unfoldable pub make_space : Store → List ℕ → List ℕ
make_space jobs entries =
    if leb max_jobs (length entries)
    then evict (min_by_time (finished_jobs jobs entries)) entries
    else entries

module _ (error_body : ℕ → String → Value) where
  abbrev pub task_jobs_full : ApiError
  task_jobs_full = record {
    status = 429;
    code = some "task_jobs_full";
    retry_after_seconds = some 5;
    batch_result = error_body 429 "task_jobs_full";
  }

  abbrev pub task_job_input_too_large : ApiError
  task_job_input_too_large = record {
    status = 413;
    code = some "task_job_input_too_large";
    retry_after_seconds = none;
    batch_result = error_body 413 "task_job_input_too_large";
  }

  -- `JobRegistry::make_room`.
  unfoldable pub make_room : Store → ℕ → List ℕ → List ℕ × Option ApiError
  make_room jobs now entries =
      let entries' = make_space jobs (prune jobs now entries) in
      (entries', if leb max_jobs (length entries') then some task_jobs_full else none)

  -- `submit`, from the check of the input's size on; `id` is the new UUID.
  unfoldable pub submit : Store → List ℕ → ℕ → Job → ℕ → (Store × List ℕ) × Option ApiError
  submit jobs entries input_bytes job now =
      if ltb max_input_bytes input_bytes
      then ((jobs, entries), some task_job_input_too_large)
      else (let (entries', full) = make_room jobs now entries in
          elim full [
            | none ↦ ((put jobs job.id job, insert_entry job.id entries'), none)
            | some e ↦ ((jobs, entries'), some e)
          ])

  abbrev pub not_found : ApiError
  not_found = record {
    status = 404;
    code = none;
    retry_after_seconds = none;
    batch_result = error_body 404 "job does not exist or has expired";
  }

  -- `lookup`: the handle is the id itself.
  unfoldable pub lookup_job : Store → List ℕ → ℕ → ℕ → List ℕ × Result ℕ ApiError
  lookup_job jobs entries id now =
      let entries' = prune jobs now entries in
      (entries', if any (λ i. i == id) entries' then ok id else err not_found)

-- The last critical sections of `remove`.
unfoldable pub remove_job : Store → List ℕ → ℕ → Store × List ℕ
remove_job jobs entries id = (put jobs id (discard (jobs id)), remove_entry id entries)
