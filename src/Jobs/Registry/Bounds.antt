-- ===== src/Jobs/Registry/Bounds.antt =====
-- The size of the registry in every history of its handlers, and the way from a submission to its
-- job (platform/jobs.rs).
use free_llama.Base.{
  ℕ, suc, ◌≤◌, ◌≡◌, refl, ◌∙◌, inl, inr, true, not, List, [], ◌∷◌, none, Option-cases, Bool-cases,
  is_none_or, ltb, ◌==◌, length, any, arith, String, length-retain-le, ok,
}
use free_llama.Jobs.Limit.{Value}
use free_llama.Jobs.{Job}
use free_llama.Jobs.Registry.{
  Store, put, is_retained, prune, insert_entry, make_room, submit, lookup_job, remove_job,
  max_input_bytes,
}
use free_llama.Jobs.Registry.Room.{make_room-full, any-retain}

-- What a handler does while it holds the registry's mutex, and a change of a job behind its own.
pub data Operation : Type 0 where
  submits : ℕ → Job → ℕ → Operation
  looks_up : ℕ → ℕ → Operation
  removes : ℕ → Operation
  changes : ℕ → Job → Operation

module _ (error_body : ℕ → String → Value) where
  abbrev pub apply : Store × List ℕ → Operation → Store × List ℕ
  apply (jobs, entries) (submits input_bytes job now) =
      (submit error_body jobs entries input_bytes job now).0
  apply (jobs, entries) (looks_up id now) = (jobs, (lookup_job error_body jobs entries id now).0)
  apply (jobs, entries) (removes id) = remove_job jobs entries id
  apply (jobs, entries) (changes id job) = (put jobs id job, entries)

  abbrev pub run : Store × List ℕ → List Operation → Store × List ℕ
  run world [] = world
  run world (operation ∷ rest) = run (apply world operation) rest

length-insert_entry-le :
    (id : ℕ) (entries : List ℕ) → length (insert_entry id entries) ≤ suc (length entries)
length-insert_entry-le id [] = omega arith
length-insert_entry-le id (i ∷ entries) = ground (arith, length-insert_entry-le id entries)

submit-length :
    (error_body : ℕ → String → Value) (jobs : Store) (entries : List ℕ) (input_bytes : ℕ)
    (job : Job) (now : ℕ)
    → length entries ≤ 64
    → length (submit error_body jobs entries input_bytes job now).0.1 ≤ 64
unfolding submit
submit-length error_body jobs entries input_bytes job now h =
    elim (Bool-cases (ltb max_input_bytes input_bytes)) [
      | inl big ↦ rw big h
      | inr fits ↦ elim (make_room-full error_body jobs now entries h) [
        | inl (e, room) ↦
            let grown = length-insert_entry-le job.id (make_room error_body jobs now entries).0 in
            rw (fits, e) (omega arith)
        | inr (e, full, _) ↦ rw (fits, e) (omega arith)
      ]
    ]

apply-length :
    (error_body : ℕ → String → Value) (world : Store × List ℕ) (operation : Operation)
    → length world.1 ≤ 64
    → length (apply error_body world operation).1 ≤ 64
unfolding lookup_job remove_job prune
apply-length error_body (jobs, entries) (submits input_bytes job now) h =
    submit-length error_body jobs entries input_bytes job now h
apply-length error_body (jobs, entries) (looks_up id now) h =
    omega (arith, length-retain-le (is_retained jobs now) entries)
apply-length error_body (jobs, entries) (removes id) h =
    omega (arith, length-retain-le (λ i. not (i == id)) entries)
apply-length error_body (jobs, entries) (changes id job) h = h

-- However submissions, look-ups, removals and changes of jobs follow each other, a registry that
-- starts with at most 64 jobs never holds more.
run-length :
    (error_body : ℕ → String → Value) (operations : List Operation) (world : Store × List ℕ)
    → length world.1 ≤ 64
    → length (run error_body world operations).1 ≤ 64
run-length error_body [] world h = h
run-length error_body (operation ∷ rest) world h =
    run-length error_body rest (apply error_body world operation)
      (apply-length error_body world operation h)

any-insert_entry : (id : ℕ) (entries : List ℕ) → any (λ i. i == id) (insert_entry id entries) ≡ true
any-insert_entry id [] = ground arith
any-insert_entry id (i ∷ entries) = ground (arith, any-insert_entry id entries)

submit-entries :
    (error_body : ℕ → String → Value) (jobs : Store) (entries : List ℕ) (input_bytes : ℕ)
    (job : Job) (now : ℕ)
    → (submit error_body jobs entries input_bytes job now).1 ≡ none
    → any (λ i. i == job.id) (submit error_body jobs entries input_bytes job now).0.1 ≡ true
unfolding submit
submit-entries error_body jobs entries input_bytes job now =
    elim (Bool-cases (ltb max_input_bytes input_bytes)) [
      | inl big ↦ rw (big, submit) (λ e. ground arith)
      | inr fits ↦ elim (Option-cases (make_room error_body jobs now entries).1) [
        | inl e ↦
            rw (fits, e, submit)
              (λ accepted. any-insert_entry job.id (make_room error_body jobs now entries).0)
        | inr (x, e) ↦ rw (fits, e, submit) (λ accepted. ground arith)
      ]
    ]

-- In the registry that `submit` leaves, a job that it has accepted is found by its id at any time at
-- which the job has not finished.
submit-lookup_job :
    (error_body : ℕ → String → Value) (jobs jobs' : Store) (entries : List ℕ) (input_bytes : ℕ)
    (job : Job) (now later : ℕ)
    → (submit error_body jobs entries input_bytes job now).1 ≡ none
    → (jobs' job.id).finished ≡ none
    → (lookup_job error_body jobs'
        (submit error_body jobs entries input_bytes job now).0.1
        job.id
        later).1
      ≡ ok job.id
unfolding lookup_job prune
submit-lookup_job error_body jobs jobs' entries input_bytes job now later accepted unfinished =
    let kept : is_retained jobs' later job.id ≡ true = rw (unfinished, is_none_or) refl in
    let there = submit-entries error_body jobs entries input_bytes job now accepted in
    rw (any-retain (is_retained jobs' later) job.id _ kept ∙ there) refl
