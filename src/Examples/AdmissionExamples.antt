-- ===== src/Examples/AdmissionExamples.antt =====
-- A pool of two units under a small history, and queues of a few waiters
-- (packages/rust-core/src/platform/admission.rs).
use free_llama.Base.{
  ℕ, ◌*◌, ◌+◌, ◌≤◌, ◌<◌, ◌≡◌, refl, ◌≢◌, inl, inr, List, [], ◌∷◌, none, some, arith, All, take,
  saturating_add,
}
use free_llama.Task.{TaskPriority, interactive, normal, background}
use free_llama.Admission.State.{
  AdmissionState, Waiter, priority_weights, max_capacity_bypasses, new, set_limit,
}
use free_llama.Admission.Select.{
  selected_waiter, reserved, weighted, try_pass, try_class, choose, record_bypass,
}
use free_llama.Admission.Select.Fairness.{others, selected_waiter-Ready}
use free_llama.Admission.Select.Starvation.{Passes, start, passed, Passes-bound}
use free_llama.Admission.Select.Reservation.{selected_waiter-reserved}
use free_llama.Admission.Queue
use free_llama.Admission.Queue.{acquired, panicked}
use free_llama.Admission.Pool.{
  Pool, Event, arrives, tries, finishes, limits, step, run, after_attempt, drop_permit,
}
use free_llama.Admission.Pool.Invariant.{Inv}
use free_llama.Admission.Pool.Safety.{
  PoolInv, IsWord, fresh, run-fresh-Inv, run-attempt-ne-panicked,
}
use free_llama.Admission.Pool.Bounds.{attempt-acquired}

abbrev waiter : ℕ → ℕ → TaskPriority → ℕ → Waiter
waiter ticket cost priority bypasses = record {
  ticket = ticket;
  cost = cost;
  priority = priority;
  enqueued_at = 0;
  bypasses = bypasses;
}

-- Four units of which `active` are taken, and a queue.
abbrev queue : ℕ → List Waiter → AdmissionState
queue active waiting = record {
  active = active;
  limit = 4;
  ceiling = 4;
  max_waiters = 8;
  next_ticket = 9;
  waiting = waiting;
  resource_waiting = [];
  credits = priority_weights;
  granted = none;
  in_flight = 0;
  admitted = 0;
  released = 0;
  policy_epoch = 0;
  queue_full_rejections = 0;
  queue_timeouts = 0;
  queue_cancellations = 0;
  transition_timeouts = 0;
}

abbrev mixed : AdmissionState
mixed = queue 0 (waiter 0 1 interactive 0 ∷ waiter 1 1 background 0 ∷ [])

abbrev large_first : AdmissionState
large_first = queue 2 (waiter 0 3 normal 2 ∷ waiter 1 1 background 0 ∷ [])

abbrev overdue : AdmissionState
overdue = queue 1 (waiter 0 1 interactive 0 ∷ waiter 1 3 normal 6 ∷ [])

mixed_selects : (selected_waiter mixed).1 ≡ some 0
unfolding selected_waiter weighted try_pass try_class choose
mixed_selects = refl

large_waits : (selected_waiter large_first).1 ≡ some 1
unfolding selected_waiter weighted try_pass try_class choose
large_waits = refl

overdue_selects : (selected_waiter overdue).1 ≡ some 1
unfolding selected_waiter reserved choose
overdue_selects = refl

selected_waiter-Ready_example : (index : ℕ) × ((selected_waiter mixed).1 ≡ some index)
selected_waiter-Ready_example =
    selected_waiter-Ready mixed background (refl, (refl, tt)) (inr (inl refl))

-- An interactive waiter passes the background one.
one_pass : Passes background 1 mixed
unfolding selected_waiter weighted try_pass try_class choose
one_pass =
    passed {w = waiter 0 1 interactive 0} (refl, (refl, tt)) (inr (inl refl)) refl refl (λ e. cc)
      refl (start {s = (selected_waiter mixed).0})

Passes-bound_example : 1 ≤ 2 * others priority_weights background
Passes-bound_example = Passes-bound mixed background (omega arith) one_pass

selected_waiter-reserved_example :
    (max_capacity_bypasses ≤ 6)
    × All (λ v. v.bypasses < max_capacity_bypasses) (take 1 overdue.waiting)
selected_waiter-reserved_example =
    selected_waiter-reserved overdue (selected_waiter overdue).0 1 (waiter 1 3 normal 6)
      (inr (inl (omega arith))) (unfold selected_waiter reserved choose in refl) refl

-- A task of two units is admitted, one of a unit waits, the limit falls to one, and the first ends.
abbrev history : List Event
history =
    arrives 0 100 2 normal
    ∷ tries 0 100 0
    ∷ arrives 1 100 1 interactive
    ∷ tries 1 100 1
    ∷ limits 1
    ∷ finishes 0
    ∷ tries 2 100 1
    ∷ []

history_words : All IsWord history
history_words = (tt, (tt, (tt, (tt, (tt, (tt, (tt, tt)))))))

history_runs : (run (fresh 2 4) history).permits ≡ 1 ∷ []
unfolding run step after_attempt drop_permit new selected_waiter weighted try_pass try_class choose
    set_limit record_bypass Queue.enqueue Queue.attempt Queue.select_if_free Queue.grant_index
    Queue.claim Queue.claim_at Queue.drop_wait_guard Queue.release saturating_add
history_runs = refl

run-fresh-Inv_example : PoolInv (run (fresh 2 4) history)
run-fresh-Inv_example = run-fresh-Inv 2 4 history (omega arith) history_words

run-attempt-ne-panicked_example :
    (Queue.attempt (run (fresh 2 4) history).state 3 100 1).1 ≢ panicked
run-attempt-ne-panicked_example =
    run-attempt-ne-panicked 2 4 history 3 100 1 (omega arith) history_words

-- The pool of a new queue with one waiter.
abbrev one_waiting : Pool
one_waiting = record { state = queue 0 (waiter 0 3 normal 0 ∷ []); permits = [] }

one_waiting-Inv : Inv one_waiting.state []
one_waiting-Inv = ground arith

attempt-acquired_example :
    (0 < 5)
    × (0 < 3)
    × ((Queue.attempt one_waiting.state 0 5 0).0.active ≡ 0 + 3)
    × ((Queue.attempt one_waiting.state 0 5 0).0.active ≤ 4)
attempt-acquired_example =
    attempt-acquired one_waiting.state (Queue.attempt one_waiting.state 0 5 0).0 [] 0 5 0 3
      one_waiting-Inv
      (unfold selected_waiter weighted try_pass try_class choose record_bypass Queue.attempt
          Queue.select_if_free Queue.grant_index Queue.claim Queue.claim_at in
        refl)
