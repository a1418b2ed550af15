-- ===== src/Admission/Pool/Depth.antt =====
-- How many requests can wait at a pool.
use free_llama.Base.{
  ℕ, ◌≤◌, ◌≡◌, ap, inl, inr, Bool, true, false, List, [], ◌∷◌, arith, length, length-append,
  length-retain-le, length-retain-lt, length-remove_at, get_elem?, retain, any, find_index,
  find_index_sound, not, leb, ◌==◌, Bool-cases, Option-cases, max,
}
use free_llama.Task.{TaskPriority}
use free_llama.Admission.State.{
  AdmissionState, queue_depth, set_limit, set_ceiling, set_max_waiters, record_transition_timeout,
}
use free_llama.Admission.Queue
use free_llama.Admission.Queue.{
  Attempt, acquired, expired, pending, panicked, is_ticket, is_granted, without_grant,
  select_if_free, grant_index, claim, claim_at,
}
use free_llama.Admission.Pool.{
  Pool, Event, arrives, tries, times_out, cancels, finishes, registers, hands_off, leaves, limits,
  ceilings, allows, transition_times_out, after_attempt, drop_permit, is_resource_ticket, step,
}
use free_llama.Admission.Pool.Bounds.{select_if_free-Same}

claim-depth :
    (s : AdmissionState) (selected : Bool) (ticket : ℕ)
    → queue_depth (claim (s, selected) ticket).0 ≤ queue_depth s
unfolding claim claim_at
claim-depth s selected ticket = elim (Bool-cases (is_granted s.granted ticket)) [
  | inl mine ↦ elim (Option-cases (find_index (is_ticket ticket) s.waiting)) [
    | inl e ↦ rw (mine, e, claim) (omega arith)
    | inr ((i, w), e) ↦
        rw (mine, e, claim)
          (ground (
            arith,
            length-remove_at s.waiting i (find_index_sound (is_ticket ticket) s.waiting i w e).2,
          ))
  ]
  | inr other ↦ rw (other, claim) (omega arith)
]

attempt-depth :
    (s : AdmissionState) (now deadline ticket : ℕ)
    → queue_depth (Queue.attempt s now deadline ticket).0 ≤ queue_depth s
unfolding Queue.attempt
attempt-depth s now deadline ticket = elim (Bool-cases (leb deadline now)) [
  | inl late ↦ rw (late, Queue.attempt) (omega arith)
  | inr soon ↦
      rw (soon, Queue.attempt)
        (let m = select_if_free-Same s in
          omega (
            arith,
            claim-depth (select_if_free s).0 (select_if_free s).1 ticket,
            m.waiters,
            ap (λ (l : List (ℕ × ℕ)). length l) m.resource_waiters,
          ))
]

drop_wait_guard-depth :
    (s : AdmissionState) (ticket : ℕ) (counted : Bool)
    → queue_depth (Queue.drop_wait_guard s ticket counted) ≤ queue_depth s
unfolding Queue.drop_wait_guard
drop_wait_guard-depth s ticket counted =
    ground (arith, length-retain-le (λ w. not (is_ticket ticket w)) s.waiting)

drop_resource_guard-depth :
    (s : AdmissionState) (ticket : ℕ) (counted : Bool)
    → queue_depth (Queue.drop_resource_guard s ticket counted) ≤ queue_depth s
unfolding Queue.drop_resource_guard
drop_resource_guard-depth s ticket counted =
    ground (arith, length-retain-le (λ (t, at). not (t == ticket)) s.resource_waiting)

after_attempt-depth :
    (permits : List ℕ) (ticket : ℕ) (r : AdmissionState × Attempt)
    → queue_depth (after_attempt permits ticket r).state ≤ queue_depth r.0
unfolding after_attempt
after_attempt-depth permits ticket (s, acquired units) = drop_wait_guard-depth s ticket false
after_attempt-depth permits ticket (s, expired) = drop_wait_guard-depth s ticket false
after_attempt-depth permits ticket (s, pending b) = omega arith
after_attempt-depth permits ticket (s, panicked) = omega arith

hand_off-depth :
    (s : AdmissionState) (ticket cost : ℕ) (priority : TaskPriority) (now : ℕ)
    → any (is_resource_ticket ticket) s.resource_waiting ≡ true
    → queue_depth (Queue.hand_off s ticket cost priority now) ≤ queue_depth s
unfolding Queue.hand_off
hand_off-depth s ticket cost priority now there = omega (
  arith,
  length-append s.waiting (Queue.new_waiter ticket cost priority now ∷ []),
  length-retain-lt (is_resource_ticket ticket) s.resource_waiting there,
  length-retain-le (λ (t, at). not (t == ticket))
      (retain (λ (t, at). not (t == ticket)) s.resource_waiting),
)

enqueue-depth :
    (s : AdmissionState) (now deadline cost : ℕ) (priority : TaskPriority)
    → queue_depth (Queue.enqueue s now deadline cost priority).0 ≤ max (queue_depth s) s.max_waiters
unfolding Queue.enqueue
enqueue-depth s now deadline cost priority =
    ground (arith, length-append s.waiting (Queue.new_waiter s.next_ticket cost priority now ∷ []))

register-depth :
    (s : AdmissionState) (now : ℕ)
    → queue_depth (Queue.register_resource_waiter s now).0 ≤ max (queue_depth s) s.max_waiters
unfolding Queue.register_resource_waiter
register-depth s now = ground (arith, length-append s.resource_waiting ((s.next_ticket, now) ∷ []))

wait_timed_out-depth :
    (s : AdmissionState) (ticket : ℕ) → queue_depth (Queue.wait_timed_out s ticket) ≤ queue_depth s
unfolding Queue.wait_timed_out
wait_timed_out-depth s ticket = drop_wait_guard-depth (Queue.count_timeout s) ticket false

drop_permit-depth :
    (p : Pool) (index : ℕ)
    → queue_depth (drop_permit p index (get_elem? p.permits index)).state ≡ queue_depth p.state
unfolding drop_permit Queue.release
drop_permit-depth p index = ground arith

-- An event lets the queue grow only up to the limit on waiters that is in force: moving a resource
-- waiter to the slot queue never needs a place beyond its own.
step-depth :
    (p : Pool) (e : Event)
    → queue_depth (step p e).state ≤ max (queue_depth p.state) p.state.max_waiters
unfolding step
step-depth p (arrives now deadline cost priority) = enqueue-depth p.state now deadline cost priority
step-depth p (tries now deadline ticket) = omega (
  arith,
  after_attempt-depth p.permits ticket (Queue.attempt p.state now deadline ticket),
  attempt-depth p.state now deadline ticket,
)
step-depth p (times_out ticket) = omega (arith, wait_timed_out-depth p.state ticket)
step-depth p (cancels ticket) = omega (arith, drop_wait_guard-depth p.state ticket true)
step-depth p (finishes index) = omega (arith, drop_permit-depth p index)
step-depth p (registers now) = register-depth p.state now
step-depth p (hands_off ticket cost priority now) =
    elim (Bool-cases (any (is_resource_ticket ticket) p.state.resource_waiting)) [
      | inl e ↦ rw e (omega (arith, hand_off-depth p.state ticket cost priority now e))
      | inr e ↦ rw e (omega arith)
    ]
step-depth p (leaves ticket counted) =
    omega (arith, drop_resource_guard-depth p.state ticket counted)
step-depth p (limits limit) = unfold set_limit in ground arith
step-depth p (ceilings ceiling) = unfold set_ceiling in ground arith
step-depth p (allows n) = unfold set_max_waiters in omega arith
step-depth p transition_times_out = unfold record_transition_timeout in omega arith
