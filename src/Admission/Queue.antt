-- ===== src/Admission/Queue.antt =====
-- The critical sections of waiting for and holding a permit (platform/admission.rs: `acquire`,
-- `acquire_registered`, `register_resource_waiter`, the guards and the permit's drop).
use free_llama.Base.{
  get_elem?, ℕ, ◌-◌, Bool, true, false, [], ◌∷◌, ◌++◌, Option, none, some, length, retain,
  remove_at, find_index, leb, ltb, ◌==◌, not, ◌&&◌, if◌then◌else◌, u64_max, saturating_add,
  wrapping_add,
}
use free_llama.Task.{TaskPriority}
use free_llama.Admission.State.{AdmissionState, Waiter, queue_depth, charge}
use free_llama.Admission.Select.{selected_waiter, fits}

pub data AdmissionFailure : Type 0 where
  queue_full timed_out : AdmissionFailure

-- `Result<A, AdmissionFailure>`.
pub data Admitted {ℓ} (A : Type ℓ) : Type ℓ where
  ok : A → Admitted A
  err : AdmissionFailure → Admitted A

abbrev pub count_timeout : AdmissionState → AdmissionState
count_timeout s = record s { queue_timeouts = saturating_add u64_max s.queue_timeouts 1 }

abbrev pub count_rejection : AdmissionState → AdmissionState
count_rejection s = record s {
  queue_full_rejections = saturating_add u64_max s.queue_full_rejections 1;
}

abbrev pub count_cancellation : AdmissionState → AdmissionState
count_cancellation s = record s {
  queue_cancellations = saturating_add u64_max s.queue_cancellations 1;
}

abbrev pub new_waiter : ℕ → ℕ → TaskPriority → ℕ → Waiter
new_waiter ticket cost priority queued = record {
  ticket = ticket;
  cost = cost;
  priority = priority;
  enqueued_at = queued;
  bypasses = 0;
}

push_waiter : AdmissionState → ℕ → TaskPriority → ℕ → AdmissionState
push_waiter s cost priority now = record s {
  next_ticket = wrapping_add u64_max s.next_ticket 1;
  waiting = s.waiting ++ new_waiter s.next_ticket cost priority now ∷ [];
}

-- The first critical section of `acquire`: a place in the queue, or an error at once.
unfoldable pub enqueue : AdmissionState → ℕ → ℕ → ℕ → TaskPriority → AdmissionState × Admitted ℕ
unfolding push_waiter
enqueue s now deadline cost priority =
    if leb deadline now
    then (count_timeout s, err timed_out)
    else if leb s.max_waiters (queue_depth s)
    then (count_rejection s, err queue_full)
    else (push_waiter s cost priority now, ok s.next_ticket)

abbrev pub is_ticket : ℕ → Waiter → Bool
is_ticket ticket w = w.ticket == ticket

abbrev pub is_granted : Option ℕ → ℕ → Bool
is_granted none ticket = false
is_granted (some t) ticket = t == ticket

-- A round of the loop of `acquire_registered`, up to its end or its wait.
pub data Attempt : Type 0 where
  expired : Attempt
  acquired : ℕ → Attempt  -- the units charged
  pending : Bool → Attempt  -- whether this round selected a waiter, who is to be woken
  panicked : Attempt  -- `expect("granted admission waiter must remain queued")`

-- `state.granted = Some(state.waiting[index].ticket)`.
unfoldable pub grant_to : AdmissionState → Option Waiter → AdmissionState × Bool
grant_to s none = (s, false)
grant_to s (some w) = (record s { granted = some w.ticket }, true)

unfoldable pub grant_index : AdmissionState × Option ℕ → AdmissionState × Bool
unfolding grant_to
grant_index (s, none) = (s, false)
grant_index (s, some index) = grant_to s (get_elem? s.waiting index)

-- A new selection, unless a grant is still to be claimed.
unfoldable pub select_if_free : AdmissionState → AdmissionState × Bool
select_if_free s = elim s.granted [ some _ ↦ (s, false) | none ↦ grant_index (selected_waiter s) ]

-- The charge of the waiter at `index`, whose grant is given up again if it no longer fits.
unfoldable pub claim_at : AdmissionState → Bool → Option (ℕ × Waiter) → AdmissionState × Attempt
claim_at s selected none = (s, panicked)
claim_at s selected (some (index, w)) =
    if fits s w
    then (
      record s {
        waiting = remove_at s.waiting index;
        active = saturating_add u64_max s.active (charge s w.cost);
        in_flight = saturating_add u64_max s.in_flight 1;
        admitted = saturating_add u64_max s.admitted 1;
        granted = none;
      },
      acquired (charge s w.cost),
    )
    else (s, pending selected)

unfoldable pub claim : AdmissionState × Bool → ℕ → AdmissionState × Attempt
claim (s, selected) ticket =
    if is_granted s.granted ticket
    then claim_at s selected (find_index (is_ticket ticket) s.waiting)
    else (s, pending selected)

unfoldable pub attempt : AdmissionState → ℕ → ℕ → ℕ → AdmissionState × Attempt
attempt s now deadline ticket =
    if leb deadline now then (count_timeout s, expired) else claim (select_if_free s) ticket

-- The end of a waiter: `AdmissionWaitGuard::drop`.
abbrev pub without_grant : Option ℕ → ℕ → Option ℕ
without_grant granted ticket = if is_granted granted ticket then none else granted

abbrev pub leave_queue : AdmissionState → ℕ → AdmissionState
leave_queue s ticket = record s {
  waiting = retain (λ w. not (is_ticket ticket w)) s.waiting;
  granted = without_grant s.granted ticket;
}

unfoldable pub drop_wait_guard : AdmissionState → ℕ → Bool → AdmissionState
drop_wait_guard s ticket counted =
    let s' = leave_queue s ticket in
    if counted && ltb (length s'.waiting) (length s.waiting) then count_cancellation s' else s'

-- The timeout of the wait at the end of a round, with the guard that it drops.
unfoldable pub wait_timed_out : AdmissionState → ℕ → AdmissionState
unfolding drop_wait_guard
wait_timed_out s ticket = drop_wait_guard (count_timeout s) ticket false

-- `AdmissionPermit::drop`.
unfoldable pub release : AdmissionState → ℕ → AdmissionState
release s units = record s {
  active = s.active - units;
  in_flight = s.in_flight - 1;
  released = saturating_add u64_max s.released 1;
}

unfoldable pub register_resource_waiter : AdmissionState → ℕ → AdmissionState × Admitted ℕ
register_resource_waiter s now =
    if leb s.max_waiters (queue_depth s) then (count_rejection s, err queue_full) else (
      record s {
        next_ticket = wrapping_add u64_max s.next_ticket 1;
        resource_waiting = s.resource_waiting ++ (s.next_ticket, now) ∷ [];
      },
      ok s.next_ticket,
    )

abbrev pub leave_resource_queue : AdmissionState → ℕ → AdmissionState
leave_resource_queue s ticket = record s {
  resource_waiting = retain (λ (t, at). not (t == ticket)) s.resource_waiting;
}

-- `ResourceWaitGuard::drop`.
unfoldable pub drop_resource_guard : AdmissionState → ℕ → Bool → AdmissionState
drop_resource_guard s ticket counted =
    let s' = leave_resource_queue s ticket in if counted then count_cancellation s' else s'

-- `ResourceWaitGuard::acquire`: the registration moves to the slot queue, and its old guard is
-- dropped uncounted.
unfoldable pub hand_off : AdmissionState → ℕ → ℕ → TaskPriority → ℕ → AdmissionState
unfolding drop_resource_guard
hand_off s ticket cost priority now =
    let s' = leave_resource_queue s ticket in
    drop_resource_guard
      (record s' { waiting = s'.waiting ++ new_waiter ticket cost priority now ∷ [] }) ticket false
