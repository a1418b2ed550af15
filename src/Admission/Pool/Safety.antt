-- ===== src/Admission/Pool/Safety.antt =====
-- What holds of a pool over every history of its lock.
use free_llama.Base.{
  ℕ, ◌≤◌, inl, inr, ◌≢◌, Bool, true, false, List, [], ◌∷◌, ◌++◌, Option, none, some, arith, All,
  get_elem?, any, Bool-cases, Option-cases, u64_max, Has-append_left,
}
use free_llama.Task.{TaskPriority}
use free_llama.Admission.State.{
  AdmissionState, Waiter, new, set_max_waiters, record_transition_timeout,
}
use free_llama.Admission.Queue
use free_llama.Admission.Queue.{
  Attempt, acquired, expired, pending, panicked, is_ticket, is_granted, without_grant,
}
use free_llama.Admission.Pool.{
  Pool, Event, arrives, tries, times_out, cancels, finishes, registers, hands_off, leaves, limits,
  ceilings, allows, transition_times_out, after_attempt, drop_permit, is_resource_ticket, step, run,
}
use free_llama.Admission.Pool.Invariant.{
  Inv, GrantWaits, granted_permits, new-Inv, set_limit-Inv, set_ceiling-Inv,
}
use free_llama.Admission.Pool.Rounds.{
  attempt-Inv, drop_wait_guard-Inv, wait_timed_out-Inv, release-Inv,
}

grows-GrantWaits :
    (g : Option ℕ) (ws : List Waiter) (w : Waiter) → GrantWaits g ws → GrantWaits g (ws ++ w ∷ [])
grows-GrantWaits none ws w h = tt
grows-GrantWaits (some t) ws w h = Has-append_left _ ws (w ∷ []) h

enqueue-Inv :
    (s : AdmissionState) (permits : List ℕ) (now deadline cost : ℕ) (priority : TaskPriority)
    → Inv s permits
    → Inv (Queue.enqueue s now deadline cost priority).0 permits
unfolding Queue.enqueue
enqueue-Inv s permits now deadline cost priority v = ground (
  arith,
  grows-GrantWaits s.granted s.waiting (Queue.new_waiter s.next_ticket cost priority now) v.grant,
)

register-Inv :
    (s : AdmissionState) (permits : List ℕ) (now : ℕ)
    → Inv s permits
    → Inv (Queue.register_resource_waiter s now).0 permits
unfolding Queue.register_resource_waiter
register-Inv s permits now v = ground arith

drop_resource_guard-Inv :
    (s : AdmissionState) (permits : List ℕ) (ticket : ℕ) (counted : Bool)
    → Inv s permits
    → Inv (Queue.drop_resource_guard s ticket counted) permits
unfolding Queue.drop_resource_guard
drop_resource_guard-Inv s permits ticket counted v = ground arith

hand_off-Inv :
    (s : AdmissionState) (permits : List ℕ) (ticket cost : ℕ) (priority : TaskPriority) (now : ℕ)
    → Inv s permits
    → Inv (Queue.hand_off s ticket cost priority now) permits
unfolding Queue.hand_off
hand_off-Inv s permits ticket cost priority now v = ground (
  arith,
  grows-GrantWaits s.granted s.waiting (Queue.new_waiter ticket cost priority now) v.grant,
)

record_timeout-Inv :
    (s : AdmissionState) (permits : List ℕ)
    → Inv s permits
    → Inv (record_transition_timeout s) permits
unfolding record_transition_timeout
record_timeout-Inv s permits v = ground arith

set_max_waiters-Inv :
    (s : AdmissionState) (permits : List ℕ) (n : ℕ)
    → Inv s permits
    → Inv (set_max_waiters s n) permits
unfolding set_max_waiters
set_max_waiters-Inv s permits n v = ground arith

abbrev pub PoolInv : Pool → Type 0
PoolInv p = Inv p.state p.permits

after_attempt-Inv :
    (permits : List ℕ) (ticket : ℕ) (r : AdmissionState × Attempt)
    → Inv r.0 (granted_permits permits r.1)
    → PoolInv (after_attempt permits ticket r)
unfolding after_attempt
after_attempt-Inv permits ticket (s, acquired units) v = drop_wait_guard-Inv s _ ticket false v
after_attempt-Inv permits ticket (s, expired) v = drop_wait_guard-Inv s _ ticket false v
after_attempt-Inv permits ticket (s, pending b) v = v
after_attempt-Inv permits ticket (s, panicked) v = v

drop_permit-Inv :
    (p : Pool) (index : ℕ) → PoolInv p → PoolInv (drop_permit p index (get_elem? p.permits index))
unfolding drop_permit
drop_permit-Inv p index v = elim (Option-cases (get_elem? p.permits index)) [
  | inl e ↦ rw (e, drop_permit) v
  | inr (units, e) ↦ rw (e, drop_permit) (release-Inv p.state p.permits index units e v)
]

-- An event of the program: a configured ceiling is a `usize`.
abbrev pub IsWord : Event → Type 0
IsWord (ceilings ceiling) = ceiling ≤ u64_max
IsWord _ = Unit

pub step-Inv : (p : Pool) (e : Event) → IsWord e → PoolInv p → PoolInv (step p e)
unfolding step
step-Inv p (arrives now deadline cost priority) h v =
    enqueue-Inv p.state p.permits now deadline cost priority v
step-Inv p (tries now deadline ticket) h v =
    after_attempt-Inv p.permits ticket _ (attempt-Inv p.state p.permits now deadline ticket v).0
step-Inv p (times_out ticket) h v = wait_timed_out-Inv p.state p.permits ticket v
step-Inv p (cancels ticket) h v = drop_wait_guard-Inv p.state p.permits ticket true v
step-Inv p (finishes index) h v = drop_permit-Inv p index v
step-Inv p (registers now) h v = register-Inv p.state p.permits now v
step-Inv p (hands_off ticket cost priority now) h v =
    elim (Bool-cases (any (is_resource_ticket ticket) p.state.resource_waiting)) [
      | inl e ↦ rw e (hand_off-Inv p.state p.permits ticket cost priority now v)
      | inr e ↦ rw e v
    ]
step-Inv p (leaves ticket counted) h v = drop_resource_guard-Inv p.state p.permits ticket counted v
step-Inv p (limits limit) h v = set_limit-Inv p.state p.permits limit v
step-Inv p (ceilings ceiling) h v = set_ceiling-Inv p.state p.permits ceiling h v
step-Inv p (allows n) h v = set_max_waiters-Inv p.state p.permits n v
step-Inv p transition_times_out h v = record_timeout-Inv p.state p.permits v

run-Inv : (p : Pool) (es : List Event) → All IsWord es → PoolInv p → PoolInv (run p es)
unfolding run
run-Inv p [] h v = v
run-Inv p (e ∷ es) h v = run-Inv (step p e) es h.1 (step-Inv p e h.0 v)

abbrev pub fresh : ℕ → ℕ → Pool
fresh total max_waiters = record { state = new total max_waiters; permits = [] }

-- In every history of a new pool, the active units are exactly the charges of the permits that are
-- alive, `in_flight` is their number, each holds a unit at least, the limit lies between 1 and the
-- ceiling, a chosen waiter is still in the queue, no class has more credits than its weight, and
-- until the counter saturates, `admitted` is `released` plus `in_flight`.
pub run-fresh-Inv :
    (total max_waiters : ℕ) (es : List Event)
    → total ≤ u64_max
    → All IsWord es
    → PoolInv (run (fresh total max_waiters) es)
run-fresh-Inv total max_waiters es h w =
    run-Inv (fresh total max_waiters) es w (new-Inv total max_waiters h)

-- In every history of a new pool, no round of a waiter meets the panic of a granted waiter that has
-- left the queue.
pub run-attempt-ne-panicked :
    (total max_waiters : ℕ) (es : List Event) (now deadline ticket : ℕ)
    → total ≤ u64_max
    → All IsWord es
    → (Queue.attempt (run (fresh total max_waiters) es).state now deadline ticket).1 ≢ panicked
run-attempt-ne-panicked total max_waiters es now deadline ticket h w =
    (attempt-Inv _ _ now deadline ticket (run-fresh-Inv total max_waiters es h w)).1
