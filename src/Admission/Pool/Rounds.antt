-- ===== src/Admission/Pool/Rounds.antt =====
-- The invariant across a round of `acquire_registered`, and across the guards.
use free_llama.Base.{
  ℕ, ◌≡◌, inl, inr, ◌≢◌, Bool, true, false, List, Option, none, some, arith, length, get_elem?,
  remove_at, retain, not, leb, ltb, ◌==◌, ◌&&◌, Bool-cases, saturating_add, Has-retain,
  length-remove_at, sum-remove_at, All-remove_at, get_elem?-lt,
}
use free_llama.Admission.State.{AdmissionState, Waiter}
use free_llama.Admission.Queue
use free_llama.Admission.Queue.{
  Attempt, acquired, expired, pending, panicked, is_ticket, is_granted, without_grant,
  select_if_free, claim,
}
use free_llama.Admission.Pool.Invariant.{
  Inv, GrantWaits, requeue-Inv, select_if_free-Inv, find_ticket, claim_at-Inv, granted_permits,
}

claim_at_not_panicked :
    (s : AdmissionState) (selected : Bool) (i : ℕ) (w : Waiter)
    → (Queue.claim_at s selected (some (i, w))).1 ≢ panicked
unfolding Queue.claim_at
claim_at_not_panicked s selected i w = ground arith

-- A round of a waiter that may hold the grant.
claim-Inv :
    (s : AdmissionState) (permits : List ℕ) (selected : Bool) (ticket : ℕ)
    → Inv s permits
    → let (s', r) = claim (s, selected) ticket in
      Inv s' (granted_permits permits r) × (r ≢ panicked)
unfolding claim
claim-Inv s permits selected ticket v = elim (Bool-cases (is_granted s.granted ticket)) [
  | inl mine ↦
      let (i, w, found) = find_ticket s ticket v.grant mine in
      rw (mine, found, claim)
        (claim_at-Inv s permits selected i w v, claim_at_not_panicked s selected i w)
  | inr other ↦ rw (other, claim) (v, λ e. cc)
]

-- The clock of a waiter that is not granted may run out at any time.
count_timeout-Inv :
    (s : AdmissionState) (permits : List ℕ) → Inv s permits → Inv (Queue.count_timeout s) permits
count_timeout-Inv s permits v = ground arith

pub attempt-Inv :
    (s : AdmissionState) (permits : List ℕ) (now deadline ticket : ℕ)
    → Inv s permits
    → let (s', r) = Queue.attempt s now deadline ticket in
      Inv s' (granted_permits permits r) × (r ≢ panicked)
unfolding Queue.attempt
attempt-Inv s permits now deadline ticket v = elim (Bool-cases (leb deadline now)) [
  | inl late ↦ rw (late, Queue.attempt) (count_timeout-Inv s permits v, λ e. cc)
  | inr soon ↦
      rw (soon, Queue.attempt)
        (claim-Inv (select_if_free s).0 permits (select_if_free s).1 ticket
          (select_if_free-Inv s permits v))
]

without-GrantWaits :
    (granted : Option ℕ) (ws : List Waiter) (ticket : ℕ)
    → GrantWaits granted ws
    → GrantWaits (without_grant granted ticket) (retain (λ w. not (is_ticket ticket w)) ws)
without-GrantWaits none ws ticket h = tt
without-GrantWaits (some t) ws ticket h = elim (Bool-cases (t == ticket)) [
  | inl mine ↦ rw mine tt
  | inr other ↦ rw other (Has-retain _ _ (λ (w : Waiter) e. differs w.ticket e other) ws h)
]
  where
    differs : (a : ℕ) → a ≡ t → (t == ticket) ≡ false → not (a == ticket) ≡ true
    differs a e other = ground arith

pub leave_queue-Inv :
    (s : AdmissionState) (permits : List ℕ) (ticket : ℕ)
    → Inv s permits
    → Inv (Queue.leave_queue s ticket) permits
leave_queue-Inv s permits ticket v =
    requeue-Inv s permits s.credits _ _ v v.weights
      (without-GrantWaits s.granted s.waiting ticket v.grant)

-- Counters that no other field depends on.
count_cancellation-Inv :
    (s : AdmissionState) (permits : List ℕ)
    → Inv s permits
    → Inv (Queue.count_cancellation s) permits
count_cancellation-Inv s permits v = ground arith

pub drop_wait_guard-Inv :
    (s : AdmissionState) (permits : List ℕ) (ticket : ℕ) (counted : Bool)
    → Inv s permits
    → Inv (Queue.drop_wait_guard s ticket counted) permits
unfolding Queue.drop_wait_guard
drop_wait_guard-Inv s permits ticket counted v =
    elim (Bool-cases
      (counted && ltb (length (Queue.leave_queue s ticket).waiting) (length s.waiting))) [
        | inl e ↦ rw e (count_cancellation-Inv _ permits (leave_queue-Inv s permits ticket v))
        | inr e ↦ rw e (leave_queue-Inv s permits ticket v)
      ]

pub wait_timed_out-Inv :
    (s : AdmissionState) (permits : List ℕ) (ticket : ℕ)
    → Inv s permits
    → Inv (Queue.wait_timed_out s ticket) permits
unfolding Queue.wait_timed_out
wait_timed_out-Inv s permits ticket v =
    drop_wait_guard-Inv _ permits ticket false (count_timeout-Inv s permits v)

pub release-Inv :
    (s : AdmissionState) (permits : List ℕ) (index units : ℕ)
    → get_elem? permits index ≡ some units
    → Inv s permits
    → Inv (Queue.release s units) (remove_at permits index)
unfolding Queue.release saturating_add
release-Inv s permits index units e v =
    let total = sum-remove_at permits index units e in
    let count = length-remove_at permits index (get_elem?-lt permits index units e) in
    record {
      units = omega (arith, v.units, total);
      held = omega (arith, v.held, count);
      positive = All-remove_at _ permits index v.positive;
      low = v.low;
      high = v.high;
      top = v.top;
      word = omega (arith, v.word);
      grant = v.grant;
      weights = v.weights;
      accounts = ground (arith, v.accounts, v.held, count);
    }
