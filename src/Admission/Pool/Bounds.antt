-- ===== src/Admission/Pool/Bounds.antt =====
-- Capacity and queue bounds of a pool.
use free_llama.Base.{
  ℕ, ◌+◌, ◌≤◌, ◌<◌, ◌≡◌, refl, subst, ◌∙◌, ap, inl, inr, Bool, List, Option, none, some, arith,
  length, length-map, get_elem?, leb, Bool-cases, Option-cases, u64_max, saturating_add,
}
use free_llama.Admission.State.{AdmissionState, Waiter}
use free_llama.Admission.Select.{selected_waiter, record_capacity_bypasses}
use free_llama.Admission.Select.Choice.{Selects, selected_waiter-Selects}
use free_llama.Admission.Queue
use free_llama.Admission.Queue.{
  Attempt, acquired, expired, pending, panicked, is_ticket, is_granted, without_grant,
  select_if_free, grant_index, claim, claim_at,
}
use free_llama.Admission.Pool.Invariant.{Inv}

-- What the selection at the head of a round leaves alone.
pub record Same (s s' : AdmissionState) : Type 0 where
  pub active : s'.active ≡ s.active
  pub limit : s'.limit ≡ s.limit
  pub waiters : length s'.waiting ≡ length s.waiting
  pub resource_waiters : s'.resource_waiting ≡ s.resource_waiting
  pub max_waiters : s'.max_waiters ≡ s.max_waiters

Same-of_frame :
    (s s' : AdmissionState)
    → s' ≡ record_capacity_bypasses (record s { credits = s'.credits })
    → Same s s'
unfolding record_capacity_bypasses
Same-of_frame s s' e = record {
  active = ap (λ (t : AdmissionState). t.active) e;
  limit = ap (λ (t : AdmissionState). t.limit) e;
  waiters = ap (λ (t : AdmissionState). length t.waiting) e ∙ length-map s.waiting _;
  resource_waiters = ap (λ (t : AdmissionState). t.resource_waiting) e;
  max_waiters = ap (λ (t : AdmissionState). t.max_waiters) e;
}

Same-of_credits : (s s' : AdmissionState) → s' ≡ record s { credits = s'.credits } → Same s s'
Same-of_credits s s' e = record {
  active = ap (λ (t : AdmissionState). t.active) e;
  limit = ap (λ (t : AdmissionState). t.limit) e;
  waiters = ap (λ (t : AdmissionState). length t.waiting) e;
  resource_waiters = ap (λ (t : AdmissionState). t.resource_waiting) e;
  max_waiters = ap (λ (t : AdmissionState). t.max_waiters) e;
}

grant_index-Same :
    (s : AdmissionState) (r : AdmissionState × Option ℕ) → Selects s r → Same s (grant_index r).0
unfolding grant_index
grant_index-Same s (s', none) h = Same-of_credits s s' h
grant_index-Same s (s', some i) h = elim (Option-cases (get_elem? s'.waiting i)) [
  | inl e ↦ rw (e, grant_index) (Same-of_frame s s' h.frame)
  | inr (w, e) ↦ rw (e, grant_index) (granted w (Same-of_frame s s' h.frame))
]
  where
    granted : (w : Waiter) → Same s s' → Same s (record s' { granted = some w.ticket })
    granted w m = record {
      active = m.active;
      limit = m.limit;
      waiters = m.waiters;
      resource_waiters = m.resource_waiters;
      max_waiters = m.max_waiters;
    }

pub select_if_free-Same : (s : AdmissionState) → Same s (select_if_free s).0
unfolding select_if_free
select_if_free-Same s = elim (Option-cases s.granted) [
  | inl e ↦
      simp (e, select_if_free) (grant_index-Same s (selected_waiter s) (selected_waiter-Selects s))
  | inr (t, e) ↦ simp (e, select_if_free) (Same-of_credits s s refl)
]

claim_at_within :
    (s s' : AdmissionState) (selected : Bool) (units : ℕ) (found : Option (ℕ × Waiter))
    → s.limit ≤ u64_max
    → claim_at s selected found ≡ (s', acquired units)
    → (0 < units) × (s'.active ≡ s.active + units) × (s'.active ≤ s.limit)
unfolding claim_at saturating_add
claim_at_within s s' selected units none h e = cc
claim_at_within s s' selected units (some (i, w)) h e = ground arith

claim_within :
    (s s' : AdmissionState) (selected : Bool) (ticket units : ℕ)
    → s.limit ≤ u64_max
    → claim (s, selected) ticket ≡ (s', acquired units)
    → (0 < units) × (s'.active ≡ s.active + units) × (s'.active ≤ s.limit)
unfolding claim
claim_within s s' selected ticket units h e = elim (Bool-cases (is_granted s.granted ticket)) [
  | inl mine ↦ claim_at_within s s' selected units _ h (rw (mine, claim) at e)
  | inr other ↦ absurd_pending (rw (other, claim) at e)
]
  where
    absurd_pending :
        ◌≡◌ {A = AdmissionState × Attempt} (s, pending selected) (s', acquired units)
        → (0 < units) × (s'.active ≡ s.active + units) × (s'.active ≤ s.limit)
    absurd_pending e = ground arith

-- No overcommitment: a round that admits its task charges at least one unit, adds exactly that to
-- the active units, and leaves them within the current limit.
pub attempt-acquired :
    (s s' : AdmissionState) (permits : List ℕ) (now deadline ticket units : ℕ)
    → Inv s permits
    → Queue.attempt s now deadline ticket ≡ (s', acquired units)
    → (now < deadline) × (0 < units) × (s'.active ≡ s.active + units) × (s'.active ≤ s.limit)
unfolding Queue.attempt
attempt-acquired s s' permits now deadline ticket units v e = elim (Bool-cases (leb deadline now)) [
  | inl late ↦ absurd (expired_ne (rw (late, Queue.attempt) at e))
  | inr soon ↦
      let m = select_if_free-Same s in
      let (pos, more, within) =
        claim_within (select_if_free s).0 s' (select_if_free s).1 ticket units
          (omega (arith, m.limit, v.high, v.top)) (rw (soon, Queue.attempt) at e) in
      (
        ground arith,
        pos,
        more ∙ ap (λ k. k + units) m.active,
        subst (λ k. s'.active ≤ k) m.limit within,
      )
]
  where
    expired_ne :
        ◌≡◌ {A = AdmissionState × Attempt} (Queue.count_timeout s, expired) (s', acquired units) → ⊥
    expired_ne e = ground arith
