-- ===== src/Admission/Pool/Invariant.antt =====
-- What holds of a pool between two critical sections.
use free_llama.Base.{
  ℕ, ◌+◌, ◌-◌, ◌≤◌, ◌<◌, ◌≡◌, refl, sym, subst, ◌∙◌, ap, ◌⊎◌, inl, inr, Bool, true, List, [], ◌∷◌,
  map, Option, none, some, arith, length, sum, All, Has, get_elem?, find_index, ◌==◌, Option-cases,
  u64_max, saturating_add, Has-get, Has-imp, find_index_complete, length-le-sum, get_elem?-map,
}
use free_llama.Admission.State.{AdmissionState, Waiter, Credits, new, set_limit, set_ceiling, free}
use free_llama.Admission.Select.{selected_waiter, record_capacity_bypasses, record_bypass}
use free_llama.Admission.Select.Choice.{Selects, selected_waiter-Selects}
use free_llama.Admission.Select.Starvation.{WithinWeights, selected_waiter-WithinWeights}
use free_llama.Admission.Queue
use free_llama.Admission.Queue.{
  Attempt, acquired, expired, pending, panicked, is_ticket, is_granted,
}

-- A waiter that has been chosen is in the queue.
abbrev pub GrantWaits : Option ℕ → List Waiter → Type 0
GrantWaits none ws = Unit
GrantWaits (some ticket) ws = Has (λ w. w.ticket ≡ ticket) ws

pub record Inv (s : AdmissionState) (permits : List ℕ) : Type 0 where
  pub units : s.active ≡ sum permits
  pub held : s.in_flight ≡ length permits
  pub positive : All (λ u. 0 < u) permits
  pub low : 0 < s.limit
  pub high : s.limit ≤ s.ceiling
  pub top : s.ceiling ≤ u64_max
  pub word : s.active ≤ u64_max
  pub grant : GrantWaits s.granted s.waiting
  pub weights : WithinWeights s.credits
  pub accounts : (u64_max ≤ s.admitted) ⊎ (s.admitted ≡ s.released + s.in_flight)

pub new-Inv : (total max_waiters : ℕ) → total ≤ u64_max → Inv (new total max_waiters) []
unfolding new
new-Inv total max_waiters h = ground arith

pub set_limit-Inv :
    (s : AdmissionState) (permits : List ℕ) (limit : ℕ)
    → Inv s permits
    → Inv (set_limit s limit).0 permits
unfolding set_limit
set_limit-Inv s permits limit v = ground arith

pub set_ceiling-Inv :
    (s : AdmissionState) (permits : List ℕ) (ceiling : ℕ)
    → ceiling ≤ u64_max
    → Inv s permits
    → Inv (set_ceiling s ceiling) permits
unfolding set_ceiling
set_ceiling-Inv s permits ceiling h v = ground arith

-- A change of the queue, the credits and the grant.
pub requeue-Inv :
    (s : AdmissionState) (permits : List ℕ) (c : Credits) (ws : List Waiter) (g : Option ℕ)
    → Inv s permits
    → WithinWeights c
    → GrantWaits g ws
    → Inv (record s { credits = c; waiting = ws; granted = g }) permits
requeue-Inv s permits c ws g v k h = record {
  units = v.units;
  held = v.held;
  positive = v.positive;
  low = v.low;
  high = v.high;
  top = v.top;
  word = v.word;
  grant = h;
  weights = k;
  accounts = v.accounts;
}

grant_index-Inv :
    (s : AdmissionState) (permits : List ℕ) (r : AdmissionState × Option ℕ)
    → s.granted ≡ none
    → Selects s r
    → WithinWeights r.0.credits
    → Inv s permits
    → Inv (Queue.grant_index r).0 permits
unfolding Queue.grant_index record_capacity_bypasses
grant_index-Inv s permits (s', none) free h k v =
    rw h (requeue-Inv s permits s'.credits s.waiting s.granted v k v.grant)
grant_index-Inv s permits (s', some i) free h k v =
    let moved : Inv s' permits =
      subst (λ t. Inv t permits) (sym h.frame)
        (requeue-Inv s permits s'.credits
          (map (record_bypass (s.limit - s.active) s.limit) s.waiting) s.granted v k
          (rw free tt)) in
    let there =
      ap (λ (t : AdmissionState). get_elem? t.waiting i) h.frame
      ∙ get_elem?-map (record_bypass (s.limit - s.active) s.limit) s.waiting i h.waiter h.found in
    rw (there, Queue.grant_index)
      (requeue-Inv s' permits s'.credits s'.waiting _ moved k (Has-get _ s'.waiting i _ there refl))

pub select_if_free-Inv :
    (s : AdmissionState) (permits : List ℕ) → Inv s permits → Inv (Queue.select_if_free s).0 permits
unfolding Queue.select_if_free
select_if_free-Inv s permits v = elim (Option-cases s.granted) [
  | inl free ↦
      rw (free, Queue.select_if_free)
        (grant_index-Inv s permits (selected_waiter s) free (selected_waiter-Selects s)
          (selected_waiter-WithinWeights s v.weights) v)
  | inr (t, taken) ↦ rw (taken, Queue.select_if_free) v
]

pub find_ticket :
    (s : AdmissionState) (ticket : ℕ)
    → GrantWaits s.granted s.waiting
    → is_granted s.granted ticket ≡ true
    → (i : ℕ) × (w : Waiter) × (find_index (is_ticket ticket) s.waiting ≡ some (i, w))
find_ticket s ticket h g = find_index_complete (is_ticket ticket) s.waiting (mine s.granted h g)
  where
    mine :
        (granted : Option ℕ)
        → GrantWaits granted s.waiting
        → is_granted granted ticket ≡ true
        → Has (λ w. is_ticket ticket w ≡ true) s.waiting
    mine none h g = cc
    mine (some t) h g = Has-imp _ _ (λ (w : Waiter) e. same w.ticket t e g) s.waiting h
      where
        same : (a t : ℕ) → a ≡ t → (t == ticket) ≡ true → (a == ticket) ≡ true
        same a t e g = ground arith

-- What a round leaves behind: the permits with the one that it hands out.
abbrev pub granted_permits : List ℕ → Attempt → List ℕ
granted_permits permits (acquired units) = units ∷ permits
granted_permits permits _ = permits

pub claim_at-Inv :
    (s : AdmissionState) (permits : List ℕ) (selected : Bool) (i : ℕ) (w : Waiter)
    → Inv s permits
    → let (s', r) = Queue.claim_at s selected (some (i, w)) in Inv s' (granted_permits permits r)
unfolding Queue.claim_at saturating_add
claim_at-Inv s permits selected i w v = ground (arith, length-le-sum permits v.positive)
