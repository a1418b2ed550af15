-- ===== src/Runtime/Adaptive/Limits.antt =====
-- How far one completion moves the limit (platform/runtime/adaptive.rs, `observe`).
use free_llama.Base.{
  Bool-cases, sym, ◌∙◌, ◌&&◌, ℕ, ◌+◌, ◌/◌, ◌≤◌, ◌<◌, ◌≡◌, refl, max, inl, inr, true, Option, none,
  some, arith, Option-cases, ltb, leb,
}
use free_llama.Runtime.Profile.{
  Rates, AdaptiveState, Reason, Completion, ExecutionProfile, ThroughputMetric,
}
use free_llama.Runtime.Adaptive.{
  is_recent, Change, decrease, increase, reduce, raise, accept, observe, valid_metric, reason_of,
}
use free_llama.Admission.State.{AdmissionState, set_limit}

-- The limit stays, is halved from two or more on, or goes up by one below the ceiling; and the
-- report says which.
pub data Moves (pool pool' : AdmissionState) : Option Change → Type 0 where
  stays : pool'.limit ≡ pool.limit → Moves pool pool' none
  halves :
      (next : ℕ)
      → next ≡ pool.limit / 2
      → 2 ≤ pool.limit
      → pool'.limit ≡ next
      → Moves pool pool' (some (decrease next))
  grows :
      (next : ℕ)
      → next ≡ pool.limit + 1
      → next ≤ pool.ceiling
      → pool'.limit ≡ next
      → Moves pool pool' (some (increase next))

set_limit_moved :
    (pool : AdmissionState) (limit : ℕ)
    → 0 < limit
    → limit ≤ pool.ceiling
    → ((set_limit pool limit).1 ≡ limit) × ((set_limit pool limit).0.limit ≡ limit)
unfolding set_limit
set_limit_moved pool limit pos small = ground arith

reduce-Moves :
    (rates : Rates) (state : AdaptiveState rates) (pool : AdmissionState) (reason : Reason rates)
    (now : ℕ)
    → 0 < pool.limit
    → pool.limit ≤ pool.ceiling
    → let (state', pool', change) = reduce rates state pool reason now in Moves pool pool' change
unfolding reduce
reduce-Moves rates state pool reason now low high =
    let (told, moved) = set_limit_moved pool (max (pool.limit / 2) 1) (omega arith) (omega arith) in
    elim (Bool-cases (is_recent state.last_decrease now)) [
      | inl e ↦ rw e (stays refl)
      | inr e ↦ elim (Bool-cases (ltb (set_limit pool (max (pool.limit / 2) 1)).1 pool.limit)) [
        | inl less ↦ rw (e, less) (halves _ (ground arith) (ground arith) (moved ∙ sym told))
        | inr not_less ↦ rw (e, not_less) (stays (ground arith))
      ]
    ]

raise-Moves :
    (rates : Rates) (state : AdaptiveState rates) (pool : AdmissionState)
    → let (state', pool', change) = raise rates state pool in Moves pool pool' change
unfolding raise
raise-Moves rates state pool =
    elim (Bool-cases (leb 5 state.healthy_streak && ltb pool.limit pool.ceiling)) [
      | inr e ↦ rw e (stays refl)
      | inl e ↦
          let room : pool.limit < pool.ceiling = ground arith in
          let (told, moved) = set_limit_moved pool (pool.limit + 1) (omega arith) (omega arith) in
          let more : ltb pool.limit (set_limit pool (pool.limit + 1)).1 ≡ true = ground arith in
          rw (e, more) (grows _ told (omega arith) (moved ∙ sym told))
    ]

accept-Moves :
    (rates : Rates) (state : AdaptiveState rates) (pool : AdmissionState)
    (profile : Option ExecutionProfile) (metric : Option (ThroughputMetric rates))
    → let (state', pool', change) = accept rates state pool profile metric in
      Moves pool pool' change
unfolding accept
accept-Moves rates state pool none metric = stays refl
accept-Moves rates state pool (some profile) metric =
    elim (Option-cases (valid_metric rates profile metric)) [
      | inl e ↦ rw (e, accept) (stays refl)
      | inr (m, e) ↦ rw (e, accept) (raise-Moves rates _ pool)
    ]

-- Where the limit lies between 1 and the ceiling, one completion leaves it as it is, halves it where
-- it is two or more, or raises it by one below the ceiling, and the report names exactly that
-- change.
observe-Moves :
    (rates : Rates) (state : AdaptiveState rates) (pool : AdmissionState) (seen : Completion rates)
    (now : ℕ)
    → 0 < pool.limit
    → pool.limit ≤ pool.ceiling
    → let (state', pool', change) = observe rates state pool seen now in Moves pool pool' change
unfolding observe
observe-Moves rates state pool seen now low high =
    elim (Option-cases (reason_of rates state seen)) [
      | inl e ↦ rw (e, observe) (accept-Moves rates state pool seen.profile seen.metric)
      | inr (reason, e) ↦ rw (e, observe) (reduce-Moves rates state pool reason now low high)
    ]
