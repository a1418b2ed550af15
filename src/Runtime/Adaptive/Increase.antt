-- ===== src/Runtime/Adaptive/Increase.antt =====
-- What has to come before a higher limit (platform/runtime/adaptive.rs).
use free_llama.Base.{
  ◌≢◌, ℕ, ◌≤◌, ◌≡◌, refl, ◌∙◌, ap, false, List, ◌∷◌, Option, none, some, String, arith,
  Option-cases, Bool-cases, inl, inr,
}
use free_llama.Runtime.Profile.{
  Rates, AdaptiveState, Reason, Completion, ExecutionProfile, ThroughputMetric,
}
use free_llama.Runtime.Adaptive.{
  increase, reduce, raise, accept, observe, valid_metric, count_healthy, reason_of, is_last, slow,
}
use free_llama.Admission.State.{AdmissionState}
use free_llama.Runtime.Adaptive.Healthy.{
  Entry, seen, healthy, healthy_id, no_reason, no_slow, healthy_id-some,
}
use free_llama.Runtime.Adaptive.Streak.{
  in_a_row, after, row_of, Counted, count_healthy-Counted, after-Counted, is_last-eq,
}

raise-increase :
    (rates : Rates) (state : AdaptiveState rates) (pool : AdmissionState) (next : ℕ)
    → (raise rates state pool).2 ≡ some (increase next)
    → 5 ≤ state.healthy_streak
unfolding raise
raise-increase rates state pool next e = ground arith

reduce-increase :
    (rates : Rates) (state : AdaptiveState rates) (pool : AdmissionState) (reason : Reason rates)
    (now next : ℕ)
    → (reduce rates state pool reason now).2 ≢ some (increase next)
unfolding reduce
reduce-increase rates state pool reason now next = ground arith

count_healthy-last :
    (rates : Rates) (state : AdaptiveState rates) (profile : ExecutionProfile) (tps : rates.F)
    → (count_healthy rates state profile tps).last_profile ≡ some profile.id
unfolding count_healthy
count_healthy-last rates state profile tps =
    elim (Bool-cases (is_last state.last_profile profile.id)) [
      | inl e ↦ rw e (is_last-eq state.last_profile profile.id e)
      | inr e ↦ rw e refl
    ]

accept-increase :
    (rates : Rates) (start state : AdaptiveState rates) (pool : AdmissionState) (now next : ℕ)
    (c : Completion rates) (past : List (Entry rates)) (profile : Option ExecutionProfile)
    (metric : Option (ThroughputMetric rates))
    → healthy rates (after rates start past) (seen pool now c)
      ≡ healthy_id rates state false profile metric
    → slow rates state metric profile ≡ none
    → Counted rates start state past
    → (accept rates state pool profile metric).2 ≡ some (increase next)
    → (id : String) × (healthy rates (after rates start past) (seen pool now c) ≡ some id)
      × (5 ≤ in_a_row rates start id (seen pool now c ∷ past))
unfolding accept
accept-increase rates start state pool now next c past none metric h s v = λ e. cc
accept-increase rates start state pool now next c past (some profile) metric h s v =
    elim (Option-cases (valid_metric rates profile metric)) [
      | inl f ↦ rw (f, accept) (λ e. cc)
      | inr (m, f) ↦
          let h' = h ∙ healthy_id-some rates state profile metric m f s in
          let counted =
            count_healthy-Counted rates start state (seen pool now c) past profile
              m.tokens_per_second h' v in
          let row =
            ap (λ o. row_of rates start o (seen pool now c ∷ past))
              (count_healthy-last rates state profile m.tokens_per_second) in
          rw (f, accept)
            (λ e. (profile.id, h', omega (arith, counted, row, raise-increase rates _ pool next e)))
    ]

-- From any state without a streak, a limit goes up only at a completion that is healthy, and then
-- the latest five entries at least, this one the last of them, are healthy completions of one and
-- the same profile: with no failure, no pressure and no dropped forward among them, and each with a
-- valid rate that is not below 70% of the baseline that it met, where that baseline is of the same
-- profile and has three samples.
pub observe-increase :
    (rates : Rates) (start : AdaptiveState rates) (past : List (Entry rates))
    (pool : AdmissionState) (now next : ℕ) (c : Completion rates)
    → start.healthy_streak ≡ 0
    → (observe rates (after rates start past) pool c now).2 ≡ some (increase next)
    → (id : String) × (healthy rates (after rates start past) (seen pool now c) ≡ some id)
      × (5 ≤ in_a_row rates start id (seen pool now c ∷ past))
unfolding observe
observe-increase rates start past pool now next c none_yet =
    let latest = after rates start past in
    elim (Option-cases (reason_of rates latest c)) [
      | inl e ↦
          rw (e, observe)
            (accept-increase rates start latest pool now next c past c.profile c.metric
              (ap (λ b. healthy_id rates latest b c.profile c.metric) (no_reason rates latest c e))
              (no_slow rates latest c e) (after-Counted rates start past none_yet))
      | inr (reason, e) ↦
          rw (e, observe) (λ f. absurd (reduce-increase rates latest pool reason now next f))
    ]
