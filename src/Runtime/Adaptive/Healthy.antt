-- ===== src/Runtime/Adaptive/Healthy.antt =====
-- The completions that the limiter takes for healthy, and the reasons that it finds against others
-- (platform/runtime/adaptive.rs).
use free_llama.Base.{
  subst, ℕ, ◌≡◌, refl, ◌∙◌, ap, Bool, true, false, ◌&&◌, ◌||◌, Option, none, some, String, arith,
  if◌then◌else◌, leb, not, some-injective,
}
use free_llama.Runtime.Profile.{
  Rates, AdaptiveState, Reason, Completion, ExecutionProfile, ThroughputMetric, ProfileBaseline,
  same_profile, same_kind, upstream_failure, host_memory_pressure,
}
use free_llama.Runtime.Adaptive.{
  valid_metric, reason_of, slow, slow_against, throughput_reason, is_positive,
}
use free_llama.Admission.State.{AdmissionState}

module _ (rates : Rates) where
  -- A completion, with the pool and the instant at which it is seen, or a forward that was dropped.
  pub data Entry : Type 0 where
    seen : AdmissionState → ℕ → Completion rates → Entry
    abandoned : Entry

  -- The rate is not below 70% of a baseline of the same profile that has three samples at least.
  abbrev pub keeps_pace : Option (ProfileBaseline rates) → ExecutionProfile → rates.F → Bool
  keeps_pace none profile tps = true
  keeps_pace (some baseline) profile tps = not (
      same_profile baseline.profile profile
      && leb 3 baseline.samples
      && rates.less tps (rates.dropped baseline.rate))

  abbrev pub paced_id :
      AdaptiveState rates → ExecutionProfile → Option (ThroughputMetric rates) → Option String
  paced_id state profile none = none
  paced_id state profile (some m) =
      if keeps_pace (state.baseline_tps profile.task) profile m.tokens_per_second
      then some profile.id
      else none

  abbrev pub healthy_id :
      AdaptiveState rates
      → Bool
      → Option ExecutionProfile
      → Option (ThroughputMetric rates)
      → Option String
  healthy_id state true profile metric = none
  healthy_id state false none metric = none
  healthy_id state false (some profile) metric =
      paced_id state profile (valid_metric rates profile metric)

  -- The profile that a healthy completion belongs to, in the state that it meets: one that did not
  -- fail, met no pressure, and has a rate of the profile's kind that keeps pace with the baseline.
  abbrev pub healthy : AdaptiveState rates → Entry → Option String
  healthy state (seen pool now c) =
      healthy_id state (c.failed || c.memory_pressure) c.profile c.metric
  healthy state abandoned = none

-- A completion for which no reason was found did not fail and met no pressure.
pub no_reason :
    (rates : Rates) (state : AdaptiveState rates) (c : Completion rates)
    → reason_of rates state c ≡ none
    → (c.failed || c.memory_pressure) ≡ false
unfolding reason_of
no_reason rates state c e = ground arith

no_throughput :
    (rates : Rates) (failed pressure : Bool) (o : Option (rates.F × rates.F))
    → Path
        (Option (Reason rates))
        (if failed
          then some upstream_failure
          else if pressure
          then some host_memory_pressure
          else throughput_reason rates o)
        none
    → o ≡ none
no_throughput rates true pressure o e = cc
no_throughput rates false true o e = cc
no_throughput rates false false none e = refl
no_throughput rates false false (some x) e = cc

pub no_slow :
    (rates : Rates) (state : AdaptiveState rates) (c : Completion rates)
    → reason_of rates state c ≡ none
    → slow rates state c.metric c.profile ≡ none
unfolding reason_of
no_slow rates state c e = no_throughput rates c.failed c.memory_pressure _ e

when-some :
    {A : Type 0} (valid : Bool) (a b : A)
    → (if valid then some a else none) ≡ some b
    → (valid ≡ true) × (a ≡ b)
when-some true a b e = (refl, some-injective _ _ e)
when-some false a b e = cc

-- A drop that was not found, of a rate that is valid, is none.
no_drop :
    {A : Type 0} (a : A) (same kind known positive below : Bool)
    → (if same && kind && known && positive && below then some a else none) ≡ none
    → (kind && positive) ≡ true
    → not (same && known && below) ≡ true
no_drop a same kind known positive below e v = ground arith

-- A valid rate for which no slowness was found keeps pace.
paces :
    (rates : Rates) (baseline : Option (ProfileBaseline rates)) (profile : ExecutionProfile)
    (metric : Option (ThroughputMetric rates)) (m : ThroughputMetric rates)
    → valid_metric rates profile metric ≡ some m
    → slow_against rates profile m baseline ≡ none
    → keeps_pace rates baseline profile m.tokens_per_second ≡ true
paces rates none profile metric m e f = refl
paces rates (some baseline) profile none m e f = cc
paces rates (some baseline) profile (some metric) m e f =
    let (valid, same) =
      when-some
        (same_kind metric.kind profile.metric_kind && is_positive rates metric.tokens_per_second)
        metric m e in
    no_drop (m.tokens_per_second, baseline.rate) (same_profile baseline.profile profile)
      (same_kind m.kind profile.metric_kind) (leb 3 baseline.samples)
      (is_positive rates m.tokens_per_second)
      (rates.less m.tokens_per_second (rates.dropped baseline.rate)) f
      (subst
        (λ x.
          (same_kind x.kind profile.metric_kind && is_positive rates x.tokens_per_second) ≡ true)
        same valid)

-- A completion with a valid rate and no reason is healthy.
pub healthy_id-some :
    (rates : Rates) (state : AdaptiveState rates) (profile : ExecutionProfile)
    (metric : Option (ThroughputMetric rates)) (m : ThroughputMetric rates)
    → valid_metric rates profile metric ≡ some m
    → slow rates state metric (some profile) ≡ none
    → healthy_id rates state false (some profile) metric ≡ some profile.id
healthy_id-some rates state profile none m e f = cc
healthy_id-some rates state profile (some metric) m e f =
    let (valid, same) =
      when-some
        (same_kind metric.kind profile.metric_kind && is_positive rates metric.tokens_per_second)
        metric m e in
    let pace =
      paces rates (state.baseline_tps profile.task) profile (some metric) m e (
        subst (λ x. slow_against rates profile x (state.baseline_tps profile.task) ≡ none) same
          f) in
    ap (paced_id rates state profile) e ∙ ap (λ b. if b then some profile.id else none) pace
