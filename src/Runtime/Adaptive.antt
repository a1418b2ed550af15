-- ===== src/Runtime/Adaptive.antt =====
-- The adaptive limiter of a backend's admission pool (platform/runtime/adaptive.rs). The clock is an
-- argument.
pub mod Limits
pub mod Healthy
pub mod Streak
pub mod Increase
use free_llama.Base.{
  ℕ, ◌+◌, ◌-◌, ◌*◌, ◌/◌, max, Bool, true, false, not, ◌&&◌, ◌||◌, Option, none, some, is_some_and,
  String, ltb, leb, if◌then◌else◌, u32_max, saturating_add,
}
use text.Mathlib.Text.{◌==◌}
use free_llama.Task.{TaskKind}
use free_llama.Runtime.Profile.{
  Rates, same_kind, same_task, ExecutionProfile, same_profile, decrease_spacing,
  healthy_streak_for_increase, baseline_min_samples, ProfileBaseline, Reason, upstream_failure,
  host_memory_pressure, throughput, AdaptiveState, ThroughputMetric, Completion,
}
use free_llama.Admission.State.{AdmissionState, set_limit}

-- What `observe` reports of a change of the limit.
pub data Change : Type 0 where
  decrease : ℕ → Change
  increase : ℕ → Change

abbrev pub is_recent : Option ℕ → ℕ → Bool
is_recent last_decrease now = is_some_and last_decrease (λ last. ltb (now - last) decrease_spacing)

abbrev pub is_last : Option String → String → Bool
is_last none id = false
is_last (some last) id = last == id

module _ (rates : Rates) where
  abbrev pub is_positive : rates.F → Bool
  is_positive tps = rates.is_finite tps && rates.less rates.zero_rate tps

  abbrev pub slow_against :
      ExecutionProfile
      → ThroughputMetric rates
      → Option (ProfileBaseline rates)
      → Option (rates.F × rates.F)
  slow_against profile metric none = none
  slow_against profile metric (some baseline) =
      if same_profile baseline.profile profile
        && same_kind metric.kind profile.metric_kind
        && leb baseline_min_samples baseline.samples
        && is_positive metric.tokens_per_second
        && rates.less metric.tokens_per_second (rates.dropped baseline.rate)
      then some (metric.tokens_per_second, baseline.rate)
      else none

  abbrev pub slow :
      AdaptiveState rates
      → Option (ThroughputMetric rates)
      → Option ExecutionProfile
      → Option (rates.F × rates.F)
  slow state none profile = none
  slow state (some metric) none = none
  slow state (some metric) (some profile) =
      slow_against profile metric (state.baseline_tps profile.task)

  abbrev pub throughput_reason : Option (rates.F × rates.F) → Option (Reason rates)
  throughput_reason none = none
  throughput_reason (some (tps, baseline)) = some (throughput tps baseline)

  unfoldable pub reason_of : AdaptiveState rates → Completion rates → Option (Reason rates)
  reason_of state seen =
      if seen.failed
      then some upstream_failure
      else if seen.memory_pressure
      then some host_memory_pressure
      else throughput_reason (slow state seen.metric seen.profile)

  abbrev pub reset_streak : AdaptiveState rates → AdaptiveState rates
  reset_streak state = record state { healthy_streak = 0 }

  -- `reset_healthy_streak`, which the guard of a completion that never came calls.
  unfoldable pub reset_healthy_streak : AdaptiveState rates → AdaptiveState rates
  reset_healthy_streak state = record state { healthy_streak = 0; last_profile = none }

  -- The branch of a reason, from the spacing on.
  unfoldable pub reduce :
      AdaptiveState rates
      → AdmissionState
      → Reason rates
      → ℕ
      → AdaptiveState rates × AdmissionState × Option Change
  reduce state pool reason now =
      if is_recent state.last_decrease now
      then (reset_streak state, pool, none)
      else (let (pool', next) = set_limit pool (max (pool.limit / 2) 1) in
          (
            record state {
              healthy_streak = 0;
              last_decrease = some now;
              last_reason = some reason;
            },
            pool',
            if ltb next pool.limit then some (decrease next) else none,
          ))

  abbrev pub valid_metric :
      ExecutionProfile → Option (ThroughputMetric rates) → Option (ThroughputMetric rates)
  valid_metric profile none = none
  valid_metric profile (some metric) =
      if same_kind metric.kind profile.metric_kind && is_positive metric.tokens_per_second
      then some metric
      else none

  abbrev pub switch_profile : AdaptiveState rates → String → AdaptiveState rates
  switch_profile state id =
      if is_last state.last_profile id
      then state
      else record state { healthy_streak = 0; last_profile = some id }

  abbrev pub fresh_baseline : ExecutionProfile → rates.F → ProfileBaseline rates
  fresh_baseline profile tps = record { profile = profile; rate = tps; samples = 0 }

  -- The entry of the task, its profile replaced where it is another.
  abbrev pub current_baseline :
      Option (ProfileBaseline rates) → ExecutionProfile → rates.F → ProfileBaseline rates
  current_baseline none profile tps = fresh_baseline profile tps
  current_baseline (some entry) profile tps =
      if same_profile entry.profile profile then entry else fresh_baseline profile tps

  abbrev pub learn : ProfileBaseline rates → rates.F → ProfileBaseline rates
  learn entry tps = record entry {
    rate = if leb entry.samples 0 then tps else rates.blended entry.rate tps;
    samples = saturating_add u32_max entry.samples 1;
  }

  abbrev pub set_baseline :
      (TaskKind → Option (ProfileBaseline rates))
      → TaskKind
      → ProfileBaseline rates
      → TaskKind
      → Option (ProfileBaseline rates)
  set_baseline baselines task entry = λ t. if same_task t task then some entry else baselines t

  -- A healthy completion, from the counted streak on.
  unfoldable pub raise :
      AdaptiveState rates → AdmissionState → AdaptiveState rates × AdmissionState × Option Change
  raise state pool =
      if leb healthy_streak_for_increase state.healthy_streak && ltb pool.limit pool.ceiling
      then (let (pool', next) = set_limit pool (pool.limit + 1) in
          (reset_streak state, pool', if ltb pool.limit next then some (increase next) else none))
      else (state, pool, none)

  unfoldable pub count_healthy :
      AdaptiveState rates → ExecutionProfile → rates.F → AdaptiveState rates
  count_healthy state profile tps =
      let state' = switch_profile state profile.id in
      record state' {
        baseline_tps =
            set_baseline state'.baseline_tps profile.task
              (learn (current_baseline (state'.baseline_tps profile.task) profile tps) tps);
        healthy_streak = saturating_add u32_max state'.healthy_streak 1;
      }

  unfoldable pub accept :
      AdaptiveState rates
      → AdmissionState
      → Option ExecutionProfile
      → Option (ThroughputMetric rates)
      → AdaptiveState rates × AdmissionState × Option Change
  accept state pool none metric = (reset_healthy_streak state, pool, none)
  accept state pool (some profile) metric = elim (valid_metric profile metric) [
    | none ↦ (reset_streak state, pool, none)
    | some m ↦ raise (count_healthy state profile m.tokens_per_second) pool
  ]

  unfoldable pub observe :
      AdaptiveState rates
      → AdmissionState
      → Completion rates
      → ℕ
      → AdaptiveState rates × AdmissionState × Option Change
  observe state pool seen now = elim (reason_of state seen) [
    | some reason ↦ reduce state pool reason now
    | none ↦ accept state pool seen.profile seen.metric
  ]
