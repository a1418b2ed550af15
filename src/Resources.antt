-- ===== src/Resources.antt =====
-- Host resources (platform/resources/mod.rs): the observation of the host, the policy of the
-- admission governor and the reserves that it keeps free. Sizes are in bytes, durations in
-- milliseconds.
pub mod Reserve
pub mod Pressure
pub mod Demand
pub mod Holds
pub mod Reservations
pub mod Wait
use free_llama.Base.{
  ℕ, ◌*◌, ◌/◌, ◌≡◌, min, max, Bool, true, false, not, ◌||◌, List, Option, none, some, String, ltb,
  leb, ◌==◌, if◌then◌else◌,
}

-- The operations of `f64` that the governor uses, with the one law of their order that its
-- thresholds rely on; a comparison with a NaN is false.
pub record Floats : Type 1 where
  pub F : Type 0
  pub zero : F
  pub is_finite : F → Bool
  pub at_most : F → F → Bool
  pub per : F → ℕ → F
  pub at_most_trans : (a b c : F) → at_most a b ≡ true → at_most b c ≡ true → at_most a c ≡ true

pub data MemoryPressure : Type 0 where
  normal : MemoryPressure
  warning : MemoryPressure
  critical : MemoryPressure

pub data TelemetryPolicy : Type 0 where
  best_effort : TelemetryPolicy
  require_memory : TelemetryPolicy
  require_all : TelemetryPolicy

pub data LowMemoryMode : Type 0 where
  advisory : LowMemoryMode
  refuse : LowMemoryMode

pub data TelemetryMetric : Type 0 where
  available_memory : TelemetryMetric
  cpu_load : TelemetryMetric
  os_memory_pressure_metric : TelemetryMetric
  thermal_pressure_metric : TelemetryMetric

-- The fields of a sample that decide about admission; the others are only reported.
pub record HostResources (floats : Floats) : Type 0 where
  pub source : String
  pub total_memory_bytes : Option ℕ
  pub available_memory_bytes : Option ℕ
  pub swap_out_pages : Option ℕ
  pub memory_pressure : Option MemoryPressure
  pub load_average_one_minute : Option floats.F
  pub logical_cpus : Option ℕ
  pub thermal_throttled : Option Bool
  pub gpu_memory_total_bytes : Option ℕ
  pub gpu_devices : Option (List String)  -- `gpu_activity`

pub record ResourcePolicy (floats : Floats) : Type 0 where
  pub telemetry_policy : TelemetryPolicy
  pub low_memory : LowMemoryMode
  pub sample_interval : ℕ
  pub hold_available_percent : ℕ
  pub resume_available_percent : ℕ
  pub hold_available_min_bytes : ℕ
  pub resume_available_min_bytes : ℕ
  pub hold_load_per_cpu : floats.F
  pub resume_load_per_cpu : floats.F
  pub recovery_samples : ℕ
  pub first_sample_grace : ℕ

-- `total.map_or` of `reserve`.
abbrev pub share : Option ℕ → ℕ → ℕ → ℕ
share none percent minimum = minimum
share (some bytes) percent minimum = max (bytes / 100 * percent) minimum

module _ (floats : Floats) where
  -- `ResourcePolicy::validate`: whether it returns `Ok`.
  unfoldable pub validate : ResourcePolicy floats → Bool
  validate policy = not (
      policy.sample_interval == 0
      || leb policy.resume_available_percent policy.hold_available_percent
      || ltb 100 policy.resume_available_percent
      || leb policy.resume_available_min_bytes policy.hold_available_min_bytes
      || not (floats.is_finite policy.hold_load_per_cpu)
      || not (floats.is_finite policy.resume_load_per_cpu)
      || floats.at_most policy.resume_load_per_cpu floats.zero
      || floats.at_most policy.hold_load_per_cpu policy.resume_load_per_cpu
      || policy.recovery_samples == 0)

  -- `ResourcePolicy::reserve`.
  abbrev pub percent_of : ResourcePolicy floats → Bool → ℕ
  percent_of policy recovering =
      if recovering then policy.resume_available_percent else policy.hold_available_percent

  abbrev pub minimum_of : ResourcePolicy floats → Bool → ℕ
  minimum_of policy recovering =
      if recovering then policy.resume_available_min_bytes else policy.hold_available_min_bytes

  unfoldable pub reserve : ResourcePolicy floats → Option ℕ → Bool → ℕ
  reserve policy total recovering =
      share total (percent_of policy recovering) (minimum_of policy recovering)

  -- `ResourcePolicy::reserve_for`.
  unfoldable pub reserve_for : ResourcePolicy floats → Option ℕ → Bool → ℕ → ℕ
  reserve_for policy total recovering bytes =
      min (reserve policy total recovering) (max bytes (minimum_of policy recovering))
