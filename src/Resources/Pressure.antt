-- ===== src/Resources/Pressure.antt =====
-- Pressure and recovery, signal by signal (platform/resources/pressure.rs).
pub mod Hysteresis
use free_llama.Base.{
  ℕ, Bool, true, false, not, ◌&&◌, ◌||◌, List, [], ◌∷◌, ◌++◌, Option, none, some, is_some,
  is_some_and, String, ltb, leb, if◌then◌else◌,
}
use text.Mathlib.Text.{◌==◌}
use free_llama.Resources.{
  Floats, MemoryPressure, normal, warning, critical, TelemetryPolicy, best_effort, require_memory,
  require_all, TelemetryMetric, available_memory, cpu_load, os_memory_pressure_metric,
  thermal_pressure_metric, HostResources, ResourcePolicy, reserve,
}

pub data PressureReason : Type 0 where
  low_available_memory : PressureReason
  os_memory_pressure : PressureReason
  high_cpu_load : PressureReason
  thermal_throttling : PressureReason
  active_swapping : PressureReason

abbrev pub when {ℓ} : {A : Type ℓ} → Bool → A → List A
when true x = x ∷ []
when false x = []

abbrev pub no_devices : List String → Bool
no_devices [] = true
no_devices (device ∷ devices) = false

module _ (floats : Floats) where
  unfoldable pub has_accelerator : HostResources floats → Bool
  has_accelerator host =
      is_some host.gpu_memory_total_bytes
      || is_some_and host.gpu_devices (λ devices. not (no_devices devices))

  -- `load_per_cpu`: `None` for a load that is no number from 0 on and for no core.
  abbrev pub filter_load : Option floats.F → Option floats.F
  filter_load none = none
  filter_load (some load) =
      if floats.is_finite load && floats.at_most floats.zero load then some load else none

  abbrev pub per_core : Option floats.F → Option ℕ → Option floats.F
  per_core none cpus = none
  per_core (some load) none = none
  per_core (some load) (some cores) = if ltb 0 cores then some (floats.per load cores) else none

  unfoldable pub load_per_cpu : HostResources floats → Option floats.F
  load_per_cpu host = per_core (filter_load host.load_average_one_minute) host.logical_cpus

  unfoldable pub missing_required : HostResources floats → TelemetryPolicy → List TelemetryMetric
  missing_required host best_effort = []
  missing_required host require_memory =
      when (not (is_some host.available_memory_bytes)) available_memory
  missing_required host require_all =
      when (not (is_some host.available_memory_bytes)) available_memory
      ++ when (not (is_some (load_per_cpu host))) cpu_load
      ++ (if host.source == "linux_proc"
          then []
          else when (not (is_some host.memory_pressure)) os_memory_pressure_metric
            ++ when (not (is_some host.thermal_throttled)) thermal_pressure_metric)

  unfoldable pub has_signal : HostResources floats → Bool
  has_signal host =
      is_some host.available_memory_bytes
      || is_some (load_per_cpu host)
      || is_some host.memory_pressure
      || is_some host.thermal_throttled

  abbrev pub compare_pages : Option ℕ → Option ℕ → Option Bool
  compare_pages none before = none
  compare_pages (some now) none = none
  compare_pages (some now) (some before) = some (ltb before now)

  unfoldable pub swap_grew : HostResources floats → Option (HostResources floats) → Option Bool
  swap_grew current none = none
  swap_grew current (some previous) = compare_pages current.swap_out_pages previous.swap_out_pages

  abbrev pub is_stalled : MemoryPressure → Bool
  is_stalled normal = false
  is_stalled warning = true
  is_stalled critical = true

  -- Whether a sample shows a reason: the tests of `pressure_reasons`, in its order.
  unfoldable pub shows :
      PressureReason
      → HostResources floats
      → Option (HostResources floats)
      → ResourcePolicy floats
      → Bool
  shows low_available_memory current previous policy =
      is_some_and current.available_memory_bytes
        (λ available. ltb available (reserve floats policy current.total_memory_bytes false))
  shows os_memory_pressure current previous policy = is_some_and current.memory_pressure is_stalled
  shows high_cpu_load current previous policy =
      is_some_and (load_per_cpu current) (λ load. floats.at_most policy.hold_load_per_cpu load)
  shows thermal_throttling current previous policy =
      is_some_and current.thermal_throttled (λ throttled. throttled)
  shows active_swapping current previous policy =
      is_some_and (swap_grew current previous) (λ grew. grew)
      && is_some_and current.available_memory_bytes
          (λ available. ltb available (reserve floats policy current.total_memory_bytes true))

  unfoldable pub pressure_reasons :
      HostResources floats
      → Option (HostResources floats)
      → ResourcePolicy floats
      → List PressureReason
  pressure_reasons current previous policy =
      when (shows low_available_memory current previous policy) low_available_memory
      ++ when (shows os_memory_pressure current previous policy) os_memory_pressure
      ++ when (shows high_cpu_load current previous policy) high_cpu_load
      ++ when (shows thermal_throttling current previous policy) thermal_throttling
      ++ when (shows active_swapping current previous policy) active_swapping

  abbrev pub is_normal : MemoryPressure → Bool
  is_normal normal = true
  is_normal warning = false
  is_normal critical = false

  unfoldable pub recovered_reason :
      PressureReason
      → HostResources floats
      → Option (HostResources floats)
      → ResourcePolicy floats
      → Bool
  recovered_reason low_available_memory current previous policy =
      is_some_and current.available_memory_bytes
        (λ available. leb (reserve floats policy current.total_memory_bytes true) available)
  recovered_reason os_memory_pressure current previous policy =
      is_some_and current.memory_pressure is_normal
  recovered_reason high_cpu_load current previous policy =
      is_some_and (load_per_cpu current) (λ load. floats.at_most load policy.resume_load_per_cpu)
  recovered_reason thermal_throttling current previous policy =
      is_some_and current.thermal_throttled (λ throttled. not throttled)
  recovered_reason active_swapping current previous policy =
      is_some_and (swap_grew current previous) (λ grew. not grew)
      && is_some_and current.available_memory_bytes
          (λ available. leb (reserve floats policy current.total_memory_bytes true) available)

  unfoldable pub reason_observed : PressureReason → HostResources floats → Bool
  reason_observed low_available_memory current = is_some current.available_memory_bytes
  reason_observed active_swapping current = is_some current.available_memory_bytes
  reason_observed os_memory_pressure current = is_some current.memory_pressure
  reason_observed high_cpu_load current = is_some (load_per_cpu current)
  reason_observed thermal_throttling current = is_some current.thermal_throttled
