-- ===== src/Resources/Holds.antt =====
-- The holds that the governor keeps between samples (platform/resources/governor.rs, `snapshot`).
-- `now` is the instant of the sample, in nanoseconds.
pub mod Lasting
use free_llama.Base.{
  ℕ, ◌-◌, ◌*◌, Bool, true, false, not, ◌&&◌, ◌||◌, List, [], ◌∷◌, ◌++◌, map, retain, any, Option,
  none, some, ltb, leb, if◌then◌else◌, u32_max, u64_max, saturating_add,
}
use free_llama.Resources.{Floats, HostResources, ResourcePolicy}
use free_llama.Resources.Pressure.{
  PressureReason, low_available_memory, os_memory_pressure, high_cpu_load, thermal_throttling,
  active_swapping, pressure_reasons, recovered_reason, reason_observed,
}

pub record PressureHold : Type 0 where
  pub reason : PressureReason
  pub healthy_samples : ℕ
  pub since : ℕ

abbrev pub max_unobserved_hold : ℕ
max_unobserved_hold = 60 * 1000000000

abbrev pub same_reason : PressureReason → PressureReason → Bool
same_reason low_available_memory low_available_memory = true
same_reason os_memory_pressure os_memory_pressure = true
same_reason high_cpu_load high_cpu_load = true
same_reason thermal_throttling thermal_throttling = true
same_reason active_swapping active_swapping = true
same_reason _ _ = false

abbrev pub contains : PressureReason → List PressureReason → Bool
contains reason reasons = any (same_reason reason) reasons

abbrev pub holds_for : PressureReason → List PressureHold → Bool
holds_for reason holds = any (λ hold. same_reason hold.reason reason) holds

-- `state.holds.push` for the reasons that have no hold yet.
unfoldable pub add_holds : List PressureReason → ℕ → List PressureHold → List PressureHold
add_holds [] now holds = holds
add_holds (reason ∷ triggered) now holds = add_holds triggered now (
    if holds_for reason holds
    then holds
    else holds ++ (record { reason = reason; healthy_samples = 0; since = now } ∷ []))

abbrev pub count_healthy : Bool → PressureHold → PressureHold
count_healthy is_recovered hold = record hold {
  healthy_samples = if is_recovered then saturating_add u32_max hold.healthy_samples 1 else 0;
}

-- `state.holds.retain_mut`.
unfoldable pub retain_holds : (PressureReason → Bool) → ℕ → List PressureHold → List PressureHold
retain_holds recovered recovery_samples holds =
    retain (λ hold. ltb hold.healthy_samples recovery_samples)
      (map (λ hold. count_healthy (recovered hold.reason) hold) holds)

module _ (floats : Floats) where
  abbrev pub hold_recovers :
      ResourcePolicy floats
      → HostResources floats
      → Option (HostResources floats)
      → List PressureReason
      → ℕ
      → PressureHold
      → Bool
  hold_recovers policy observed previous triggered now hold =
      not (contains hold.reason triggered)
      && (recovered_reason floats hold.reason observed previous policy
          || (leb max_unobserved_hold (now - hold.since)
              && not (reason_observed floats hold.reason observed)))

  -- `recovered.contains`, where `recovered` lists the reasons of the holds that recover.
  unfoldable pub recovered_reasons :
      ResourcePolicy floats
      → HostResources floats
      → Option (HostResources floats)
      → List PressureReason
      → ℕ
      → List PressureHold
      → List PressureReason
  recovered_reasons policy observed previous triggered now holds =
      map (λ hold. hold.reason)
        (retain (hold_recovers policy observed previous triggered now) holds)

  unfoldable pub observe :
      ResourcePolicy floats
      → HostResources floats
      → Option (HostResources floats)
      → ℕ
      → List PressureHold
      → List PressureHold
  observe policy observed previous now holds =
      let triggered = pressure_reasons floats observed previous policy in
      let recovered = recovered_reasons policy observed previous triggered now holds in
      retain_holds (λ reason. contains reason recovered) policy.recovery_samples
        (add_holds triggered now holds)
