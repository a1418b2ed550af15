-- ===== src/Resources/Demand.antt =====
-- What a request asks of the host, and whether the governor's last sample admits it
-- (platform/resources/mod.rs, `ResourceDemand` and `ResourceSnapshot::assess_demand`).
pub mod Assessment
pub mod Granted
use free_llama.Base.{
  ℕ, ◌-◌, Bool, true, false, not, ◌&&◌, ◌||◌, List, [], ◌∷◌, retain, Option, none, some, is_some,
  is_some_and, String, ltb, ◌==◌, if◌then◌else◌, u64_max, checked_add,
}
use free_llama.Resources.{
  Floats, LowMemoryMode, advisory, refuse, TelemetryMetric, HostResources, ResourcePolicy,
  reserve_for,
}
use free_llama.Resources.Pressure.{
  PressureReason, low_available_memory, os_memory_pressure, high_cpu_load, thermal_throttling,
  active_swapping, has_accelerator, missing_required,
}

pub record ResourceDemand : Type 0 where
  pub bytes : ℕ
  pub resident : Bool
  pub cpu_bound : Bool

abbrev pub load : ℕ → ResourceDemand
load bytes = record { bytes = bytes; resident = false; cpu_bound = false }

abbrev pub resident : ResourceDemand
resident = record { bytes = 0; resident = true; cpu_bound = false }

abbrev pub on_cpu : ResourceDemand → Bool → ResourceDemand
on_cpu demand cpu_bound = record demand { cpu_bound = cpu_bound }

abbrev pub resident_only : ResourceDemand → Bool
resident_only demand = demand.resident && (demand.bytes == 0)

unfoldable pub is_held_by : ResourceDemand → PressureReason → Bool → Bool
is_held_by demand low_available_memory advisory_low_memory =
    not advisory_low_memory && not (resident_only demand)
is_held_by demand active_swapping advisory_low_memory = not (resident_only demand)
is_held_by demand high_cpu_load advisory_low_memory = demand.cpu_bound
is_held_by demand thermal_throttling advisory_low_memory = demand.cpu_bound || not demand.resident
is_held_by demand os_memory_pressure advisory_low_memory = true

-- The fields of `ResourceSnapshot` that an assessment reads.
pub record ResourceSnapshot (floats : Floats) : Type 0 where
  pub holding : Bool
  pub reasons : List PressureReason
  pub reserved_bytes : ℕ
  pub effective_available_bytes : Option ℕ
  pub observation : HostResources floats
  pub policy : ResourcePolicy floats

-- The `effective_available_bytes` that `ResourceGovernor::snapshot` fills in.
abbrev pub effective_available : Option ℕ → ℕ → Option ℕ
effective_available none reserved = none
effective_available (some bytes) reserved = some (bytes - reserved)

pub data CapacityDenialReason : Type 0 where
  host_pressure : CapacityDenialReason
  telemetry_unavailable : CapacityDenialReason
  insufficient_capacity : CapacityDenialReason
  arithmetic_overflow : CapacityDenialReason

-- `memory_advisory` is whether it is `Some(BelowReserve)`.
pub record ResourceCapacityAssessment : Type 0 where
  pub status : String
  pub admissible : Bool
  pub denial_reason : Option CapacityDenialReason
  pub memory_advisory : Bool
  pub held_by : List PressureReason
  pub required_available_bytes : ℕ
  pub reserve_bytes : ℕ
  pub required_with_reserve_bytes : Option ℕ
  pub effective_available_bytes : Option ℕ
  pub missing_telemetry : List TelemetryMetric

abbrev pub is_empty {ℓ} : {A : Type ℓ} → List A → Bool
is_empty [] = true
is_empty (x ∷ xs) = false

abbrev pub is_advisory : LowMemoryMode → Bool
is_advisory advisory = true
is_advisory refuse = false

-- `reserved.checked_add(required).and_then(|bytes| bytes.checked_add(reserve))`.
abbrev pub and_add : Option ℕ → ℕ → Option ℕ
and_add none b = none
and_add (some a) b = checked_add u64_max a b

abbrev pub below : Option ℕ → Option ℕ → Bool
below available required = is_some_and available (λ a. is_some_and required (λ r. ltb a r))

abbrev pub status_name : Option CapacityDenialReason → Bool → Option ℕ → String
status_name (some host_pressure) low available = "held_host_pressure"
status_name (some telemetry_unavailable) low available = "held_telemetry_unavailable"
status_name (some insufficient_capacity) low available = "held_insufficient_capacity"
status_name (some arithmetic_overflow) low available = "held_arithmetic_overflow"
status_name none true available = "ready_low_memory_estimate"
status_name none false none = "ready_telemetry_unknown"
status_name none false (some bytes) = "ready"

-- The four tests of `denial_reason`, in their order.
unfoldable pub denial : Bool → Bool → Bool → Bool → Option CapacityDenialReason
denial held missing overflow short =
    if held
    then some host_pressure
    else if missing
    then some telemetry_unavailable
    else if overflow
    then some arithmetic_overflow
    else if short
    then some insufficient_capacity
    else none

module _ (floats : Floats) where
  abbrev pub placed : ResourceSnapshot floats → ResourceDemand → ResourceDemand
  placed snapshot demand =
      if has_accelerator floats snapshot.observation then demand else on_cpu demand true

  -- The `assess_demand` of a snapshot, once its parts are computed.
  unfoldable pub conclude :
      ResourceSnapshot floats
      → ResourceDemand
      → List PressureReason
      → ℕ
      → List TelemetryMetric
      → ResourceCapacityAssessment
  unfolding denial checked_add
  conclude snapshot demand held_by reserve_bytes missing =
      let advisory_mode = is_advisory snapshot.policy.low_memory in
      let required = checked_add u64_max demand.bytes reserve_bytes in
      let below_reserve =
        not (resident_only demand) && below snapshot.effective_available_bytes required in
      let overflow =
        not (is_some required)
        || not (
            is_some
              (and_add (checked_add u64_max snapshot.reserved_bytes demand.bytes) reserve_bytes)) in
      let reason =
        denial (snapshot.holding && not (is_empty held_by)) (not (is_empty missing)) overflow
          (below_reserve && not advisory_mode) in
      let low = not (is_some reason) && below_reserve in
      record {
        status = status_name reason low snapshot.observation.available_memory_bytes;
        admissible = not (is_some reason);
        denial_reason = reason;
        memory_advisory = low;
        held_by = held_by;
        required_available_bytes = demand.bytes;
        reserve_bytes = reserve_bytes;
        required_with_reserve_bytes = required;
        effective_available_bytes = snapshot.effective_available_bytes;
        missing_telemetry = missing;
      }

  unfoldable pub assess_demand :
      ResourceSnapshot floats → ResourceDemand → Bool → ResourceCapacityAssessment
  assess_demand snapshot demand recovering_capacity =
      let advisory_mode = is_advisory snapshot.policy.low_memory in
      conclude snapshot demand
        (retain (λ reason. is_held_by (placed snapshot demand) reason advisory_mode)
          snapshot.reasons)
        (reserve_for floats snapshot.policy snapshot.observation.total_memory_bytes
          recovering_capacity demand.bytes)
        (missing_required floats snapshot.observation snapshot.policy.telemetry_policy)
