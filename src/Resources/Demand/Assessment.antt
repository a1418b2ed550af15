-- ===== src/Resources/Demand/Assessment.antt =====
-- What an assessment promises (platform/resources/mod.rs).
use free_llama.Base.{
  ℕ, ◌+◌, ◌≤◌, ◌≡◌, ◌≢◌, refl, Bool, true, false, List, [], ◌∷◌, retain, All, Has, none, some,
  arith, u64_max, checked_add, inl, inr,
}
use free_llama.Resources.{Floats, reserve_for, TelemetryMetric}
use free_llama.Resources.Pressure.{
  PressureReason, low_available_memory, os_memory_pressure, high_cpu_load, thermal_throttling,
  active_swapping, has_accelerator, missing_required,
}
use free_llama.Resources.Demand.{
  ResourceDemand, resident_only, is_held_by, ResourceSnapshot, host_pressure, denial, conclude,
  assess_demand, is_empty,
}

conclude-held :
    (floats : Floats) (snapshot : ResourceSnapshot floats) (demand : ResourceDemand)
    (held_by : List PressureReason) (reserve_bytes : ℕ) (missing : List TelemetryMetric)
    → snapshot.holding ≡ true
    → is_empty held_by ≡ false
    → (conclude floats snapshot demand held_by reserve_bytes missing).denial_reason
      ≡ some host_pressure
unfolding conclude denial
conclude-held floats snapshot demand held_by reserve_bytes missing h e = rw (h, e) refl

os_pressure-held :
    (demand : ResourceDemand) (mode : Bool) (reasons : List PressureReason)
    → Has (λ r. r ≡ os_memory_pressure) reasons
    → is_empty (retain (λ reason. is_held_by demand reason mode) reasons) ≡ false
unfolding is_held_by
os_pressure-held demand mode [] h = absurd h
os_pressure-held demand mode (reason ∷ reasons) (inl e) = rw e refl
os_pressure-held demand mode (reason ∷ reasons) (inr h) =
    ground (arith, os_pressure-held demand mode reasons h)

resident-held :
    (demand : ResourceDemand) (mode : Bool) (reasons : List PressureReason)
    → resident_only demand ≡ true
    → demand.cpu_bound ≡ false
    → All (λ r. r ≢ os_memory_pressure) reasons
    → retain (λ reason. is_held_by demand reason mode) reasons ≡ []
unfolding is_held_by
resident-held demand mode [] r c h = refl
resident-held demand mode (low_available_memory ∷ reasons) r c h =
    ground (arith, resident-held demand mode reasons r c h.1)
resident-held demand mode (os_memory_pressure ∷ reasons) r c h = absurd (h.0 refl)
resident-held demand mode (high_cpu_load ∷ reasons) r c h =
    ground (arith, resident-held demand mode reasons r c h.1)
resident-held demand mode (thermal_throttling ∷ reasons) r c h =
    ground (arith, resident-held demand mode reasons r c h.1)
resident-held demand mode (active_swapping ∷ reasons) r c h =
    ground (arith, resident-held demand mode reasons r c h.1)

-- A hold for pressure that the operating system reports denies every demand.
pub assess_demand-os_pressure :
    (floats : Floats) (snapshot : ResourceSnapshot floats) (demand : ResourceDemand)
    (recovering : Bool)
    → snapshot.holding ≡ true
    → Has (λ r. r ≡ os_memory_pressure) snapshot.reasons
    → (assess_demand floats snapshot demand recovering).denial_reason ≡ some host_pressure
unfolding assess_demand
assess_demand-os_pressure floats snapshot demand recovering h o =
    conclude-held floats snapshot demand _ _ _ h (os_pressure-held _ _ snapshot.reasons o)

conclude-resident :
    (floats : Floats) (snapshot : ResourceSnapshot floats) (demand : ResourceDemand)
    (held_by : List PressureReason) (reserve_bytes : ℕ) (missing : List TelemetryMetric)
    → resident_only demand ≡ true
    → held_by ≡ []
    → missing ≡ []
    → snapshot.reserved_bytes + reserve_bytes ≤ u64_max
    → (conclude floats snapshot demand held_by reserve_bytes missing).denial_reason ≡ none
unfolding conclude denial checked_add
conclude-resident floats snapshot demand held_by reserve_bytes missing r h m l = ground arith

-- On a host with an accelerator, a request to a runner that is loaded, adds no memory and does not
-- decode on the host's cores is admissible under every hold but one for pressure that the operating
-- system reports, if no telemetry is missing and the accounting does not overflow.
assess_demand-resident :
    (floats : Floats) (snapshot : ResourceSnapshot floats) (demand : ResourceDemand)
    (recovering : Bool)
    → resident_only demand ≡ true
    → demand.cpu_bound ≡ false
    → has_accelerator floats snapshot.observation ≡ true
    → All (λ r. r ≢ os_memory_pressure) snapshot.reasons
    → missing_required floats snapshot.observation snapshot.policy.telemetry_policy ≡ []
    → snapshot.reserved_bytes
        + reserve_for floats snapshot.policy snapshot.observation.total_memory_bytes recovering
            demand.bytes
      ≤ u64_max
    → (assess_demand floats snapshot demand recovering).denial_reason ≡ none
unfolding assess_demand
assess_demand-resident floats snapshot demand recovering r c g o m l =
    conclude-resident floats snapshot demand _ _ _ r
      (rw g (resident-held demand _ snapshot.reasons r c o)) m l
