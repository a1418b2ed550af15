-- ===== src/Resources/Demand/Granted.antt =====
-- An assessment and the reservation behind it (packages/rust-core/src/platform/resources:
-- `ResourceGovernor::snapshot`, `assess_demand` and `try_reserve`).
use free_llama.Base.{
  ℕ, ◌+◌, ◌<◌, ◌≡◌, refl, inl, inr, Bool, true, false, not, ◌&&◌, ◌||◌, List, [], Option, none,
  some, is_some, arith, leb, Bool-cases, is_none_or, u64_max, checked_add, if◌then◌else◌,
}
use free_llama.Resources.{
  Floats, LowMemoryMode, advisory, refuse, TelemetryPolicy, best_effort, require_memory,
  require_all, HostResources,
}
use free_llama.Resources.Pressure.{PressureReason, missing_required}
use free_llama.Resources.Demand.{
  ResourceDemand, resident_only, ResourceSnapshot, CapacityDenialReason, effective_available,
  denial, conclude, assess_demand, is_empty, is_advisory, below, and_add,
}
use free_llama.Resources.Reservations.{
  Reservation, is_best_effort, turn_with, turn, reserve_loop, try_reserve,
}

-- What the reservation of a demand answers, by the reason for which its assessment denies it. A
-- demand that a hold or missing telemetry denies is not tried.
abbrev pub Agrees : Option CapacityDenialReason → Bool → ℕ → ℕ → Reservation × ℕ × Option ℕ → Type 0
Agrees none low reserved bytes r = r ≡ (
  (if low then Reservation.below_reserve else Reservation.fits),
  reserved,
  some (reserved + bytes),
)
Agrees (some CapacityDenialReason.insufficient_capacity) low reserved bytes r =
    r ≡ (Reservation.insufficient, reserved, none)
Agrees (some CapacityDenialReason.arithmetic_overflow) low reserved bytes r =
    r ≡ (Reservation.overflow, reserved, none)
Agrees (some CapacityDenialReason.host_pressure) low reserved bytes r = Unit
Agrees (some CapacityDenialReason.telemetry_unavailable) low reserved bytes r = Unit

-- Where no telemetry is missing, the reservation does not ask for it either.
missing-available :
    (floats : Floats) (host : HostResources floats) (policy : TelemetryPolicy)
    → is_empty (missing_required floats host policy) ≡ true
    → (not (is_some host.available_memory_bytes) && not (is_best_effort policy)) ≡ false
unfolding missing_required
missing-available floats host best_effort h = ground arith
missing-available floats host require_memory h = ground arith
missing-available floats host require_all h = ground arith

-- The two sums overflow together or the second does alone.
overflow_lem :
    (bytes reserve reserved : ℕ)
    → (not (is_some (checked_add u64_max bytes reserve))
        || not (is_some (and_add (checked_add u64_max reserved bytes) reserve)))
      ≡ not (leb (reserved + bytes + reserve) u64_max)
unfolding checked_add
overflow_lem bytes reserve reserved = ground arith

below_lem :
    (available : Option ℕ) (bytes reserve reserved : ℕ)
    → 0 < bytes
    → leb (reserved + bytes + reserve) u64_max ≡ true
    → below (effective_available available reserved) (checked_add u64_max bytes reserve)
      ≡ not (is_none_or available (λ a. leb (reserved + bytes + reserve) a))
unfolding checked_add
below_lem none bytes reserve reserved lt h = ground arith
below_lem (some a) bytes reserve reserved lt h = ground arith

turn-overflow :
    (mode : LowMemoryMode) (available : Option ℕ) (bytes reserve reserved : ℕ)
    → leb (reserved + bytes + reserve) u64_max ≡ false
    → turn mode bytes available reserve reserved ≡ (Reservation.overflow, none)
unfolding turn checked_add
turn-overflow mode available bytes reserve reserved h = ground arith

turn-some :
    (mode : LowMemoryMode) (available : Option ℕ) (bytes reserve reserved : ℕ)
    → leb (reserved + bytes + reserve) u64_max ≡ true
    → turn mode bytes available reserve reserved
      ≡ turn_with mode (some (reserved + bytes)) (some (reserved + bytes + reserve)) available
unfolding turn checked_add
turn-some mode available bytes reserve reserved h = ground arith

turn-overflow_Agrees :
    (mode : LowMemoryMode) (available : Option ℕ) (bytes reserve reserved : ℕ) (short low : Bool)
    → leb (reserved + bytes + reserve) u64_max ≡ false
    → let reason = denial false false (not (leb (reserved + bytes + reserve) u64_max)) short in
      Agrees reason
        (not (is_some reason) && low)
        reserved
        bytes
        (reserve_loop mode bytes available reserve reserved [])
unfolding denial reserve_loop
turn-overflow_Agrees mode available bytes reserve reserved short low h =
    rw (turn-overflow mode available bytes reserve reserved h, h) refl

turn-some_Agrees :
    (mode : LowMemoryMode) (available : Option ℕ) (bytes reserve reserved : ℕ)
    → leb (reserved + bytes + reserve) u64_max ≡ true
    → let short = not (is_none_or available (λ a. leb (reserved + bytes + reserve) a)) in
      let reason =
        denial false false
          (not (leb (reserved + bytes + reserve) u64_max))
          (short && not (is_advisory mode)) in
      Agrees reason
        (not (is_some reason) && short)
        reserved
        bytes
        (reserve_loop mode bytes available reserve reserved [])
unfolding denial reserve_loop
turn-some_Agrees advisory available bytes reserve reserved h =
    rw (turn-some advisory available bytes reserve reserved h, h)
      (elim (Bool-cases (is_none_or available (λ a. leb (reserved + bytes + reserve) a))) [
        | inl e ↦ rw e refl
        | inr e ↦ rw e refl
      ])
turn-some_Agrees refuse available bytes reserve reserved h =
    rw (turn-some refuse available bytes reserve reserved h, h)
      (elim (Bool-cases (is_none_or available (λ a. leb (reserved + bytes + reserve) a))) [
        | inl e ↦ rw e refl
        | inr e ↦ rw e refl
      ])

turn-Agrees :
    (mode : LowMemoryMode) (available : Option ℕ) (bytes reserve reserved : ℕ)
    → 0 < bytes
    → let required = checked_add u64_max bytes reserve in
      let short = below (effective_available available reserved) required in
      let overflow =
        not (is_some required)
        || not (is_some (and_add (checked_add u64_max reserved bytes) reserve)) in
      let reason = denial false false overflow (short && not (is_advisory mode)) in
      Agrees reason
        (not (is_some reason) && short)
        reserved
        bytes
        (reserve_loop mode bytes available reserve reserved [])
turn-Agrees mode available bytes reserve reserved lt =
    rw (overflow_lem bytes reserve reserved)
      (elim (Bool-cases (leb (reserved + bytes + reserve) u64_max)) [
        | inl e ↦
            rw (below_lem available bytes reserve reserved lt e)
              (turn-some_Agrees mode available bytes reserve reserved e)
        | inr e ↦ turn-overflow_Agrees mode available bytes reserve reserved _ _ e
      ])

try_reserve-available :
    (telemetry : TelemetryPolicy) (mode : LowMemoryMode) (bytes : ℕ) (available : Option ℕ)
    (reserve reserved : ℕ)
    → (not (is_some available) && not (is_best_effort telemetry)) ≡ false
    → try_reserve telemetry mode bytes available reserve reserved []
      ≡ reserve_loop mode bytes available reserve reserved []
unfolding try_reserve
try_reserve-available telemetry mode bytes available reserve reserved h = rw h refl

resident_only-load : (demand : ResourceDemand) → 0 < demand.bytes → resident_only demand ≡ false
resident_only-load demand lt = ground arith

conclude-Agrees :
    (floats : Floats) (snapshot : ResourceSnapshot floats) (demand : ResourceDemand)
    (held_by : List PressureReason) (reserve_bytes : ℕ)
    → 0 < demand.bytes
    → snapshot.effective_available_bytes
      ≡ effective_available snapshot.observation.available_memory_bytes snapshot.reserved_bytes
    → let missing = missing_required floats snapshot.observation snapshot.policy.telemetry_policy in
      let a = conclude floats snapshot demand held_by reserve_bytes missing in
      Agrees a.denial_reason a.memory_advisory snapshot.reserved_bytes demand.bytes (
        try_reserve snapshot.policy.telemetry_policy snapshot.policy.low_memory demand.bytes
          snapshot.observation.available_memory_bytes reserve_bytes snapshot.reserved_bytes [])
unfolding conclude denial
conclude-Agrees floats snapshot demand held_by reserve_bytes lt e =
    elim (Bool-cases (snapshot.holding && not (is_empty held_by))) [
      | inl h ↦ rw h tt
      | inr h ↦
          elim (Bool-cases (
            is_empty
              (missing_required floats snapshot.observation snapshot.policy.telemetry_policy))) [
                | inl m ↦
                    rw
                      (
                        h,
                        m,
                        resident_only-load demand lt,
                        e,
                        try_reserve-available _ _ _ _ _ _ (missing-available floats _ _ m),
                      )
                      (turn-Agrees snapshot.policy.low_memory _ demand.bytes reserve_bytes
                        snapshot.reserved_bytes lt)
                | inr m ↦ rw (h, m) tt
              ]
    ]

-- Where nothing was reserved since the snapshot was taken, `try_reserve` answers a demand for
-- memory as the assessment of the snapshot does. An assessment that admits the demand is followed
-- by a grant, which is one below the reserve exactly if the assessment says so; one that denies it
-- for lack of memory or because the sum overflows, by the same refusal, which leaves the
-- reservations as they are.
pub assess_demand-Agrees :
    (floats : Floats) (snapshot : ResourceSnapshot floats) (demand : ResourceDemand)
    (recovering : Bool)
    → 0 < demand.bytes
    → snapshot.effective_available_bytes
      ≡ effective_available snapshot.observation.available_memory_bytes snapshot.reserved_bytes
    → let a = assess_demand floats snapshot demand recovering in
      Agrees a.denial_reason a.memory_advisory snapshot.reserved_bytes demand.bytes (
        try_reserve snapshot.policy.telemetry_policy snapshot.policy.low_memory demand.bytes
          snapshot.observation.available_memory_bytes a.reserve_bytes snapshot.reserved_bytes [])
unfolding assess_demand conclude
assess_demand-Agrees floats snapshot demand recovering lt e =
    conclude-Agrees floats snapshot demand _ _ lt e
