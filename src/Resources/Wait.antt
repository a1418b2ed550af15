-- ===== src/Resources/Wait.antt =====
-- The wait of a request for host capacity (platform/resources/governor.rs, `wait_for_demand`).
-- Instants are in nanoseconds.
pub mod Deadline
use free_llama.Base.{
  ℕ, Bool, true, false, not, ◌&&◌, List, [], ◌∷◌, Option, none, some, is_some, String, leb, ◌==◌,
  if◌then◌else◌,
}
use free_llama.Resources.{Floats}
use free_llama.Resources.Demand.{
  ResourceDemand, ResourceSnapshot, ResourceCapacityAssessment, CapacityDenialReason,
  insufficient_capacity, telemetry_unavailable, arithmetic_overflow, assess_demand,
}
use free_llama.Resources.Reservations.{
  Reservation, fits, below_reserve, insufficient, unavailable, overflow, try_reserve,
}

-- What one turn of the loop meets: the sample, or none where it came too late; the reservations
-- that it reads, with the values that the exchanges which failed found; the instant behind the
-- attempt; and the instant at which the request wakes.
pub record Round (floats : Floats) : Type 0 where
  pub snapshot : Option (ResourceSnapshot floats)
  pub occupied : ℕ
  pub failures : List ℕ
  pub now : ℕ
  pub woken : ℕ

-- `Ok` with a permit, of which the receipt's status and the reserved bytes are kept, with the value
-- that the counter was set to; `Err` with the last assessment; or a wait that has not ended.
pub data Waited : Type 0 where
  admitted : String → ℕ → Option ℕ → Waited
  deadline_exceeded : Option ResourceCapacityAssessment → Waited
  waiting : Waited

-- `deny_reservation`.
abbrev deny :
    ResourceCapacityAssessment → String → CapacityDenialReason → ResourceCapacityAssessment
deny assessment status reason = record assessment {
  admissible = false;
  status = status;
  denial_reason = some reason;
}

unfoldable pub deny_reservation :
    ResourceCapacityAssessment → Reservation → ResourceCapacityAssessment
deny_reservation assessment fits = assessment
deny_reservation assessment below_reserve = assessment
deny_reservation assessment insufficient =
    deny assessment "held_insufficient_capacity" insufficient_capacity
deny_reservation assessment unavailable =
    deny assessment "held_telemetry_unavailable" telemetry_unavailable
deny_reservation assessment overflow =
    deny assessment "held_arithmetic_overflow" arithmetic_overflow

abbrev is_below : Reservation → Bool
is_below below_reserve = true
is_below _ = false

-- `matches!(outcome, Fits | BelowReserve)`.
abbrev pub is_reserved : Reservation → Bool
is_reserved fits = true
is_reserved below_reserve = true
is_reserved _ = false

abbrev pub admitted_status : Bool → Option ℕ → String
admitted_status true available = "admitted_low_memory_estimate"
admitted_status false (some bytes) = "admitted"
admitted_status false none = "admitted_telemetry_unknown"

-- The assessment that a turn leaves in `last_assessment`.
abbrev pub refused_assessment :
    ResourceCapacityAssessment → Option (Reservation × Option ℕ) → ResourceCapacityAssessment
refused_assessment assessment none = assessment
refused_assessment assessment (some (outcome, stored)) = deny_reservation assessment outcome

module _ (floats : Floats) where
  -- The reservation of a turn, if its assessment lets it try one, and the value stored.
  unfoldable pub reserve_round :
      ResourceDemand
      → Round floats
      → ResourceSnapshot floats
      → ResourceCapacityAssessment
      → Option (Reservation × Option ℕ)
  reserve_round demand round snapshot assessment =
      if not assessment.admissible
      then none
      else if demand.resident && (demand.bytes == 0)
      then some (fits, none)
      else (let (outcome, read, stored) =
            try_reserve snapshot.policy.telemetry_policy snapshot.policy.low_memory demand.bytes
              snapshot.observation.available_memory_bytes assessment.reserve_bytes round.occupied
              round.failures in
          some (outcome, stored))

  -- The end of a turn that reserved nothing: `continued` is the rest of the loop.
  unfoldable pub retry : ℕ → Round floats → ResourceCapacityAssessment → Waited → Waited
  retry deadline round assessment continued =
      if leb deadline round.now
      then deadline_exceeded (some assessment)
      else if leb deadline round.woken
      then deadline_exceeded (some assessment)
      else continued

  unfoldable pub conclude_round :
      ℕ
      → ResourceDemand
      → Round floats
      → ResourceSnapshot floats
      → ResourceCapacityAssessment
      → Option (Reservation × Option ℕ)
      → Waited
      → Waited
  conclude_round deadline demand round snapshot assessment none continued =
      retry deadline round assessment continued
  conclude_round deadline demand round snapshot assessment (some (outcome, stored)) continued =
      if is_reserved outcome
      then admitted
          (admitted_status (if is_below outcome then true else assessment.memory_advisory)
            snapshot.observation.available_memory_bytes)
          demand.bytes stored
      else retry deadline round (deny_reservation assessment outcome) continued

  unfoldable pub wait_rounds :
      ℕ → ResourceDemand → Bool → Option ResourceCapacityAssessment → List (Round floats) → Waited
  wait_rounds deadline demand recovering last [] = waiting
  wait_rounds deadline demand recovering last (round ∷ rounds) = elim round.snapshot [
    | none ↦ deadline_exceeded last
    | some snapshot ↦
        let assessment = assess_demand floats snapshot demand recovering in
        let reserved = reserve_round demand round snapshot assessment in
        let last' = refused_assessment assessment reserved in
        let continued = wait_rounds deadline demand true (some last') rounds in
        conclude_round deadline demand round snapshot assessment reserved continued
  ]

  -- `is_loopback` is what `is_loopback_url` says of the upstream.
  unfoldable pub wait_for_demand : Bool → ResourceDemand → ℕ → List (Round floats) → Waited
  wait_for_demand is_loopback demand deadline rounds =
      if not is_loopback
      then admitted "bypassed_remote" 0 none
      else wait_rounds deadline demand false none rounds
