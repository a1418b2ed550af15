-- ===== src/Resources/Wait/Deadline.antt =====
-- How a wait for host capacity ends (platform/resources/governor.rs, `wait_for_demand`).
use free_llama.Base.{
  ℕ, ◌≤◌, ◌≡◌, ◌≢◌, refl, sym, ◌∙◌, ap, ◌⊎◌, inl, inr, Bool, true, false, List, [], ◌∷◌, Option,
  none, some, String, Has, arith, Bool-cases, Option-cases,
}
use free_llama.Resources.{Floats}
use free_llama.Resources.Demand.{
  ResourceDemand, ResourceSnapshot, ResourceCapacityAssessment, assess_demand, resident_only,
}
use free_llama.Resources.Reservations.{Reservation, fits, try_reserve}
use free_llama.Resources.Wait.{
  Round, Waited, admitted, waiting, reserve_round, retry, conclude_round, wait_rounds,
  wait_for_demand, refused_assessment,
}

conclude_round-ends :
    (floats : Floats) (deadline : ℕ) (demand : ResourceDemand) (round : Round floats)
    (snapshot : ResourceSnapshot floats) (assessment : ResourceCapacityAssessment)
    (reserved : Option (Reservation × Option ℕ)) (continued : Waited)
    → (deadline ≤ round.woken) ⊎ (continued ≢ waiting)
    → conclude_round floats deadline demand round snapshot assessment reserved continued ≢ waiting
unfolding conclude_round retry
conclude_round-ends floats deadline demand round snapshot assessment none continued h = ground arith
conclude_round-ends floats deadline demand round snapshot assessment (some (outcome, stored))
      continued h =
    ground arith

wait_rounds-ends :
    (floats : Floats) (deadline : ℕ) (demand : ResourceDemand) (recovering : Bool)
    (last : Option ResourceCapacityAssessment) (rounds : List (Round floats))
    → Has (λ (round : Round floats). deadline ≤ round.woken) rounds
    → wait_rounds floats deadline demand recovering last rounds ≢ waiting
unfolding wait_rounds
wait_rounds-ends floats deadline demand recovering last [] h = absurd h
wait_rounds-ends floats deadline demand recovering last (round ∷ rounds) h =
    elim (Option-cases round.snapshot) [
      | inl e ↦ rw (e, wait_rounds) (λ f. cc)
      | inr (snapshot, e) ↦
          let later : (deadline ≤ round.woken)
              ⊎ (wait_rounds floats deadline demand true
                    (some (
                      refused_assessment (assess_demand floats snapshot demand recovering) (
                        reserve_round floats demand round snapshot
                          (assess_demand floats snapshot demand recovering))))
                    rounds
                  ≢ waiting) =
            elim h [
              | inl now ↦ inl now
              | inr k ↦ inr (wait_rounds-ends floats deadline demand true _ rounds k)
            ] in
          rw (e, wait_rounds)
            (conclude_round-ends floats deadline demand round snapshot _ _ _ later)
    ]

-- The round that admitted the request: its sample makes the demand admissible, and the value that
-- the counter was set to is that of its attempt, or none for a runner that adds no memory.
pub record AdmittedBy (floats : Floats) (demand : ResourceDemand) (stored : Option ℕ)
    (round : Round floats) : Type 0 where
  pub snapshot : ResourceSnapshot floats
  pub recovering : Bool
  pub sampled : round.snapshot ≡ some snapshot
  pub admissible : (assess_demand floats snapshot demand recovering).admissible ≡ true
  pub reserved :
      ((resident_only demand ≡ true) × (stored ≡ none))
      ⊎ (stored
          ≡ (try_reserve snapshot.policy.telemetry_policy snapshot.policy.low_memory demand.bytes
              snapshot.observation.available_memory_bytes
              (assess_demand floats snapshot demand recovering).reserve_bytes
              round.occupied
              round.failures).2)

reserved_round-admitted :
    (floats : Floats) (deadline : ℕ) (demand : ResourceDemand) (round : Round floats)
    (snapshot : ResourceSnapshot floats) (assessment : ResourceCapacityAssessment)
    (outcome : Reservation) (next : Option ℕ) (continued : Waited) (status : String) (bytes : ℕ)
    (stored : Option ℕ)
    → conclude_round floats deadline demand round snapshot assessment
        (some (outcome, next))
        continued
      ≡ admitted status bytes stored
    → (continued ≡ admitted status bytes stored) ⊎ ((next ≡ stored) × (bytes ≡ demand.bytes))
unfolding conclude_round retry
reserved_round-admitted floats deadline demand round snapshot assessment outcome next continued
      status bytes stored e =
    ground arith

conclude_round-admitted :
    (floats : Floats) (deadline : ℕ) (demand : ResourceDemand) (round : Round floats)
    (snapshot : ResourceSnapshot floats) (assessment : ResourceCapacityAssessment)
    (reserved : Option (Reservation × Option ℕ)) (continued : Waited) (status : String) (bytes : ℕ)
    (stored : Option ℕ)
    → conclude_round floats deadline demand round snapshot assessment reserved continued
      ≡ admitted status bytes stored
    → (continued ≡ admitted status bytes stored)
      ⊎ ((outcome : Reservation) × (reserved ≡ some (outcome, stored)) × (bytes ≡ demand.bytes))
unfolding conclude_round retry
conclude_round-admitted floats deadline demand round snapshot assessment none continued status bytes
      stored e =
    ground arith
conclude_round-admitted floats deadline demand round snapshot assessment (some (outcome, next))
      continued status bytes stored e =
    elim (reserved_round-admitted floats deadline demand round snapshot assessment outcome next
      continued status bytes stored e) [
        | inl later ↦ inl later
        | inr (same, own) ↦ inr (outcome, ap (λ o. some (outcome, o)) same, own)
      ]

abbrev stored_of : Option (Reservation × Option ℕ) → Option ℕ
stored_of none = none
stored_of (some (outcome, stored)) = stored

-- What a turn reserved comes from a sample that admits the demand.
reserve_round-admissible :
    (floats : Floats) (demand : ResourceDemand) (round : Round floats)
    (snapshot : ResourceSnapshot floats) (recovering : Bool) (outcome : Reservation)
    (stored : Option ℕ)
    → round.snapshot ≡ some snapshot
    → reserve_round floats demand round snapshot (assess_demand floats snapshot demand recovering)
      ≡ some (outcome, stored)
    → AdmittedBy floats demand stored round
unfolding reserve_round
reserve_round-admissible floats demand round snapshot recovering outcome stored found e =
    elim (Bool-cases (assess_demand floats snapshot demand recovering).admissible) [
      | inr denied ↦
          let none_then : reserve_round floats demand round snapshot
                (assess_demand floats snapshot demand recovering)
              ≡ none =
            rw (denied, reserve_round) refl in
          cc
      | inl admits ↦ elim (Bool-cases (resident_only demand)) [
        | inl free ↦
            let own : reserve_round floats demand round snapshot
                  (assess_demand floats snapshot demand recovering)
                ≡ some (fits, none) =
              rw (admits, free, reserve_round) refl in
            record {
              snapshot = snapshot;
              recovering = recovering;
              sampled = found;
              admissible = admits;
              reserved = inl (free, ap stored_of (sym e ∙ own));
            }
        | inr load ↦
            let tried =
              try_reserve snapshot.policy.telemetry_policy snapshot.policy.low_memory demand.bytes
                snapshot.observation.available_memory_bytes
                (assess_demand floats snapshot demand recovering).reserve_bytes round.occupied
                round.failures in
            let own : reserve_round floats demand round snapshot
                  (assess_demand floats snapshot demand recovering)
                ≡ some (tried.0, tried.2) =
              rw (admits, load, reserve_round) refl in
            record {
              snapshot = snapshot;
              recovering = recovering;
              sampled = found;
              admissible = admits;
              reserved = inr (ap stored_of (sym e ∙ own));
            }
      ]
    ]

wait_rounds-admitted :
    (floats : Floats) (deadline : ℕ) (demand : ResourceDemand) (recovering : Bool)
    (last : Option ResourceCapacityAssessment) (rounds : List (Round floats)) (status : String)
    (bytes : ℕ) (stored : Option ℕ)
    → wait_rounds floats deadline demand recovering last rounds ≡ admitted status bytes stored
    → (bytes ≡ demand.bytes) × Has (AdmittedBy floats demand stored) rounds
unfolding wait_rounds
wait_rounds-admitted floats deadline demand recovering last [] status bytes stored = λ e. cc
wait_rounds-admitted floats deadline demand recovering last (round ∷ rounds) status bytes stored =
    elim (Option-cases round.snapshot) [
      | inl f ↦ simp (f, wait_rounds) (λ e. cc)
      | inr (snapshot, f) ↦
          simp (f, wait_rounds)
            (λ e.
              elim (conclude_round-admitted floats deadline demand round snapshot _ _ _ status bytes
                stored e) [
                  | inl later ↦
                      let (same, rest) =
                        wait_rounds-admitted floats deadline demand true _ rounds status bytes
                          stored later in
                      (same, inr rest)
                  | inr (outcome, own, same) ↦ (
                    same,
                    inl (
                        reserve_round-admissible floats demand round snapshot recovering outcome
                          stored f own),
                  )
                ])
    ]

-- A wait ends no later than the first time that the request wakes behind its deadline.
pub wait_for_demand-ends :
    (floats : Floats) (is_loopback : Bool) (demand : ResourceDemand) (deadline : ℕ)
    (rounds : List (Round floats))
    → Has (λ (round : Round floats). deadline ≤ round.woken) rounds
    → wait_for_demand floats is_loopback demand deadline rounds ≢ waiting
unfolding wait_for_demand
wait_for_demand-ends floats true demand deadline rounds h =
    wait_rounds-ends floats deadline demand false none rounds h
wait_for_demand-ends floats false demand deadline rounds h = ground arith

-- A permit for a local endpoint is for the bytes of the demand, and comes from a sample under which
-- the demand was admissible and from the reservation that was tried with it; only a runner that
-- adds no memory goes without one.
wait_for_demand-admitted :
    (floats : Floats) (demand : ResourceDemand) (deadline : ℕ) (rounds : List (Round floats))
    (status : String) (bytes : ℕ) (stored : Option ℕ)
    → wait_for_demand floats true demand deadline rounds ≡ admitted status bytes stored
    → (bytes ≡ demand.bytes) × Has (AdmittedBy floats demand stored) rounds
unfolding wait_for_demand
wait_for_demand-admitted floats demand deadline rounds status bytes stored e =
    wait_rounds-admitted floats deadline demand false none rounds status bytes stored e
