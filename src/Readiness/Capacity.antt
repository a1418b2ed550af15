-- ===== src/Readiness/Capacity.antt =====
-- The tasks that a preview admits, against the pool and the host (packages/rust-core/src/platform/readiness.rs).
use native.Mathlib.Nat.{le-div_iff_mul-le}
use free_llama.Base.{
  checked_add, List, min, ℕ, ◌+◌, ◌-◌, ◌*◌, ◌/◌, ◌≤◌, ◌<◌, ◌≡◌, refl, ◌⊎◌, inl, inr, true, not,
  Option, none, some, ltb, ◌==◌, arith, Bool-cases,
}
use free_llama.Admission.State.{AdmissionState, free}
use free_llama.Resources.{Floats, LowMemoryMode, advisory, refuse, TelemetryMetric}
use free_llama.Resources.Pressure.{PressureReason}
use free_llama.Resources.Demand.{
  ResourceDemand, ResourceSnapshot, ResourceCapacityAssessment, is_advisory, conclude, denial,
  assess_demand,
}
use free_llama.Readiness.{
  Preview, cost_units, queue_capacity, by_memory, admissible_now, assessed, assess, preview_demand,
}

-- What the tasks that are admitted together need, with the reserve, is available where it is known.
abbrev pub Room : Option ℕ → ℕ → ℕ → ℕ → Type 0
Room none reserve required n = Unit
Room (some available) reserve required n = n * required + reserve ≤ available

-- No task is admitted; or one is, short of memory, under a policy that only advises; or none needs
-- memory; or all have room.
abbrev pub FitMemory : LowMemoryMode → Option ResourceCapacityAssessment → ℕ → ℕ → Type 0
FitMemory mode none required n = Unit
FitMemory mode (some v) required n =
    (n ≡ 0)
    ⊎ ((mode ≡ advisory) × (v.memory_advisory ≡ true) × (n ≡ 1))
    ⊎ (required ≡ 0)
    ⊎ Room v.effective_available_bytes v.reserve_bytes required n

is_advisory-eq : (mode : LowMemoryMode) → is_advisory mode ≡ true → mode ≡ advisory
is_advisory-eq advisory e = refl
is_advisory-eq refuse e = cc

-- A low estimate is let through under a policy that only advises.
conclude-advisory :
    (floats : Floats) (snapshot : ResourceSnapshot floats) (demand : ResourceDemand)
    (held_by : List PressureReason) (reserve_bytes : ℕ) (missing : List TelemetryMetric)
    → (conclude floats snapshot demand held_by reserve_bytes missing).memory_advisory ≡ true
    → snapshot.policy.low_memory ≡ advisory
unfolding conclude denial checked_add
conclude-advisory floats snapshot demand held_by reserve_bytes missing h =
    is_advisory-eq snapshot.policy.low_memory (ground arith)

-- What holds of the mode where the assessment that was made has a low estimate.
abbrev Advises : LowMemoryMode → Option ResourceCapacityAssessment → Type 0
Advises mode none = Unit
Advises mode (some v) = v.memory_advisory ≡ true → mode ≡ advisory

assessed-Advises :
    (floats : Floats) (p : Preview) (snapshot : ResourceSnapshot floats)
    → Advises snapshot.policy.low_memory (assessed floats p snapshot)
unfolding assessed assess_demand
assessed-Advises floats p snapshot = elim (Bool-cases p.loopback) [
  | inl l ↦ simp l (conclude-advisory floats snapshot (preview_demand p) _ _ _)
  | inr l ↦ simp l tt
]

div-fits : (n a b : ℕ) → 0 < b → n ≤ a / b → n * b ≤ a
div-fits n a b h k = (le-div_iff_mul-le {k = b} {x = n} {y = a} h).0 k

by_memory-Room :
    (o : Option ℕ) (reserve required queue : ℕ)
    → 0 < required
    → (by_memory o reserve required queue ≡ 0)
      ⊎ Room o reserve required (by_memory o reserve required queue)
by_memory-Room none reserve required queue h = inr tt
by_memory-Room (some a) reserve required queue h =
    let n = min queue ((a - reserve) / required) in
    elim (Bool-cases (n == 0)) [
      | inl z ↦ inl (ground (arith, z))
      | inr z ↦
          let le : n ≤ (a - reserve) / required = omega arith in
          let positive : 1 ≤ n = ground (arith, z) in
          let one = div-fits 1 (a - reserve) required h (omega (arith, le, positive)) in
          let all = div-fits n (a - reserve) required h le in inr (omega (arith, one, all, h))
    ]

admissible_now-FitMemory :
    (mode : LowMemoryMode) (o : Option ResourceCapacityAssessment) (required queue : ℕ)
    → Advises mode o
    → FitMemory mode o required (admissible_now o required queue)
unfolding admissible_now
admissible_now-FitMemory mode none required queue h = tt
admissible_now-FitMemory mode (some v) required queue h = elim (Bool-cases (not v.admissible)) [
  | inl a ↦ simp a (inl refl)
  | inr a ↦ elim (Bool-cases v.memory_advisory) [
    | inl m ↦ elim (Bool-cases (queue == 0)) [
      | inl z ↦ simp (a, m) (inl (ground (arith, z)))
      | inr z ↦ simp (a, m) (inr (inl (h m, refl, ground (arith, z))))
    ]
    | inr m ↦ elim (Bool-cases (ltb 0 required)) [
      | inr z ↦ simp (a, m, z) (inr (inr (inl (ground (arith, z)))))
      | inl z ↦
          elim (by_memory-Room v.effective_available_bytes v.reserve_bytes required queue
            (ground (arith, z))) [
              | inl e ↦ simp (a, m, z) (inl e)
              | inr r ↦ simp (a, m, z) (inr (inr (inr r)))
            ]
    ]
  ]
]

by_memory-le :
    (o : Option ℕ) (reserve required queue : ℕ) → by_memory o reserve required queue ≤ queue
by_memory-le none reserve required queue = omega arith
by_memory-le (some a) reserve required queue = omega arith

admissible_now-le :
    (o : Option ResourceCapacityAssessment) (required queue : ℕ)
    → admissible_now o required queue ≤ queue
unfolding admissible_now
admissible_now-le none required queue = omega arith
admissible_now-le (some v) required queue =
    ground (arith, by_memory-le v.effective_available_bytes v.reserve_bytes required queue)

queue_capacity-fits :
    (p : Preview) (pool : AdmissionState) (n : ℕ)
    → n ≤ queue_capacity p pool
    → n * cost_units p pool ≤ free pool
unfolding queue_capacity cost_units
queue_capacity-fits p pool n h = div-fits n (free pool) _ (omega arith) h

-- The units of the independent tasks that a preview admits now fit the free units of the pool. Where
-- the host was assessed and the estimate is not zero, two of them or more have room together: the
-- available memory, if it is known, covers the estimate of each and the reserve. A single one has
-- such room too, or it is admitted short of memory, which happens only under a policy that advises
-- and does not refuse.
pub assess-fits :
    (floats : Floats) (p : Preview) (snapshot : ResourceSnapshot floats) (pool : AdmissionState)
    → ((assess floats p snapshot pool).independent_tasks_admissible_now
          * (assess floats p snapshot pool).task_cost_units
        ≤ free pool)
      × FitMemory snapshot.policy.low_memory
          (assessed floats p snapshot)
          p.required
          (assess floats p snapshot pool).independent_tasks_admissible_now
unfolding assess
assess-fits floats p snapshot pool =
    let assessment = assessed floats p snapshot in
    let queue = queue_capacity p pool in
    (
      queue_capacity-fits p pool _ (admissible_now-le assessment p.required queue),
      admissible_now-FitMemory snapshot.policy.low_memory assessment p.required queue
          (assessed-Advises floats p snapshot),
    )
