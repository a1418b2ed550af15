-- ===== src/Readiness/Runnable.antt =====
-- What a preview says of its task, and how many it admits (packages/rust-core/src/platform/readiness.rs).
use native.Mathlib.Nat.{le-div_iff_mul-le}
use free_llama.Base.{
  ℕ, ◌+◌, ◌-◌, ◌≤◌, ◌<◌, ◌≡◌, refl, subst, inl, inr, Bool, true, false, not, ◌&&◌, List, Option,
  none, some, ltb, same_text, arith, Bool-cases, is_some_and, some-injective, String, if◌then◌else◌,
  checked_add,
}
use free_llama.Admission.State.{AdmissionState}
use free_llama.Resources.{Floats, TelemetryMetric}
use free_llama.Resources.Pressure.{PressureReason}
use free_llama.Resources.Demand.{
  ResourceDemand, ResourceSnapshot, ResourceCapacityAssessment, CapacityDenialReason, denial,
  conclude, assess_demand, status_name,
}
use free_llama.Readiness.{
  Preview, queue_capacity, queue_word, dispatch_word, by_memory, admissible_now, assessed, assess,
  preview_demand,
}

-- What an assessment of a demand says of memory where it is admissible without a low estimate.
abbrev Leaves : ℕ → ResourceCapacityAssessment → Type 0
Leaves bytes v =
    (available : ℕ)
    → v.admissible ≡ true
    → v.memory_advisory ≡ false
    → 0 < bytes
    → v.effective_available_bytes ≡ some available
    → bytes + v.reserve_bytes ≤ available

abbrev Held : ResourceCapacityAssessment → Type 0
Held v = same_text v.status "runnable_now" ≡ false

status_name-Held :
    (reason : Option CapacityDenialReason) (low : Bool) (available : Option ℕ)
    → same_text (status_name reason low available) "runnable_now" ≡ false
status_name-Held (some CapacityDenialReason.host_pressure) low available = refl
status_name-Held (some CapacityDenialReason.telemetry_unavailable) low available = refl
status_name-Held (some CapacityDenialReason.insufficient_capacity) low available = refl
status_name-Held (some CapacityDenialReason.arithmetic_overflow) low available = refl
status_name-Held none true available = refl
status_name-Held none false none = refl
status_name-Held none false (some bytes) = refl

conclude-Leaves :
    (floats : Floats) (snapshot : ResourceSnapshot floats) (demand : ResourceDemand)
    (held_by : List PressureReason) (reserve_bytes : ℕ) (missing : List TelemetryMetric)
    → Leaves demand.bytes (conclude floats snapshot demand held_by reserve_bytes missing)
unfolding conclude denial checked_add
conclude-Leaves floats snapshot demand held_by reserve_bytes missing available h k lt e =
    ground arith

conclude-Held :
    (floats : Floats) (snapshot : ResourceSnapshot floats) (demand : ResourceDemand)
    (held_by : List PressureReason) (reserve_bytes : ℕ) (missing : List TelemetryMetric)
    → Held (conclude floats snapshot demand held_by reserve_bytes missing)
unfolding conclude denial checked_add
conclude-Held floats snapshot demand held_by reserve_bytes missing = status_name-Held _ _ _

assess_demand-Leaves :
    (floats : Floats) (snapshot : ResourceSnapshot floats) (demand : ResourceDemand)
    (recovering : Bool)
    → Leaves demand.bytes (assess_demand floats snapshot demand recovering)
unfolding assess_demand
assess_demand-Leaves floats snapshot demand recovering =
    conclude-Leaves floats snapshot demand _ _ _

assess_demand-Held :
    (floats : Floats) (snapshot : ResourceSnapshot floats) (demand : ResourceDemand)
    (recovering : Bool)
    → Held (assess_demand floats snapshot demand recovering)
unfolding assess_demand
assess_demand-Held floats snapshot demand recovering = conclude-Held floats snapshot demand _ _ _

by_memory-positive :
    (v : ResourceCapacityAssessment) (o : Option ℕ) (required queue : ℕ)
    → v.effective_available_bytes ≡ o
    → Leaves required v
    → v.admissible ≡ true
    → v.memory_advisory ≡ false
    → 0 < required
    → 1 ≤ queue
    → 1 ≤ by_memory o v.reserve_bytes required queue
by_memory-positive v none required queue e l a m lt q = q
by_memory-positive v (some available) required queue e l a m lt q =
    let room = l available a m lt e in
    let one =
      (le-div_iff_mul-le {k = required} {x = 1} {y = available - v.reserve_bytes} lt).1
        (omega (arith, room)) in
    omega (arith, one, q)

preview_demand-bytes : (p : Preview) → (preview_demand p).bytes ≡ p.required
preview_demand-bytes p = ground arith

queue_word-positive : (n : ℕ) → same_text (queue_word n) "runnable_now" ≡ true → 1 ≤ n
queue_word-positive n h = elim (Bool-cases (ltb 0 n)) [
  | inl e ↦ ground (arith, e)
  | inr e ↦ cc (
      subst (λ b. same_text (if b then "runnable_now" else "queue_likely") "runnable_now" ≡ true) e
        h)
]

runnable_cases :
    (status : String) (a t m q : Bool)
    → same_text status "runnable_now" ≡ false
    → same_text
        (if not a
          then status
          else if t && q
          then "runnable_telemetry_unknown"
          else if m && q
          then "runnable_low_memory_estimate"
          else if q
          then "runnable_now"
          else "queue_likely")
        "runnable_now"
      ≡ true
    → (a ≡ true) × (q ≡ true) × (m ≡ false)
runnable_cases status false t m q held h = cc
runnable_cases status true true m true held h = cc
runnable_cases status true false true true held h = cc
runnable_cases status true false false true held h = (refl, refl, refl)
runnable_cases status true true true false held h = cc
runnable_cases status true true false false held h = cc
runnable_cases status true false true false held h = cc
runnable_cases status true false false false held h = cc

-- Where a dispatch runs now, the task is admissible without a low estimate and the queue has room.
dispatch_word-runnable :
    (v : ResourceCapacityAssessment) (queue : ℕ)
    → Held v
    → same_text (dispatch_word (some v) queue) "runnable_now" ≡ true
    → (v.admissible ≡ true) × (ltb 0 queue ≡ true) × (v.memory_advisory ≡ false)
dispatch_word-runnable v queue held h =
    runnable_cases v.status v.admissible (same_text v.status "ready_telemetry_unknown")
      v.memory_advisory (ltb 0 queue) held h

admissible_now-runnable :
    (o : Option ResourceCapacityAssessment) (required queue : ℕ)
    → (is_some_and o (λ v. same_text v.status "runnable_now") ≡ false)
    → ((v : ResourceCapacityAssessment) → o ≡ some v → Leaves required v)
    → same_text (dispatch_word o queue) "runnable_now" ≡ true
    → 1 ≤ admissible_now o required queue
unfolding admissible_now
admissible_now-runnable none required queue held leaves h = queue_word-positive queue h
admissible_now-runnable (some v) required queue held leaves h =
    let (a, q, m) = dispatch_word-runnable v queue held h in
    let room : 1 ≤ queue = ground (arith, q) in
    elim (Bool-cases (ltb 0 required)) [
      | inl z ↦
          simp (a, m, z)
            (by_memory-positive v v.effective_available_bytes required queue refl (leaves v refl) a
              m (ground (arith, z)) room)
      | inr z ↦ simp (a, m, z) room
    ]

assessed-Held :
    (floats : Floats) (p : Preview) (snapshot : ResourceSnapshot floats)
    → is_some_and (assessed floats p snapshot) (λ v. same_text v.status "runnable_now") ≡ false
unfolding assessed
assessed-Held floats p snapshot = elim (Bool-cases p.loopback) [
  | inl l ↦ simp l (assess_demand-Held floats snapshot (preview_demand p) false)
  | inr l ↦ simp l refl
]

assessed-Leaves :
    (floats : Floats) (p : Preview) (snapshot : ResourceSnapshot floats)
    (v : ResourceCapacityAssessment)
    → assessed floats p snapshot ≡ some v
    → Leaves p.required v
unfolding assessed
assessed-Leaves floats p snapshot v e =
    let demand = preview_demand p in
    let leaves = assess_demand-Leaves floats snapshot demand false in
    elim (Bool-cases p.loopback) [
      | inl l ↦
          let same = some-injective _ _ (
            subst
              (λ b.
                (if b then some (assess_demand floats snapshot demand false) else none) ≡ some v)
              l e) in
          subst (Leaves p.required) same (
            subst (λ b. Leaves b (assess_demand floats snapshot demand false))
              (preview_demand-bytes p) leaves)
      | inr l ↦ cc (
          subst
            (λ b. (if b then some (assess_demand floats snapshot demand false) else none) ≡ some v)
            l e)
    ]

-- Where a preview says that its task runs now, it admits one task at least.
pub assess-runnable :
    (floats : Floats) (p : Preview) (snapshot : ResourceSnapshot floats) (pool : AdmissionState)
    → same_text (assess floats p snapshot pool).dispatch_readiness "runnable_now" ≡ true
    → 1 ≤ (assess floats p snapshot pool).independent_tasks_admissible_now
unfolding assess
assess-runnable floats p snapshot pool h =
    admissible_now-runnable (assessed floats p snapshot) p.required (queue_capacity p pool)
      (assessed-Held floats p snapshot) (assessed-Leaves floats p snapshot) h
