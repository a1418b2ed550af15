-- ===== src/Examples/ResourcesExamples.antt =====
-- The resource governor (packages/rust-core/src/platform/resources) at concrete inputs, with loads
-- that are counted in tenths of a core.
use free_llama.Base.{
  List, inl, ℕ, ◌*◌, ◌/◌, ◌≤◌, ◌≡◌, ◌≢◌, refl, true, false, [], ◌∷◌, none, some, sum, leb, arith,
  u64_max,
}
use free_llama.Resources.{
  Floats, require_memory, refuse, HostResources, ResourcePolicy, validate, reserve, reserve_for,
}
use free_llama.Resources.Pressure.{
  os_memory_pressure, low_available_memory, high_cpu_load, shows, missing_required,
  pressure_reasons, load_per_cpu,
}
use free_llama.Resources.Demand.{load, ResourceSnapshot, assess_demand, conclude, denial}
use free_llama.Resources.Demand.Granted.{assess_demand-Agrees}
use free_llama.Resources.Holds.{holds_for, observe}
use free_llama.Resources.Holds.Lasting.{run_samples, observe-holds_for}
use free_llama.Resources.Wait.{Round, waiting, wait_for_demand}
use free_llama.Resources.Wait.Deadline.{wait_for_demand-ends}
use free_llama.Resources.Reservations.{Reservation, try_reserve}
use free_llama.Resources.Reservations.Accounting.{
  reserves, releases, drops, run, empty, run-ledger, run-refuse, Balanced,
}

pub le_trans : (a b c : ℕ) → leb a b ≡ true → leb b c ≡ true → leb a c ≡ true
le_trans a b c h k = ground arith

abbrev pub tenths : Floats
tenths = record {
  F = ℕ;
  zero = 0;
  is_finite = λ a. true;
  at_most = leb;
  per = λ a n. a / n;
  at_most_trans = le_trans;
}

abbrev pub gib : ℕ
gib = 1073741824

abbrev pub policy : ResourcePolicy tenths
policy = record {
  telemetry_policy = require_memory;
  low_memory = refuse;
  sample_interval = 2000;
  hold_available_percent = 15;
  resume_available_percent = 20;
  hold_available_min_bytes = gib;
  resume_available_min_bytes = 2 * gib;
  hold_load_per_cpu = 15;
  resume_load_per_cpu = 10;
  recovery_samples = 2;
  first_sample_grace = 2000;
}

-- A host of 64 GiB with a GPU, with the memory and the load given.
abbrev pub host : ℕ → ℕ → HostResources tenths
host available load = record {
  source = "linux_proc";
  total_memory_bytes = some (64 * gib);
  available_memory_bytes = some available;
  swap_out_pages = none;
  memory_pressure = none;
  load_average_one_minute = some load;
  logical_cpus = some 8;
  thermal_throttled = none;
  gpu_memory_total_bytes = some (24 * gib);
  gpu_devices = none;
}

-- The last sample had 30 GiB to give, and a busy CPU holds work.
abbrev pub snapshot : ResourceSnapshot tenths
snapshot = record {
  holding = true;
  reasons = high_cpu_load ∷ low_available_memory ∷ [];
  reserved_bytes = gib;
  effective_available_bytes = some (29 * gib);
  observation = host (30 * gib) 200;
  policy = policy;
}

abbrev pub calm : ResourceSnapshot tenths
calm = record snapshot { holding = false; reasons = [] }

assess_demand-Agrees_example :
    try_reserve require_memory refuse
      (3 * gib)
      (some (30 * gib))
      (reserve_for tenths policy (some (64 * gib)) false (3 * gib))
      gib
      []
    ≡ (Reservation.fits, gib, some (4 * gib))
unfolding assess_demand conclude denial reserve_for reserve missing_required
assess_demand-Agrees_example =
    assess_demand-Agrees tenths calm (load (3 * gib)) false (omega arith) refl

cpu_is_other : high_cpu_load ≢ os_memory_pressure
cpu_is_other = ground arith

memory_is_other : low_available_memory ≢ os_memory_pressure
memory_is_other = ground arith

observe-holds_for_example :
    holds_for high_cpu_load (
      run_samples tenths policy
        (some (host (30 * gib) 200))
        (observe tenths policy (host (30 * gib) 200) none 5 [])
        ((host (30 * gib) 0, 7) ∷ []))
    ≡ true
unfolding validate pressure_reasons shows load_per_cpu reserve
observe-holds_for_example =
    observe-holds_for tenths policy high_cpu_load (host (30 * gib) 200) none 5 []
      ((host (30 * gib) 0, 7) ∷ []) refl refl (omega arith)

run-ledger_example : Balanced u64_max (
    run require_memory refuse empty
      (reserves 5 (some 100) 20 ∷ reserves 90 (some 100) 20 ∷ releases 0 ∷ drops 0 ∷ []))
run-ledger_example =
    run-ledger require_memory refuse
      (reserves 5 (some 100) 20 ∷ reserves 90 (some 100) 20 ∷ releases 0 ∷ drops 0 ∷ [])

run-refuse_example :
    sum
      (run require_memory refuse empty
        (reserves 5 (some 100) 20 ∷ reserves 60 (some 90) 20 ∷ releases 0 ∷ [])).permits
    ≤ 100
run-refuse_example =
    run-refuse require_memory 100
      (reserves 5 (some 100) 20 ∷ reserves 60 (some 90) 20 ∷ releases 0 ∷ [])
      (refl, (refl, (omega arith, tt)))

-- A sample under which a CPU hold denies the load, and a calm one.
abbrev rounds : List (Round tenths)
rounds =
    record {
      snapshot = some (record snapshot { reasons = low_available_memory ∷ [] });
      occupied = gib;
      failures = [];
      now = 10;
      woken = 20;
    }
    ∷ record { snapshot = some calm; occupied = gib; failures = []; now = 30; woken = 40 }
    ∷ []

wait_for_demand-ends_example : wait_for_demand tenths true (load (3 * gib)) 15 rounds ≢ waiting
wait_for_demand-ends_example =
    wait_for_demand-ends tenths true (load (3 * gib)) 15 rounds (inl (omega arith))
