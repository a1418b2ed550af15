-- ===== src/Examples/RuntimeExamples.antt =====
-- Breakers and `Retry-After` estimates at concrete inputs
-- (packages/rust-core/src/platform/runtime).
use free_llama.Base.{
  ◌≤◌, ◌≡◌, ◌↔◌, refl, List, [], ◌∷◌, some, true, false, saturating_add, saturating_mul,
}
use free_llama.Runtime.Breaker.{BreakerState, entry}
use free_llama.Runtime.Breaker.Probes.{
  Event, checks, records, run, no_traffic, count, run-single_probe,
}
use free_llama.Runtime.RetryAfter.{retry_after_seconds}

abbrev open_circuit : BreakerState
open_circuit = record {
  consecutive_failures = 3;
  open_until = some 65;
  probe_in_flight = false;
  opened = 1;
}

-- The first failure opens the circuit; of the checks after its cooldown one is the probe.
abbrev outage : List Event
outage =
    records "gpu" false 1 10 0
    ∷ checks "gpu" 5
    ∷ checks "gpu" 20
    ∷ checks "gpu" 21
    ∷ checks "cpu" 21
    ∷ []

run-single_probe_example :
    (count "gpu" (run no_traffic outage).probes ≤ 1)
    × (((entry (run no_traffic outage).breakers "gpu").probe_in_flight ≡ true)
        ↔ (count "gpu" (run no_traffic outage).probes ≡ 1))
run-single_probe_example = run-single_probe outage "gpu"

queue_of_three : retry_after_seconds 3 1 (some 8000) ≡ 32
unfolding retry_after_seconds saturating_add saturating_mul
queue_of_three = refl
