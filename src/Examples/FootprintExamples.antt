-- ===== src/Examples/FootprintExamples.antt =====
-- Measurements and estimates (packages/rust-core/src/platform/footprint.rs) at concrete inputs.
use free_llama.Base.{lookup, ◌≤◌, ◌≡◌, refl, true, [], none, some, arith}
use free_llama.Examples.RoutingExamples.{small}
use free_llama.Footprint.{
  FootprintHistory, Observation, default_hints, record_observation, store, taken_under, hints_for,
}
use free_llama.Footprint.Estimate.{requirement, estimate, observed_at, smaller_at, kv_bytes}
use free_llama.Footprint.Measured.{record_observation-requirement, verified}
use free_llama.Footprint.Limits.{Limited}

abbrev no_history : FootprintHistory
no_history = record { samples = []; hints = default_hints; backend_hints = [] }

no_history-Limited : Limited no_history
no_history-Limited = record { room = omega arith; distinct = tt; sized = tt }

abbrev seen : Observation
seen = verified no_history "gpu" "sha256:llama:1b" 8192 2000

abbrev learned : FootprintHistory
learned = (record_observation no_history "gpu" (some "sha256:llama:1b") seen).0

learned_estimate : (requirement learned "gpu" small 4096 none true).required_available_bytes ≡ 2000
unfolding requirement estimate record_observation store taken_under hints_for observed_at lookup
learned_estimate = refl

unknown_estimate :
    (requirement no_history "gpu" small 4096 none true).required_available_bytes ≡ 135
unfolding requirement estimate hints_for observed_at smaller_at kv_bytes
unknown_estimate = refl

record_observation-requirement_example :
    2000 ≤ (requirement learned "gpu" small 4096 none true).required_available_bytes
record_observation-requirement_example =
    record_observation-requirement no_history "gpu" "sha256:llama:1b" 8192 2000 small 4096 refl refl
      (omega arith) (omega arith) (omega arith)
