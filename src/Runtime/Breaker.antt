-- ===== src/Runtime/Breaker.antt =====
-- Circuit breakers around upstream failures (platform/runtime/breaker.rs). Times and durations are
-- in nanoseconds, and the clock is an argument.
pub mod Circuit
pub mod Probes
use free_llama.Base.{
  ℕ, ◌+◌, ◌-◌, Bool, true, false, List, Option, none, some, is_some, String, lookup, insert, ltb,
  leb, ◌&&◌, ◌||◌, if◌then◌else◌, u32_max, u64_max, saturating_add, wrapping_add,
}

pub record BreakerState : Type 0 where
  pub consecutive_failures : ℕ  -- u32
  pub open_until : Option ℕ
  pub probe_in_flight : Bool
  pub opened : ℕ  -- u64

abbrev pub Breakers : Type 0
Breakers = List (String × BreakerState)

-- `BreakerState::default()`.
abbrev pub closed : BreakerState
closed = record { consecutive_failures = 0; open_until = none; probe_in_flight = false; opened = 0 }

abbrev pub second : ℕ
second = 1000000000

-- `Result<Option<BreakerProbe>, Duration>`: refused for a time, let through, or let through as the
-- one probe.
pub data Check : Type 0 where
  refused : ℕ → Check
  allowed : Check
  probe : Check

abbrev pub or_default : Option BreakerState → BreakerState
or_default none = closed
or_default (some state) = state

-- `map.entry(backend).or_default()`.
abbrev pub entry : Breakers → String → BreakerState
entry map backend = or_default (lookup backend map)

-- The body of `check`, on the entry.
unfoldable pub check_until : BreakerState → ℕ → Option ℕ → BreakerState × Check
check_until state now none = (state, allowed)
check_until state now (some until) =
    if ltb now until
    then (state, refused (until - now))
    else if state.probe_in_flight
    then (state, refused second)
    else (record state { probe_in_flight = true }, probe)

unfoldable pub check_state : BreakerState → ℕ → BreakerState × Check
unfolding check_until
check_state state now = check_until state now state.open_until

unfoldable pub check : Breakers → String → ℕ → Breakers × Check
check map backend now =
    let (state, result) = check_state (entry map backend) now in (insert backend state map, result)

-- A failure, counted in `failures`.
unfoldable pub record_failure : BreakerState → ℕ → ℕ → ℕ → ℕ → BreakerState × Bool
unfolding wrapping_add
record_failure state failures threshold cooldown now =
    if ltb 0 threshold && (is_some state.open_until || leb threshold failures)
    then (
      record state {
        consecutive_failures = failures;
        open_until = some (now + cooldown);
        opened = wrapping_add u64_max state.opened 1;
      },
      true,
    )
    else (record state { consecutive_failures = failures }, false)

-- The body of `record`, on the entry; the result tells whether this failure opened the circuit.
unfoldable pub record_state : BreakerState → Bool → ℕ → ℕ → ℕ → BreakerState × Bool
unfolding record_failure saturating_add
record_state state true threshold cooldown now =
    (record state { consecutive_failures = 0; open_until = none }, false)
record_state state false threshold cooldown now =
    record_failure state (saturating_add u32_max state.consecutive_failures 1) threshold cooldown
      now

unfoldable pub record_outcome : Breakers → String → Bool → ℕ → ℕ → ℕ → Breakers × Bool
record_outcome map backend success threshold cooldown now =
    let (state, opens) = record_state (entry map backend) success threshold cooldown now in
    (insert backend state map, opens)

-- `BreakerProbe::drop`: `get_mut` finds nothing where there is no entry.
unfoldable pub drop_probe : Breakers → String → Breakers
drop_probe map backend = elim (lookup backend map) [
  | none ↦ map
  | some state ↦ insert backend (record state { probe_in_flight = false }) map
]
