-- ===== src/Runtime/Breaker/Circuit.antt =====
-- When a circuit opens, stays open, and closes.
use free_llama.Base.{
  ℕ, suc, ◌+◌, ◌-◌, ◌≤◌, ◌<◌, ◌≡◌, refl, true, false, List, [], ◌∷◌, none, some, arith, length,
  u32_max,
}
use free_llama.Runtime.Breaker.{
  BreakerState, refused, allowed, probe, second, check_state, record_state,
}

-- Failures one after another, at the times of a list.
pub fail_at : BreakerState → ℕ → ℕ → List ℕ → BreakerState
fail_at state threshold cooldown [] = state
fail_at state threshold cooldown (now ∷ rest) =
    fail_at (record_state state false threshold cooldown now).0 threshold cooldown rest

-- A closed circuit stays closed through fewer failures in a row than the threshold, and the failure
-- that reaches it opens the circuit for the cooldown.
fail_at-threshold :
    (state : BreakerState) (threshold cooldown now : ℕ) (times : List ℕ)
    → state.open_until ≡ none
    → threshold ≤ u32_max
    → state.consecutive_failures + suc (length times) ≡ threshold
    → let before = fail_at state threshold cooldown times in
      let (after, opens) = record_state before false threshold cooldown now in
      (before.open_until ≡ none)
      × (opens ≡ true)
      × (after.open_until ≡ some (now + cooldown))
      × (after.consecutive_failures ≡ threshold)
unfolding fail_at record_state
fail_at-threshold state threshold cooldown now [] closed word last = ground arith
fail_at-threshold state threshold cooldown now (t ∷ times) closed word last =
    fail_at-threshold (record_state state false threshold cooldown t).0 threshold cooldown now times
      (ground arith) word (ground arith)

-- A success closes the circuit and forgets the failures, in every state.
pub record_state-success :
    (state : BreakerState) (threshold cooldown now later : ℕ)
    → let after = (record_state state true threshold cooldown now).0 in
      (after.open_until ≡ none)
      × (after.consecutive_failures ≡ 0)
      × (check_state after later ≡ (after, allowed))
unfolding record_state check_state
record_state-success state threshold cooldown now later = (refl, refl, refl)

-- An open circuit refuses every request before its time, for exactly the time that is left.
pub check_state-open :
    (state : BreakerState) (until now : ℕ)
    → state.open_until ≡ some until
    → now < until
    → check_state state now ≡ (state, refused (until - now))
unfolding check_state
check_state-open state until now e h = ground arith

-- Once the time of an open circuit has passed, the first request is the probe, and every other one
-- is refused for a second while the probe is alive. With a threshold above 0, where the probe fails
-- the circuit is open again for a whole cooldown, whatever the count of failures; where it succeeds,
-- requests are let through.
check_state-half_open :
    (state : BreakerState) (until now later threshold cooldown : ℕ)
    → state.open_until ≡ some until
    → 0 < threshold
    → until ≤ now
    → until ≤ later
    → state.probe_in_flight ≡ false
    → let (s', r) = check_state state now in
      (r ≡ probe)
      × (check_state s' later ≡ (s', refused second))
      × ((record_state s' false threshold cooldown later).0.open_until ≡ some (later + cooldown))
      × ((check_state (record_state s' true threshold cooldown later).0 later).1 ≡ allowed)
unfolding check_state record_state
check_state-half_open state until now later threshold cooldown e pos after after' free =
    (ground arith, ground arith, ground arith, ground arith)
