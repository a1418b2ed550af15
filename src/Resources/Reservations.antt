-- ===== src/Resources/Reservations.antt =====
-- The accounting of reserved memory (platform/resources/governor.rs, `try_reserve` and
-- `ResourcePermit`).
pub mod Accounting
use free_llama.Base.{
  ℕ, ◌-◌, Bool, true, false, not, ◌&&◌, List, [], ◌∷◌, Option, none, some, is_some, is_none_or, leb,
  ltb, if◌then◌else◌, u64_max, wrapping_sub, checked_add,
}
use free_llama.Resources.{
  LowMemoryMode, advisory, refuse, TelemetryPolicy, best_effort, require_memory, require_all,
}

pub data Reservation : Type 0 where
  fits : Reservation
  below_reserve : Reservation
  insufficient : Reservation
  unavailable : Reservation  -- `TelemetryUnavailable`
  overflow : Reservation

abbrev pub is_best_effort : TelemetryPolicy → Bool
is_best_effort best_effort = true
is_best_effort _ = false

abbrev pub is_refusing : LowMemoryMode → Bool
is_refusing refuse = true
is_refusing advisory = false

-- One turn of the loop, with `occupied` as it was read: the outcome, and the value that the
-- exchange is to store, if the turn gets so far.
abbrev pub turn_with : LowMemoryMode → Option ℕ → Option ℕ → Option ℕ → Reservation × Option ℕ
turn_with mode none required available = (overflow, none)
turn_with mode (some next) none available = (overflow, none)
turn_with mode (some next) (some required) available =
    if is_none_or available (λ a. leb required a)
    then (fits, some next)
    else if is_refusing mode
    then (insufficient, none)
    else (below_reserve, some next)

abbrev pub plus : Option ℕ → ℕ → Option ℕ
plus none b = none
plus (some a) b = checked_add u64_max a b

unfoldable pub turn : LowMemoryMode → ℕ → Option ℕ → ℕ → ℕ → Reservation × Option ℕ
turn mode bytes available reserve occupied =
    turn_with mode (checked_add u64_max occupied bytes)
      (plus (checked_add u64_max occupied bytes) reserve) available

-- The loop: `failures` are the values that the exchanges which failed found in place, in turn;
-- behind the last of them the exchange succeeds. The result is the outcome and the last value read,
-- with the value stored in its place.
unfoldable pub reserve_loop :
    LowMemoryMode → ℕ → Option ℕ → ℕ → ℕ → List ℕ → Reservation × ℕ × Option ℕ
reserve_loop mode bytes available reserve occupied [] =
    let (outcome, stored) = turn mode bytes available reserve occupied in
    (outcome, occupied, stored)
reserve_loop mode bytes available reserve occupied (current ∷ failures) =
    let rest = reserve_loop mode bytes available reserve current failures in
    let (outcome, stored) = turn mode bytes available reserve occupied in
    elim stored [ none ↦ (outcome, occupied, none) | some next ↦ rest ]

unfoldable pub try_reserve :
    TelemetryPolicy → LowMemoryMode → ℕ → Option ℕ → ℕ → ℕ → List ℕ → Reservation × ℕ × Option ℕ
try_reserve telemetry mode bytes available reserve occupied failures =
    if not (is_some available) && not (is_best_effort telemetry)
    then (unavailable, occupied, none)
    else reserve_loop mode bytes available reserve occupied failures

-- `ResourcePermit::release`: the reservations and the bytes that the permit still holds. A
-- `fetch_sub` wraps around below zero.
unfoldable pub release : ℕ → ℕ → ℕ × ℕ
release reservations bytes =
    if ltb 0 bytes then (wrapping_sub u64_max reservations bytes, 0) else (reservations, bytes)
