-- ===== src/Resources/Reservations/Accounting.antt =====
-- The reservations and the permits that hold them (platform/resources/governor.rs).
use free_llama.Base.{
  All-imp, ℕ, ◌+◌, ◌≤◌, ◌≡◌, refl, sym, ◌∙◌, ap, true, not, ◌&&◌, List, [], ◌∷◌, Option, none, some,
  is_some, is_none_or, is_some_and, ◌||◌, ◌==◌, get_elem?, remove_at, sum, sum-remove_at, All, leb,
  u64_max, checked_add, wrapping_sub, arith, Option-cases, Bool-cases, inl, inr, ◌⊎◌,
}
use free_llama.Resources.{LowMemoryMode, refuse, TelemetryPolicy}
use free_llama.Resources.Reservations.{
  Reservation, turn, reserve_loop, try_reserve, is_refusing, is_best_effort, release,
}

-- What an attempt leaves: the outcome, the value that it read last, and the value that it stored.
record Turned (mode : LowMemoryMode) (bytes : ℕ) (available : Option ℕ) (reserve : ℕ)
    (outcome : Reservation) (read : ℕ) (stored : Option ℕ) : Type 0 where
  pub covered :
      is_none_or stored (λ next.
        not (is_refusing mode) || is_none_or available (λ a. leb (read + bytes + reserve) a))
      ≡ true
  pub exact :
      is_none_or stored (λ next. next == read + bytes && leb (next + reserve) u64_max) ≡ true

turn-Turned :
    (mode : LowMemoryMode) (bytes : ℕ) (available : Option ℕ) (reserve occupied : ℕ)
    → let (outcome, stored) = turn mode bytes available reserve occupied in
      Turned mode bytes available reserve outcome occupied stored
unfolding turn checked_add
turn-Turned mode bytes none reserve occupied = ground arith
turn-Turned mode bytes (some a) reserve occupied = ground arith

pair_eta : (p : Reservation × Option ℕ) → p.1 ≡ none → p ≡ (p.0, none)
pair_eta (a, b) e = ap (λ o. (a, o)) e

-- A loop of compare-and-exchange is atomic: whatever other requests store meanwhile, the outcome
-- and the value stored are those of one turn at the value that was in place last.
reserve_loop-turn :
    (mode : LowMemoryMode) (bytes : ℕ) (available : Option ℕ) (reserve occupied : ℕ)
    (failures : List ℕ)
    → let (outcome, read, stored) = reserve_loop mode bytes available reserve occupied failures in
      turn mode bytes available reserve read ≡ (outcome, stored)
unfolding reserve_loop
reserve_loop-turn mode bytes available reserve occupied [] = refl
reserve_loop-turn mode bytes available reserve occupied (current ∷ failures) =
    let rest = reserve_loop-turn mode bytes available reserve current failures in
    elim (Option-cases (turn mode bytes available reserve occupied).1) [
      | inl e ↦ rw (e, reserve_loop) (pair_eta _ e)
      | inr (next, e) ↦ rw (e, reserve_loop) rest
    ]

-- The counter and the bytes that each live permit holds.
pub record Ledger : Type 0 where
  pub reservations : ℕ
  pub permits : List ℕ

pub data Event : Type 0 where
  reserves : ℕ → Option ℕ → ℕ → Event
  releases : ℕ → Event
  drops : ℕ → Event

abbrev pub granted : Ledger → ℕ → Option ℕ → Ledger
granted ledger bytes none = ledger
granted ledger bytes (some next) = record { reservations = next; permits = bytes ∷ ledger.permits }

abbrev pub let_go : Ledger → ℕ → Option ℕ → (List ℕ → ℕ → List ℕ) → Ledger
let_go ledger i none keep = ledger
let_go ledger i (some bytes) keep =
    let (reservations, left) = release ledger.reservations bytes in
    record { reservations = reservations; permits = keep (remove_at ledger.permits i) left }

-- A permit that is released stays alive with nothing; one that is dropped is released and gone.
abbrev pub step : TelemetryPolicy → LowMemoryMode → Ledger → Event → Ledger
step telemetry mode ledger (reserves bytes available reserve) =
    granted ledger bytes
      (try_reserve telemetry mode bytes available reserve ledger.reservations []).2
step telemetry mode ledger (releases i) =
    let_go ledger i (get_elem? ledger.permits i) (λ permits left. left ∷ permits)
step telemetry mode ledger (drops i) =
    let_go ledger i (get_elem? ledger.permits i) (λ permits left. permits)

abbrev pub run : TelemetryPolicy → LowMemoryMode → Ledger → List Event → Ledger
run telemetry mode ledger [] = ledger
run telemetry mode ledger (event ∷ events) =
    run telemetry mode (step telemetry mode ledger event) events

-- The counter is the sum of what the live permits hold, and at most `top`.
pub record Balanced (top : ℕ) (ledger : Ledger) : Type 0 where
  pub total : ledger.reservations ≡ sum ledger.permits
  pub within : ledger.reservations ≤ top

release-Balanced :
    (top : ℕ) (ledger : Ledger) (i bytes : ℕ)
    → Balanced top ledger
    → get_elem? ledger.permits i ≡ some bytes
    → let (reservations, left) = release ledger.reservations bytes in
      (reservations ≡ sum (remove_at ledger.permits i)) × (left ≡ 0) × (reservations ≤ top)
unfolding release wrapping_sub
release-Balanced top ledger i bytes v e =
    let all = sum-remove_at ledger.permits i bytes e in ground (arith, v.total, v.within)

let_go-Balanced :
    (top : ℕ) (ledger : Ledger) (i : ℕ) (keep : List ℕ → ℕ → List ℕ) (found : Option ℕ)
    → ((permits : List ℕ) (left : ℕ) → left ≡ 0 → sum (keep permits left) ≡ sum permits)
    → get_elem? ledger.permits i ≡ found
    → Balanced top ledger
    → Balanced top (let_go ledger i found keep)
let_go-Balanced top ledger i keep none k e v = v
let_go-Balanced top ledger i keep (some bytes) k e v =
    let (sums, left, within) = release-Balanced top ledger i bytes v e in
    record { total = sums ∙ sym (k _ _ left); within = within }

granted-Balanced :
    (mode : LowMemoryMode) (top bytes : ℕ) (available : Option ℕ) (reserve : ℕ) (ledger : Ledger)
    (outcome : Reservation) (stored : Option ℕ)
    → Turned mode bytes available reserve outcome ledger.reservations stored
    → (u64_max ≤ top)
      ⊎ ((is_refusing mode ≡ true) × (is_some_and available (λ a. leb a top) ≡ true))
    → Balanced top ledger
    → Balanced top (granted ledger bytes stored)
granted-Balanced mode top bytes available reserve ledger outcome none o h v = v
granted-Balanced mode top bytes available reserve ledger outcome (some next) o (inl h) v =
    ground (arith, o.exact, v.total, v.within)
granted-Balanced mode top bytes none reserve ledger outcome (some next) o (inr h) v = cc
granted-Balanced mode top bytes (some a) reserve ledger outcome (some next) o (inr h) v =
    ground (arith, o.exact, o.covered, v.total, v.within)

try_reserve-Turned :
    (telemetry : TelemetryPolicy) (mode : LowMemoryMode) (bytes : ℕ) (available : Option ℕ)
    (reserve occupied : ℕ)
    → let (outcome, read, stored) =
        try_reserve telemetry mode bytes available reserve occupied [] in
      Turned mode bytes available reserve outcome occupied stored
unfolding try_reserve reserve_loop
try_reserve-Turned telemetry mode bytes available reserve occupied =
    elim (Bool-cases (not (is_some available) && not (is_best_effort telemetry))) [
      | inl e ↦ rw (e, try_reserve) (record { covered = refl; exact = refl })
      | inr e ↦ rw (e, try_reserve) (turn-Turned mode bytes available reserve occupied)
    ]

-- What a bound needs of an event: nothing where it is the width of the counter, and elsewhere that
-- the policy refuses and the sample reports no more than the bound.
abbrev Bounded : LowMemoryMode → ℕ → Event → Type 0
Bounded mode top (reserves bytes available reserve) =
    (u64_max ≤ top) ⊎ ((is_refusing mode ≡ true) × (is_some_and available (λ a. leb a top) ≡ true))
Bounded mode top (releases i) = 0 ≤ top
Bounded mode top (drops i) = 0 ≤ top

step-Balanced :
    (telemetry : TelemetryPolicy) (mode : LowMemoryMode) (top : ℕ) (ledger : Ledger) (event : Event)
    → Bounded mode top event
    → Balanced top ledger
    → Balanced top (step telemetry mode ledger event)
step-Balanced telemetry mode top ledger (reserves bytes available reserve) h v =
    granted-Balanced mode top bytes available reserve ledger _ _
      (try_reserve-Turned telemetry mode bytes available reserve ledger.reservations) h v
step-Balanced telemetry mode top ledger (releases i) h v =
    let_go-Balanced top ledger i _ _ (λ permits left e. omega (arith, e)) refl v
step-Balanced telemetry mode top ledger (drops i) h v =
    let_go-Balanced top ledger i _ _ (λ permits left e. refl) refl v

run-Balanced :
    (telemetry : TelemetryPolicy) (mode : LowMemoryMode) (top : ℕ) (events : List Event)
    (ledger : Ledger)
    → All (Bounded mode top) events
    → Balanced top ledger
    → Balanced top (run telemetry mode ledger events)
run-Balanced telemetry mode top [] ledger h v = v
run-Balanced telemetry mode top (event ∷ events) ledger h v =
    run-Balanced telemetry mode top events (step telemetry mode ledger event) h.1
      (step-Balanced telemetry mode top ledger event h.0 v)

abbrev pub empty : Ledger
empty = record { reservations = 0; permits = [] }

any_event : (mode : LowMemoryMode) (events : List Event) → All (Bounded mode u64_max) events
any_event mode [] = tt
any_event mode (reserves bytes available reserve ∷ events) =
    (inl (omega arith), any_event mode events)
any_event mode (releases i ∷ events) = (omega arith, any_event mode events)
any_event mode (drops i ∷ events) = (omega arith, any_event mode events)

-- However reservations, releases and drops of permits follow each other, the counter of reserved
-- bytes is the sum of what the live permits hold, and it never wraps around.
pub run-ledger :
    (telemetry : TelemetryPolicy) (mode : LowMemoryMode) (events : List Event)
    → Balanced u64_max (run telemetry mode empty events)
run-ledger telemetry mode events =
    run-Balanced telemetry mode u64_max events empty (any_event mode events)
      (record { total = refl; within = omega arith })

-- A reservation whose sample reports some available memory, of at most `top` bytes.
abbrev pub Reports : ℕ → Event → Type 0
Reports top (reserves bytes available reserve) = is_some_and available (λ a. leb a top) ≡ true
Reports top (releases i) = 0 ≤ top
Reports top (drops i) = 0 ≤ top

Reports-Bounded : (top : ℕ) (event : Event) → Reports top event → Bounded refuse top event
Reports-Bounded top (reserves bytes available reserve) h = inr (refl, h)
Reports-Bounded top (releases i) h = h
Reports-Bounded top (drops i) h = h

-- Where the policy refuses what does not fit and every sample reports some available memory of at
-- most `top` bytes, the live permits together never hold more than `top`, however the events of the
-- requests follow each other.
pub run-refuse :
    (telemetry : TelemetryPolicy) (top : ℕ) (events : List Event)
    → All (Reports top) events
    → sum (run telemetry refuse empty events).permits ≤ top
run-refuse telemetry top events h =
    let v : Balanced top (run telemetry refuse empty events) =
      run-Balanced telemetry refuse top events empty
        (All-imp (Reports top) (Bounded refuse top) (Reports-Bounded top) events h)
        (record { total = refl; within = omega arith }) in
    omega (arith, v.total, v.within)
