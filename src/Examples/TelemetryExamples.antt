-- ===== src/Examples/TelemetryExamples.antt =====
-- The usage ledger (packages/rust-core/src/platform/telemetry) at concrete inputs.
use free_llama.Base.{ℕ, ◌+◌, ◌≡◌, refl, true, false, List, [], ◌∷◌, some, arith}
use free_llama.Telemetry.Days.{
  civil, civil_day, day_number, civil_number, year_of_era, days_before, digits, padded, parse_i64,
  read_digits, next_part,
}
use free_llama.Telemetry.Days.RoundTrip.{day_number-civil_day}
use free_llama.Telemetry.Ledger.{
  Event, records, flushes, receives, completes, fresh, run, step, enqueue, try_flush, receive,
  complete,
}
use free_llama.Telemetry.Ledger.Accounting.{Balanced, run-Balanced}

-- 29 February 2024.
leap_day : civil_day 19782 ≡ 50 ∷ 48 ∷ 50 ∷ 52 ∷ 45 ∷ 48 ∷ 50 ∷ 45 ∷ 50 ∷ 57 ∷ []
unfolding civil_day civil year_of_era days_before padded digits
leap_day = refl

read_leap_day : day_number (50 ∷ 48 ∷ 50 ∷ 52 ∷ 45 ∷ 48 ∷ 50 ∷ 45 ∷ 50 ∷ 57 ∷ []) ≡ some 19782
unfolding day_number civil_number days_before parse_i64 read_digits next_part
read_leap_day = refl

day_number-civil_day_example : day_number (civil_day 19782) ≡ some 19782
day_number-civil_day_example = day_number-civil_day 19782 (omega arith)

abbrev busy : List (Event ℕ)
busy =
    records 7
    ∷ records 8
    ∷ receives
    ∷ records 9
    ∷ completes true
    ∷ flushes 1
    ∷ receives
    ∷ completes false
    ∷ receives
    ∷ []

busy_drops : (run 1 (fresh 4) busy).inner.ledger_dropped ≡ 1
unfolding step enqueue try_flush receive complete
busy_drops = refl

run-Balanced_example : Balanced 1 4 (4 + 3) (run 1 (fresh 4) busy)
run-Balanced_example = run-Balanced 1 4 busy
