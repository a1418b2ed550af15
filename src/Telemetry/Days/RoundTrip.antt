-- ===== src/Telemetry/Days/RoundTrip.antt =====
-- Reading the text of a day again (packages/rust-core/src/platform/telemetry/ledger.rs).
use free_llama.Base.{ℕ, ◌+◌, ◌-◌, ◌^◌, ◌<◌, ◌≡◌, ◌∙◌, refl, ap, some, true, ltb, arith, ◌++◌, ◌∷◌}
use free_llama.Telemetry.Days.{Date, civil, civil_number, civil_day, day_number, padded, hyphen}
use free_llama.Telemetry.Days.Civil.{civil_number-civil, civil-year, civil-bounds}
use free_llama.Telemetry.Days.Decimal.{
  padded-AreDigits, parse_i64-padded, next_part-digits, next_part-hyphen,
}

-- A date whose fields fit `i64` is read from its text.
day_number-text :
    (date : Date)
    → date.year < 2 ^ 63
    → date.month < 2 ^ 63
    → date.day < 2 ^ 63
    → day_number
        (padded 4 date.year ++ (hyphen ∷ padded 2 date.month ++ (hyphen ∷ padded 2 date.day)))
      ≡ civil_number date
unfolding day_number
day_number-text date hy hm hd =
    let year = padded 4 date.year in
    let month = padded 2 date.month in
    let day = padded 2 date.day in
    rw
      (
        next_part-hyphen year (month ++ (hyphen ∷ day)) (padded-AreDigits 4 date.year),
        parse_i64-padded 4 date.year hy,
        next_part-hyphen month day (padded-AreDigits 2 date.month),
        parse_i64-padded 2 date.month hm,
        next_part-digits day (padded-AreDigits 2 date.day),
        parse_i64-padded 2 date.day hd,
      )
      refl

-- The text that names a day is read back as its number, for every day number whose count from the
-- year 0 fits `i64`.
pub day_number-civil_day :
    (days : ℕ) → days + 719468 < 2 ^ 63 → day_number (civil_day days) ≡ some days
unfolding civil_day
day_number-civil_day days h =
    let small : ltb days (2 ^ 63) ≡ true = ground arith in
    let z = days + 719468 in
    let ((m₁, m₂), (d₁, d₂)) = civil-bounds z in
    let back : z - 719468 ≡ days = omega arith in
    rw small (
      day_number-text (civil z) (omega (arith, civil-year z (omega arith))) (omega arith)
        (omega arith)
      ∙ civil_number-civil z (omega arith)
      ∙ ap some back)
