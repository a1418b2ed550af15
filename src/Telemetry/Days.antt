-- ===== src/Telemetry/Days.antt =====
-- Day arithmetic of the usage ledger (packages/rust-core/src/platform/telemetry/ledger.rs, `unix_day`,
-- `civil_day` and `day_number`). A text is the list of its characters' codes.
pub mod Decimal
pub mod Civil
pub mod RoundTrip
use free_llama.Base.{
  ℕ, zero, suc, ◌+◌, ◌-◌, ◌*◌, ◌/◌, ◌%◌, ◌^◌, Bool, true, false, ◌&&◌, List, [], ◌∷◌, ◌++◌, Option,
  none, some, ltb, leb, ◌==◌, length, if◌then◌else◌,
}

unfoldable pub unix_day : ℕ → ℕ
unix_day seconds = seconds / 86400

pub record Date : Type 0 where
  pub year : ℕ
  pub month : ℕ
  pub day : ℕ

-- The parts of a day count within its era of 400 years.
unfoldable pub year_of_era : ℕ → ℕ
year_of_era doe = (doe - doe / 1460 + doe / 36524 - doe / 146096) / 365

-- The days before a year of the era.
unfoldable pub days_before : ℕ → ℕ
days_before yoe = 365 * yoe + yoe / 4 - yoe / 100

-- Months are counted from March in between.
abbrev pub calendar_month : ℕ → ℕ
calendar_month mp = if ltb mp 10 then mp + 3 else mp - 9

abbrev pub calendar_year : ℕ → ℕ → ℕ
calendar_year month year = year + (if leb month 2 then 1 else 0)

unfoldable pub civil : ℕ → Date
civil z =
    let era = z / 146097 in
    let doe = z - era * 146097 in
    let yoe = year_of_era doe in
    let doy = doe - days_before yoe in
    let mp = (5 * doy + 2) / 153 in
    let month = calendar_month mp in
    record {
      year = calendar_year month (yoe + era * 400);
      month = month;
      day = doy - (153 * mp + 2) / 5 + 1;
    }

abbrev pub march_month : ℕ → ℕ
march_month month = if ltb 2 month then month - 3 else month + 9

-- The source counts in `i64`. Here the year is one era later, so that no value is negative.
abbrev pub march_year : ℕ → ℕ → ℕ
march_year month year = if leb month 2 then year + 399 else year + 400

abbrev pub count_from : ℕ → ℕ → ℕ → ℕ
count_from year mp day =
    let era = year / 400 in
    let yoe = year - era * 400 in era * 146097 + days_before yoe + (153 * mp + 2) / 5 + day

abbrev pub since_1970 : ℕ → Option ℕ
since_1970 days =
    if leb (146097 + 719468 + 1) days then some (days - (146097 + 719468 + 1)) else none

unfoldable pub civil_number : Date → Option ℕ
civil_number date =
    since_1970 (count_from (march_year date.month date.year) (march_month date.month) date.day)

-- The decimal digits of a number in front of a text, for a number of at most that many digits.
unfoldable pub digits : ℕ → ℕ → List ℕ → List ℕ
digits zero n text = text
digits (suc fuel) n text =
    let rest = digits fuel (n / 10) ((48 + n % 10) ∷ text) in
    if ltb n 10 then (48 + n) ∷ text else rest

abbrev pub zeros : ℕ → List ℕ → List ℕ
zeros zero text = text
zeros (suc n) text = 48 ∷ zeros n text

-- `{n:0width}`, for a number of at most twenty digits.
unfoldable pub padded : ℕ → ℕ → List ℕ
padded width n = let text = digits 20 n [] in zeros (width - length text) text

abbrev pub hyphen : ℕ
hyphen = 45

unfoldable pub civil_day : ℕ → List ℕ
civil_day days =
    let date = civil ((if ltb days (2 ^ 63) then days else 0) + 719468) in
    padded 4 date.year ++ (hyphen ∷ padded 2 date.month ++ (hyphen ∷ padded 2 date.day))

abbrev pub is_digit : ℕ → Bool
is_digit c = leb 48 c && leb c 57

unfoldable pub read_digits : ℕ → List ℕ → Option ℕ
read_digits n [] = some n
read_digits n (c ∷ text) =
    let rest = read_digits (n * 10 + (c - 48)) text in if is_digit c then rest else none

abbrev pub in_i64 : Option ℕ → Option ℕ
in_i64 none = none
in_i64 (some n) = if ltb n (2 ^ 63) then some n else none

abbrev pub read_positive : List ℕ → Option ℕ
read_positive [] = none
read_positive (c ∷ text) = in_i64 (read_digits 0 (c ∷ text))

-- `str::parse::<i64>` of a text without a hyphen: digits, behind one plus sign at most.
unfoldable pub parse_i64 : List ℕ → Option ℕ
parse_i64 [] = none
parse_i64 (c ∷ text) = if c == 43 then read_positive text else read_positive (c ∷ text)

-- The text up to the next hyphen, and what follows it (`str::split('-')`, `next`).
unfoldable pub next_part : List ℕ → List ℕ × Option (List ℕ)
next_part [] = ([], none)
next_part (c ∷ text) =
    let (part, rest) = next_part text in if c == hyphen then ([], some text) else (c ∷ part, rest)

abbrev pub and_then : {A B : Type 0} → Option A → (A → Option B) → Option B
and_then none f = none
and_then (some a) f = f a

unfoldable pub day_number : List ℕ → Option ℕ
day_number text =
    let (first, rest) = next_part text in
    and_then (parse_i64 first) (λ year. and_then rest (λ text₁.
      let (second, rest₁) = next_part text₁ in
      and_then (parse_i64 second) (λ month. and_then rest₁ (λ text₂.
        and_then (parse_i64 (next_part text₂).0)
          (λ day. civil_number (record { year = year; month = month; day = day }))))))
