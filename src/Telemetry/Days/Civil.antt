-- ===== src/Telemetry/Days/Civil.antt =====
-- The days that a civil date counts, against those that it was made from.
use free_llama.Base.{ℕ, ◌+◌, ◌-◌, ◌*◌, ◌/◌, ◌≤◌, ◌<◌, ◌≡◌, refl, ◌∙◌, some, arith}
use free_llama.Telemetry.Days.{
  Date, year_of_era, days_before, calendar_month, calendar_year, march_month, march_year,
  count_from, since_1970, civil, civil_number,
}

year_of_era-lt : (doe : ℕ) → doe < 146097 → year_of_era doe < 400
unfolding year_of_era
year_of_era-lt doe h = omega arith

days_before-le : (doe : ℕ) → doe < 146097 → days_before (year_of_era doe) ≤ doe
unfolding year_of_era days_before
days_before-le doe h = omega arith

day_of_year-le : (doe : ℕ) → doe < 146097 → doe - days_before (year_of_era doe) ≤ 365
unfolding year_of_era days_before
day_of_year-le doe h = omega arith

days_before-year : (yoe : ℕ) → yoe ≤ days_before yoe
unfolding days_before
days_before-year yoe = omega arith

days_before-era : (yoe : ℕ) → yoe < 400 → days_before yoe ≤ 146096
unfolding days_before
days_before-era yoe h = omega arith

-- The date of a day of a year of an era.
abbrev date_of : ℕ → ℕ → ℕ → Date
date_of era yoe doy =
    let mp = (5 * doy + 2) / 153 in
    let month = calendar_month mp in
    record {
      year = calendar_year month (yoe + era * 400);
      month = month;
      day = doy - (153 * mp + 2) / 5 + 1;
    }

civil-date_of :
    (z : ℕ)
    → (era : ℕ) × (yoe : ℕ) × (doy : ℕ) × (civil z ≡ date_of era yoe doy)
      × (yoe < 400)
      × (doy ≤ 365)
      × (era * 146097 + days_before yoe + doy ≡ z)
unfolding civil
civil-date_of z =
    let era = z / 146097 in
    let doe = z - era * 146097 in
    let h : doe < 146097 = omega arith in
    let yoe = year_of_era doe in
    (
      era,
      yoe,
      doe - days_before yoe,
      refl,
      year_of_era-lt doe h,
      day_of_year-le doe h,
      omega (arith, days_before-le doe h),
    )

march_month-calendar_month : (mp : ℕ) → mp ≤ 11 → march_month (calendar_month mp) ≡ mp
march_month-calendar_month mp h = ground arith

march_year-calendar_year :
    (month year : ℕ) → march_year month (calendar_year month year) ≡ year + 400
march_year-calendar_year month year = ground arith

count_from-year :
    (era yoe mp day : ℕ)
    → yoe < 400
    → count_from (yoe + era * 400 + 400) mp day
      ≡ (era + 1) * 146097 + days_before yoe + (153 * mp + 2) / 5 + day
count_from-year era yoe mp day h =
    let e : (yoe + era * 400 + 400) / 400 ≡ era + 1 = omega arith in
    let f : yoe + era * 400 + 400 - (era + 1) * 400 ≡ yoe = omega arith in rw (e, f) refl

count_from-days :
    (era yoe doy : ℕ)
    → yoe < 400
    → doy ≤ 365
    → count_from
        (yoe + era * 400 + 400)
        ((5 * doy + 2) / 153)
        (doy - (153 * ((5 * doy + 2) / 153) + 2) / 5 + 1)
      ≡ (era * 146097 + days_before yoe + doy) + 146097 + 1
count_from-days era yoe doy h k = count_from-year era yoe ((5 * doy + 2) / 153) _ h ∙ omega arith

since_1970-some : (z : ℕ) → 719468 ≤ z → since_1970 (z + 146097 + 1) ≡ some (z - 719468)
since_1970-some z h = ground arith

-- The date of a day number from the year 0 on, counted in days again from 1970, is that number.
pub civil_number-civil : (z : ℕ) → 719468 ≤ z → civil_number (civil z) ≡ some (z - 719468)
unfolding civil_number
civil_number-civil z h =
    let (era, yoe, doy, e, hy, hd, total) = civil-date_of z in
    let mp = (5 * doy + 2) / 153 in
    let month : march_month (calendar_month mp) ≡ mp =
      march_month-calendar_month mp (omega arith) in
    let year = march_year-calendar_year (calendar_month mp) (yoe + era * 400) in
    rw (e, month, year, count_from-days era yoe doy hy hd, total) (since_1970-some z h)

-- Months are numbered from 1 to 12 and days from 1 to 31.
pub civil-bounds :
    (z : ℕ)
    → ((1 ≤ (civil z).month) × ((civil z).month ≤ 12))
      × ((1 ≤ (civil z).day) × ((civil z).day ≤ 31))
civil-bounds z = let (era, yoe, doy, e, hy, hd, total) = civil-date_of z in rw e (ground arith)

pub civil-year : (z : ℕ) → 719468 ≤ z → (civil z).year ≤ z
civil-year z h =
    let (era, yoe, doy, e, hy, hd, total) = civil-date_of z in
    let late : 1 ≤ era = omega (arith, days_before-era yoe hy) in
    rw e (ground (arith, days_before-year yoe))
