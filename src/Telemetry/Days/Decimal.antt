-- ===== src/Telemetry/Days/Decimal.antt =====
-- Reading a number again that was written in decimal, and splitting a text at its hyphens.
use free_llama.Base.{
  ℕ, zero, suc, ◌+◌, ◌-◌, ◌*◌, ◌/◌, ◌%◌, ◌^◌, ◌≤◌, ◌<◌, ◌≡◌, ◌∙◌, refl, ap, true, false, List, [],
  ◌∷◌, ◌++◌, none, some, ltb, ltb→lt, ◌==◌, length, All, arith, Bool-cases, inl, inr,
}
use free_llama.Telemetry.Days.{
  digits, zeros, padded, hyphen, is_digit, read_digits, in_i64, parse_i64, next_part,
}

pow_suc : (f : ℕ) → 10 ^ suc f ≡ 10 ^ f * 10
pow_suc f = ground arith

read_digits-digit :
    (acc d : ℕ) (text : List ℕ)
    → d < 10
    → read_digits acc ((48 + d) ∷ text) ≡ read_digits (acc * 10 + d) text
unfolding read_digits
read_digits-digit acc d text h =
    let e : is_digit (48 + d) ≡ true = ground arith in
    let f : 48 + d - 48 ≡ d = omega arith in rw (e, f) refl

-- Reading the digits of a number that stand in front of a text.
read_digits-digits :
    (fuel n : ℕ) (text : List ℕ)
    → n < 10 ^ fuel
    → read_digits 0 (digits fuel n text) ≡ read_digits n text
unfolding digits
read_digits-digits zero n text h = let e : 0 ≡ n = omega arith in rw e refl
read_digits-digits (suc fuel) n text h = elim (Bool-cases (ltb n 10)) [
  | inl e ↦
      let plain : 0 * 10 + n ≡ n = omega arith in
      rw e (read_digits-digit 0 n text (ltb→lt n 10 e) ∙ ap (λ k. read_digits k text) plain)
  | inr e ↦
      let le : n / 10 < 10 ^ fuel = omega (arith, pow_suc fuel) in
      let back : n / 10 * 10 + n % 10 ≡ n = omega arith in
      rw e (
        read_digits-digits fuel (n / 10) ((48 + n % 10) ∷ text) le
        ∙ read_digits-digit (n / 10) (n % 10) text (omega arith)
        ∙ ap (λ k. read_digits k text) back)
]

read_digits-zeros : (k : ℕ) (text : List ℕ) → read_digits 0 (zeros k text) ≡ read_digits 0 text
read_digits-zeros zero text = refl
read_digits-zeros (suc k) text =
    read_digits-digit 0 0 (zeros k text) (omega arith) ∙ read_digits-zeros k text

abbrev pub AreDigits : List ℕ → Type 0
AreDigits = All (λ c. is_digit c ≡ true)

digits-AreDigits : (fuel n : ℕ) (text : List ℕ) → AreDigits text → AreDigits (digits fuel n text)
unfolding digits
digits-AreDigits zero n text h = h
digits-AreDigits (suc fuel) n text h = elim (Bool-cases (ltb n 10)) [
  | inl e ↦ rw e ((ground arith), h)
  | inr e ↦
      let d : is_digit (48 + n % 10) ≡ true = ground arith in
      rw e (digits-AreDigits fuel (n / 10) ((48 + n % 10) ∷ text) (d, h))
]

zeros-AreDigits : (k : ℕ) (text : List ℕ) → AreDigits text → AreDigits (zeros k text)
zeros-AreDigits zero text h = h
zeros-AreDigits (suc k) text h = (refl, zeros-AreDigits k text h)

length-digits : (fuel n : ℕ) (text : List ℕ) → length text ≤ length (digits fuel n text)
unfolding digits
length-digits zero n text = omega arith
length-digits (suc fuel) n text = ground (arith, length-digits fuel (n / 10) ((48 + n % 10) ∷ text))

length-zeros : (k : ℕ) (text : List ℕ) → length text ≤ length (zeros k text)
length-zeros zero text = omega arith
length-zeros (suc k) text = omega (arith, length-zeros k text)

parse_i64-digits :
    (text : List ℕ)
    → AreDigits text
    → 1 ≤ length text
    → parse_i64 text ≡ in_i64 (read_digits 0 text)
unfolding parse_i64
parse_i64-digits [] h k = absurd (omega arith)
parse_i64-digits (c ∷ text) h k = let e : (c == 43) ≡ false = ground arith in rw e refl

length-digits-pos : (n : ℕ) → 1 ≤ length (digits 20 n [])
unfolding digits
length-digits-pos n = ground (arith, length-digits 19 (n / 10) ((48 + n % 10) ∷ []))

read_digits-nil : (n : ℕ) → read_digits n [] ≡ some n
unfolding read_digits
read_digits-nil n = refl

pub padded-AreDigits : (width n : ℕ) → AreDigits (padded width n)
unfolding padded
padded-AreDigits width n = zeros-AreDigits _ _ (digits-AreDigits 20 n [] tt)

-- A number below 2 ^ 63 that is written with leading zeros is read again.
pub parse_i64-padded : (width n : ℕ) → n < 2 ^ 63 → parse_i64 (padded width n) ≡ some n
unfolding padded
parse_i64-padded width n h =
    let text = digits 20 n [] in
    let padding = width - length text in
    let bound : n < 10 ^ 20 = omega arith in
    let written = zeros-AreDigits padding text (digits-AreDigits 20 n [] tt) in
    let small : in_i64 (some n) ≡ some n = ground arith in
    parse_i64-digits (zeros padding text) written
      (omega (arith, length-zeros padding text, length-digits-pos n))
    ∙ ap in_i64 (read_digits-zeros padding text ∙ read_digits-digits 20 n [] bound)
    ∙ ap in_i64 (read_digits-nil n)
    ∙ small

pub next_part-digits : (part : List ℕ) → AreDigits part → next_part part ≡ (part, none)
unfolding next_part
next_part-digits [] h = refl
next_part-digits (c ∷ part) h =
    let e : (c == hyphen) ≡ false = ground arith in
    let rest = next_part-digits part h.1 in rw (rest, e) refl

pub next_part-hyphen :
    (part rest : List ℕ) → AreDigits part → next_part (part ++ (hyphen ∷ rest)) ≡ (part, some rest)
unfolding next_part
next_part-hyphen [] rest h = refl
next_part-hyphen (c ∷ part) rest h =
    let e : (c == hyphen) ≡ false = ground arith in
    let more = next_part-hyphen part rest h.1 in rw (more, e) refl
