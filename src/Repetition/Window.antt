-- ===== src/Repetition/Window.antt =====
-- What the scan of a window finds, against the periodic runs that reach the window's end
-- (packages/rust-core/src/platform/repetition.rs).
use free_llama.Base.{
  ℕ, zero, suc, ◌+◌, ◌-◌, ◌≤◌, ◌<◌, ◌≡◌, refl, inl, inr, subst, sym, true, List, [], ◌∷◌, Option,
  none, some, arith, length, ◌==◌, ==_iff, min, Bool-cases,
}
use free_llama.Repetition.{
  TailLoop, max_period, tail_run, qualifies, improves, consider, is_final, scan_periods,
  detect_in_window,
}
use free_llama.Repetition.Runs.{
  Periodic, tail_run-le, tail_run-Periodic, tail_run_longest, qualifies_mono,
}

-- A loop of a text of `n` characters.
pub record IsLoop (chars : List ℕ) (n : ℕ) (found : TailLoop) : Type 0 where
  pub positive : 0 < found.period
  pub whole : found.unique_prefix + found.repeated ≡ n
  pub one_copy : found.period ≤ found.unique_prefix
  pub long : qualifies found.period found.repeated ≡ true
  pub periodic : Periodic chars found.period found.unique_prefix n

abbrev pub Sound : List ℕ → ℕ → Option TailLoop → Type 0
Sound chars n none = Unit
Sound chars n (some found) = IsLoop chars n found

-- The first copy of the loop found ends no later than at `prefix`.
abbrev pub Covers : Option TailLoop → ℕ → Type 0
Covers none prefix = ⊥
Covers (some found) prefix = found.unique_prefix ≤ prefix

found_at :
    (chars : List ℕ) (n period : ℕ)
    → 0 < period
    → period < n
    → qualifies period (tail_run chars period (n - period)) ≡ true
    → let repeated = tail_run chars period (n - period) in
      IsLoop chars n (record {
        unique_prefix = n - repeated - period + period;
        period = period;
        repeated = repeated;
      })
found_at chars n period pos small long =
    let bound = tail_run-le chars period (n - period) in
    let all : period + (n - period) ≡ n = omega arith in
    let prefix : n - tail_run chars period (n - period) - period + period
        ≡ period + (n - period) - tail_run chars period (n - period) =
      omega (arith, bound) in
    record {
      positive = pos;
      whole = omega (arith, bound);
      one_copy = omega arith;
      long = long;
      periodic = rw prefix (
          subst (Periodic chars period (period + (n - period) - tail_run chars period (n - period)))
            all (tail_run-Periodic chars period (n - period)));
    }

consider-Sound :
    (chars : List ℕ) (n period : ℕ) (best : Option TailLoop)
    → 0 < period
    → period < n
    → Sound chars n best
    → Sound chars n (consider chars n period (tail_run chars period (n - period)) best)
unfolding consider
consider-Sound chars n period best pos small h =
    let repeated = tail_run chars period (n - period) in
    elim (Bool-cases (qualifies period repeated)) [
      | inl long ↦ elim (Bool-cases (improves best (n - repeated - period + period))) [
        | inl better ↦ rw (long, better) (found_at chars n period pos small long)
        | inr worse ↦ rw (long, worse) h
      ]
      | inr short ↦ rw short h
    ]

consider-Covers :
    (chars : List ℕ) (n period repeated prefix : ℕ) (best : Option TailLoop)
    → Covers best prefix
    → Covers (consider chars n period repeated best) prefix
unfolding consider
consider-Covers chars n period repeated prefix none h = absurd h
consider-Covers chars n period repeated prefix (some found) h = ground arith

consider-Covers_own :
    (chars : List ℕ) (n period repeated : ℕ) (best : Option TailLoop)
    → repeated + period ≤ n
    → qualifies period repeated ≡ true
    → Covers (consider chars n period repeated best) (n - repeated)
unfolding consider
consider-Covers_own chars n period repeated none h long = rw long (omega arith)
consider-Covers_own chars n period repeated (some found) h long = rw long (ground arith)

scan_periods-Sound :
    (chars : List ℕ) (n k period : ℕ) (best : Option TailLoop)
    → 0 < period
    → period + k ≤ n
    → Sound chars n best
    → Sound chars n (scan_periods chars n k period best)
unfolding scan_periods
scan_periods-Sound chars n zero period best pos within h = h
scan_periods-Sound chars n (suc k) period best pos within h =
    elim (Bool-cases (is_final best period)) [
      | inl done ↦ rw done h
      | inr more ↦ rw more (
          scan_periods-Sound chars n k (period + 1) _ (omega arith) (omega arith)
            (consider-Sound chars n period best pos (omega arith) h))
    ]

scan_periods-Covers :
    (chars : List ℕ) (n k period prefix : ℕ) (best : Option TailLoop)
    → Covers best prefix
    → Covers (scan_periods chars n k period best) prefix
unfolding scan_periods
scan_periods-Covers chars n zero period prefix best h = h
scan_periods-Covers chars n (suc k) period prefix best h =
    elim (Bool-cases (is_final best period)) [
      | inl done ↦ rw done h
      | inr more ↦ rw more (
          scan_periods-Covers chars n k (period + 1) prefix _
            (consider-Covers chars n period (tail_run chars period (n - period)) prefix best h))
    ]

final-Covers :
    (best : Option TailLoop) (period prefix : ℕ)
    → is_final best period ≡ true
    → period ≤ prefix
    → Covers best prefix
final-Covers none period prefix done h = absurd (cc)
final-Covers (some found) period prefix done h = ground arith

-- Every period of the scan is covered: the first copy of a longer one cannot end earlier once the
-- scan breaks off.
scan_periods_complete :
    (chars : List ℕ) (n k period q : ℕ) (best : Option TailLoop)
    → period ≤ q
    → q < period + k
    → period + k ≤ n
    → qualifies q (tail_run chars q (n - q)) ≡ true
    → Covers (scan_periods chars n k period best) (n - tail_run chars q (n - q))
unfolding scan_periods
scan_periods_complete chars n zero period q best low high within long = absurd (omega arith)
scan_periods_complete chars n (suc k) period q best low high within long =
    elim (Bool-cases (is_final best period)) [
      | inl done ↦
          rw done (final-Covers best period _ done (omega (arith, tail_run-le chars q (n - q))))
      | inr more ↦ elim (Bool-cases (q == period)) [
        | inl own ↦
            rw more
              (scan_periods-Covers chars n k (period + 1) _ _ (at_own ((==_iff q period).0 own)))
        | inr other ↦ rw more (
            scan_periods_complete chars n k (period + 1) q _ (ground arith) (omega arith)
              (omega arith) long)
      ]
    ]
  where
    at_own :
        q ≡ period
        → Covers
            (consider chars n period (tail_run chars period (n - period)) best)
            (n - tail_run chars q (n - q))
    at_own e =
        subst
          (λ p.
            Covers (consider chars n p (tail_run chars p (n - p)) best)
              (n - tail_run chars q (n - q)))
          e
          (consider-Covers_own chars n q (tail_run chars q (n - q)) best
            (omega (arith, tail_run-le chars q (n - q))) long)

-- A loop that the scan finds is one: the period is positive, the characters behind the prefix
-- repeat those a period before them to the end, the prefix holds one whole copy, and the run is as
-- long as the rule asks.
pub detect_in_window-Sound : (chars : List ℕ) → Sound chars (length chars) (detect_in_window chars)
unfolding detect_in_window scan_periods
detect_in_window-Sound [] = tt
detect_in_window-Sound (c ∷ cs) =
    scan_periods-Sound (c ∷ cs) (suc (length cs)) _ 1 none (omega arith) (omega arith) tt

detect-Covers :
    (chars : List ℕ) (period from : ℕ)
    → 0 < period
    → period ≤ max_period
    → period ≤ from
    → from ≤ length chars
    → period < length chars
    → Periodic chars period from (length chars)
    → qualifies period (length chars - from) ≡ true
    → Covers (detect_in_window chars) from
unfolding detect_in_window scan_periods
detect-Covers chars period from pos small one_copy inside window run long =
    weaken scanned from _ (omega (arith, longest)) (
      scan_periods_complete chars n _ 1 period none pos (omega arith) (omega arith)
        (qualifies_mono period (n - from) _ (omega (arith, longest)) long))
  where
    n : ℕ
    n = length chars

    scanned : Option TailLoop
    scanned = scan_periods chars n (min max_period (n - 1)) 1 none

    all : period + (n - period) ≡ n
    all = omega arith

    longest : period + (n - period) - from ≤ tail_run chars period (n - period)
    longest =
        tail_run_longest chars period (n - period) from one_copy
          (subst (Periodic chars period from) (sym all) run)

    weaken : (best : Option TailLoop) (a b : ℕ) → b ≤ a → Covers best b → Covers best a
    weaken none a b h c = absurd c
    weaken (some found) a b h c = omega arith

found_first :
    (chars : List ℕ) (from : ℕ) (o : Option TailLoop)
    → Sound chars (length chars) o
    → Covers o from
    → (found : TailLoop) × (o ≡ some found)
      × IsLoop chars (length chars) found
      × (found.unique_prefix ≤ from)
found_first chars from none h c = absurd c
found_first chars from (some found) h c = (found, refl, h, c)

-- The scan misses no loop, and none has a first copy that ends earlier than that of the one found:
-- wherever the characters from `from` on repeat those a period before them to the end, for a period
-- of at most 4096 and long enough for the rule, a loop is found; it is one by the same rule, and its
-- unique prefix, which ends with its first copy, ends no later than at `from`.
pub detect_in_window-first :
    (chars : List ℕ) (period from : ℕ)
    → 0 < period
    → period ≤ max_period
    → period ≤ from
    → from ≤ length chars
    → period < length chars
    → Periodic chars period from (length chars)
    → qualifies period (length chars - from) ≡ true
    → (found : TailLoop) × (detect_in_window chars ≡ some found)
      × IsLoop chars (length chars) found
      × (found.unique_prefix ≤ from)
detect_in_window-first chars period from pos small one_copy inside window run long =
    found_first chars from _ (detect_in_window-Sound chars)
      (detect-Covers chars period from pos small one_copy inside window run long)
