-- ===== src/Repetition.antt =====
-- Repetition loops at the end of a generation (packages/rust-core/src/platform/repetition.rs). A
-- text is the list of its Unicode scalar values.
pub mod Runs
pub mod Window
pub mod Tail
pub mod Check
use free_llama.Base.{
  ℕ, zero, suc, ◌+◌, ◌-◌, ◌*◌, min, Bool, true, false, List, [], ◌∷◌, Option, none, some, String,
  length, get_or, drop, leb, ltb, ◌==◌, ◌&&◌, ◌||◌, if◌then◌else◌,
}

abbrev pub max_period : ℕ
max_period = 4096

abbrev pub scan_window : ℕ
scan_window = 65536

pub record TailLoop : Type 0 where
  pub unique_prefix : ℕ
  pub period : ℕ
  pub repeated : ℕ

-- `chars[index]`; every index below is in range.
abbrev pub char_at : List ℕ → ℕ → ℕ
char_at chars index = get_or chars index 0

-- `(period..period + k).rev().take_while(…).count()`.
unfoldable pub tail_run : List ℕ → ℕ → ℕ → ℕ
tail_run chars period zero = 0
tail_run chars period (suc k) =
    if char_at chars (period + k) == char_at chars k then suc (tail_run chars period k) else 0

abbrev pub qualifies : ℕ → ℕ → Bool
qualifies period repeated = (leb period repeated && leb 48 (repeated + period)) || leb 128 repeated

-- `best.is_none_or(|current| prefix < current.unique_prefix)`.
abbrev pub improves : Option TailLoop → ℕ → Bool
improves none prefix = true
improves (some current) prefix = ltb prefix current.unique_prefix

-- The body of the loop over the periods, behind its `break`.
unfoldable pub consider : List ℕ → ℕ → ℕ → ℕ → Option TailLoop → Option TailLoop
consider chars n period repeated best =
    let start = n - repeated - period in
    if qualifies period repeated && improves best (start + period)
    then some (record { unique_prefix = start + period; period = period; repeated = repeated })
    else best

abbrev pub is_final : Option TailLoop → ℕ → Bool
is_final none period = false
is_final (some current) period = leb current.unique_prefix period

-- The loop with `k` periods left, from `period` on.
unfoldable pub scan_periods : List ℕ → ℕ → ℕ → ℕ → Option TailLoop → Option TailLoop
scan_periods chars n zero period best = best
scan_periods chars n (suc k) period best =
    let rest =
      scan_periods chars n k (period + 1)
        (consider chars n period (tail_run chars period (n - period)) best) in
    if is_final best period then best else rest

unfoldable pub detect_in_window : List ℕ → Option TailLoop
detect_in_window chars =
    let n = length chars in scan_periods chars n (min max_period (n - 1)) 1 none

-- `while start > 0 && chars[start - 1] == chars[start - 1 + period]`.
unfoldable pub extend_back : List ℕ → ℕ → ℕ → ℕ
extend_back chars period zero = zero
extend_back chars period (suc start) =
    let rest = extend_back chars period start in
    if char_at chars start == char_at chars (start + period) then rest else suc start

-- The loop found in the window, in terms of the whole text.
unfoldable pub in_text : List ℕ → ℕ → TailLoop → TailLoop
in_text text offset found =
    if ltb 0 offset && found.unique_prefix == found.period
    then (let start = extend_back text found.period offset in
        record found {
          unique_prefix = start + found.period;
          repeated = found.repeated + (offset - start);
        })
    else record found { unique_prefix = found.unique_prefix + offset }

abbrev pub map_loop : (TailLoop → TailLoop) → Option TailLoop → Option TailLoop
map_loop f none = none
map_loop f (some found) = some (f found)

unfoldable pub detect_tail_loop : List ℕ → Option TailLoop
detect_tail_loop text =
    let offset = length text - scan_window in
    map_loop (in_text text offset) (detect_in_window (drop offset text))

abbrev pub stops : Option TailLoop → Bool
stops none = false
stops (some found) = leb (2 * found.period) found.repeated && leb 96 found.repeated

unfoldable pub should_stop_streaming : List ℕ → Bool
should_stop_streaming text = stops (detect_tail_loop text)
