-- ===== src/Repetition/Check.antt =====
-- The receipt of a chat response (repetition.rs, `output_check`).
use text.Mathlib.Text.{◌==◌ as str_eq}
use text.Mathlib.TextEquality.{eq_iff}
use free_llama.Base.{
  ℕ, ◌≡◌, ◌≢◌, ◌⊎◌, inl, inr, refl, Bool, true, false, not, List, Option, none, some, String, arith,
  length, ◌&&◌, ◌||◌, if◌then◌else◌, Bool-cases,
}
use free_llama.Repetition.{TailLoop, detect_tail_loop}
use free_llama.Repetition.Window.{IsLoop, Sound}
use free_llama.Repetition.Tail.{detect_tail_loop-Sound}

-- The fields of the response that are read: `done_reason` and `message.content`, where they are
-- there as strings.
pub record Response : Type 0 where
  pub done_reason : Option String
  pub content : Option (List ℕ)

-- The receipt, without its fixed texts; it carries the numbers of a loop only where one is found.
pub record OutputCheck : Type 0 where
  pub stopped_early : Bool
  pub stop_reason : String
  pub found : Option TailLoop

abbrev pub is_stopped_early : String → Bool
is_stopped_early reason = str_eq reason "repetition" || str_eq reason "repeat_limit"

unfoldable pub report : String → Bool → Option TailLoop → Option OutputCheck
report reason early none =
    if early
    then some (record { stopped_early = true; stop_reason = reason; found = none })
    else none
report reason early (some found) =
    some (record { stopped_early = early; stop_reason = reason; found = some found })

unfoldable pub check_content : String → Option (List ℕ) → Option OutputCheck
unfolding report
check_content reason none = none
check_content reason (some content) =
    report reason (is_stopped_early reason) (detect_tail_loop content)

unfoldable pub check_reason : Option String → Option (List ℕ) → Option OutputCheck
unfolding check_content
check_reason none content = none
check_reason (some reason) content =
    if not (str_eq reason "length") && not (is_stopped_early reason)
    then none
    else check_content reason content

unfoldable pub output_check : Response → Option OutputCheck
unfolding check_reason
output_check response = check_reason response.done_reason response.content

abbrev receipt_of : String → List ℕ → Option OutputCheck
receipt_of reason content =
    output_check (record { done_reason = some reason; content = some content })

report_cases :
    (reason : String) (content : List ℕ) (detected : Option TailLoop)
    → detect_tail_loop content ≡ detected
    → Sound content (length content) detected
    → ((reason ≢ "length") × (is_stopped_early reason ≡ false) × (receipt_of reason content ≡ none))
      ⊎ ((reason ≡ "length")
          × (detect_tail_loop content ≡ none)
          × (receipt_of reason content ≡ none))
      ⊎ ((found : TailLoop) × (detect_tail_loop content ≡ some found)
          × IsLoop content (length content) found
          × (receipt_of reason content
              ≡ some (record {
                stopped_early = is_stopped_early reason;
                stop_reason = reason;
                found = some found;
              })))
      ⊎ ((is_stopped_early reason ≡ true)
          × (detect_tail_loop content ≡ none)
          × (receipt_of reason content
              ≡ some (record { stopped_early = true; stop_reason = reason; found = none })))
unfolding output_check
report_cases reason content none d h = elim (Bool-cases (is_stopped_early reason)) [
  | inl early ↦ inr (inr (inr (early, d, rw (d, early) (ground arith))))
  | inr late ↦ elim (Bool-cases (str_eq reason "length")) [
    | inl capped ↦ inr (inl ((eq_iff reason "length").0 capped, d, rw (d, late, capped) refl))
    | inr other ↦ inl (differs other, late, rw (late, other) refl)
  ]
]
  where
    differs : str_eq reason "length" ≡ false → reason ≢ "length"
    differs other e = ground (arith, eq_iff reason "length")
report_cases reason content (some found) d h = elim (Bool-cases (is_stopped_early reason)) [
  | inl early ↦ inr (inr (inl (found, d, h, rw (d, early) (ground arith))))
  | inr late ↦ elim (Bool-cases (str_eq reason "length")) [
    | inl capped ↦ inr (inr (inl (found, d, h, rw (d, late, capped) refl)))
    | inr other ↦ inl (differs other, late, rw (late, other) refl)
  ]
]
  where
    differs : str_eq reason "length" ≡ false → reason ≢ "length"
    differs other e = ground (arith, eq_iff reason "length")

-- A response that stopped for another reason than the output cap or a repetition gets no receipt,
-- nor does one that hit the cap with no loop at its end. Wherever else a loop is found, the receipt
-- carries it, and it is one of the text; a response that was stopped for repeating itself gets a
-- receipt without numbers where the scan finds none.
output_check_cases :
    (reason : String) (content : List ℕ)
    → let receipt = output_check (record { done_reason = some reason; content = some content }) in
      ((reason ≢ "length") × (is_stopped_early reason ≡ false) × (receipt ≡ none))
      ⊎ ((reason ≡ "length") × (detect_tail_loop content ≡ none) × (receipt ≡ none))
      ⊎ ((found : TailLoop) × (detect_tail_loop content ≡ some found)
          × IsLoop content (length content) found
          × (receipt
              ≡ some (record {
                stopped_early = is_stopped_early reason;
                stop_reason = reason;
                found = some found;
              })))
      ⊎ ((is_stopped_early reason ≡ true)
          × (detect_tail_loop content ≡ none)
          × (receipt ≡ some (record { stopped_early = true; stop_reason = reason; found = none })))
output_check_cases reason content =
    report_cases reason content _ refl (detect_tail_loop-Sound content)
