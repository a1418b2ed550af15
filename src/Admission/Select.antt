-- ===== src/Admission/Select.antt =====
-- Which waiter is admitted next (platform/admission.rs, `selected_waiter` and
-- `record_capacity_bypasses`). A function that takes `&mut AdmissionState` returns the new state
-- before its result.
pub mod Choice
pub mod Fairness
pub mod Starvation
pub mod Reservation
use free_llama.Base.{
  ℕ, min, Bool, List, [], ◌∷◌, map, Option, none, some, find_index, leb, ltb, ◌==◌, ◌&&◌,
  if◌then◌else◌, u8_max, saturating_add,
}
use free_llama.Task.{TaskPriority, interactive, normal, background}
use free_llama.Admission.State.{
  AdmissionState, Waiter, priority_weights, max_capacity_bypasses, priority_index, credit, spend,
  free, charge,
}

-- One more admission has passed a waiter that does not fit in the `free` units.
unfoldable pub record_bypass : ℕ → ℕ → Waiter → Waiter
unfolding saturating_add
record_bypass free limit w =
    if ltb free (min w.cost limit)
    then record w { bypasses = saturating_add u8_max w.bypasses 1 }
    else w

unfoldable pub record_capacity_bypasses : AdmissionState → AdmissionState
record_capacity_bypasses s = record s { waiting = map (record_bypass (free s) s.limit) s.waiting }

abbrev pub is_reserved : Waiter → Bool
is_reserved w = leb max_capacity_bypasses w.bypasses

abbrev pub fits : AdmissionState → Waiter → Bool
fits s w = leb (charge s w.cost) (free s)

abbrev pub is_next_of : AdmissionState → TaskPriority → Waiter → Bool
is_next_of s class w = priority_index w.priority == priority_index class && fits s w

-- The grant of the waiter at `index`, of class `class`.
unfoldable pub choose : AdmissionState → TaskPriority → ℕ → AdmissionState × ℕ
unfolding record_capacity_bypasses
choose s class index =
    (record_capacity_bypasses (record s { credits = spend s.credits class }), index)

-- The body of the loop over the classes.
unfoldable pub try_class : AdmissionState → TaskPriority → Option (AdmissionState × ℕ)
try_class s class =
    if credit s.credits class == 0 then none else elim (find_index (is_next_of s class) s.waiting) [
      | none ↦ none
      | some (index, _) ↦ some (choose s class index)
    ]

unfoldable pub try_pass : AdmissionState → List TaskPriority → Option (AdmissionState × ℕ)
try_pass s [] = none
try_pass s (class ∷ classes) = elim (try_class s class) [
  | some chosen ↦ some chosen
  | none ↦ try_pass s classes
]

abbrev pub classes : List TaskPriority
classes = interactive ∷ normal ∷ background ∷ []

abbrev pub to_result : AdmissionState → Option (AdmissionState × ℕ) → AdmissionState × Option ℕ
to_result s none = (s, none)
to_result s (some (s', index)) = (s', some index)

-- The two passes: the first with the credits left, the second with all of them.
unfoldable pub weighted : AdmissionState → AdmissionState × Option ℕ
weighted s = elim (try_pass s classes) [
  | some (s', index) ↦ (s', some index)
  | none ↦
      to_result (record s { credits = priority_weights })
        (try_pass (record s { credits = priority_weights }) classes)
]

unfoldable pub reserved : AdmissionState → ℕ × Waiter → AdmissionState × Option ℕ
reserved s (index, w) =
    if fits s w then to_result s (some (choose s w.priority index)) else (s, none)

unfoldable pub selected_waiter : AdmissionState → AdmissionState × Option ℕ
selected_waiter s = elim (find_index is_reserved s.waiting) [
  | some found ↦ reserved s found
  | none ↦ weighted s
]
