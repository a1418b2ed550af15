-- ===== src/Admission/Select/Choice.antt =====
-- What every choice of `selected_waiter` has in common, whichever branch makes it.
use free_llama.Base.{
  ℕ, ◌≡◌, refl, inl, inr, Bool, true, ◌&&◌, List, [], ◌∷◌, Option, none, some, arith, get_elem?,
  find_index, find_index_sound, ◌==◌, Bool-cases, Option-cases,
}
use free_llama.Task.{TaskPriority}
use free_llama.Admission.State.{AdmissionState, Waiter, priority_weights, priority_index, credit}
use free_llama.Admission.Select.{
  record_capacity_bypasses, is_reserved, fits, is_next_of, choose, try_class, try_pass, classes,
  to_result, weighted, reserved, selected_waiter,
}

-- A selection at `index`: the waiter there fits, and only credits and bypass counts change.
pub record Takes (s s' : AdmissionState) (index : ℕ) : Type 0 where
  pub waiter : Waiter
  pub found : get_elem? s.waiting index ≡ some waiter
  pub room : fits s waiter ≡ true
  pub frame : s' ≡ record_capacity_bypasses (record s { credits = s'.credits })

abbrev pub Chosen : AdmissionState → Option (AdmissionState × ℕ) → Type 0
Chosen s none = Unit
Chosen s (some (s', index)) = Takes s s' index

abbrev pub Selects : AdmissionState → AdmissionState × Option ℕ → Type 0
Selects s (s', none) = s' ≡ record s { credits = s'.credits }
Selects s (s', some index) = Takes s s' index

choose-Takes :
    (s : AdmissionState) (class : TaskPriority) (index : ℕ) (w : Waiter)
    → get_elem? s.waiting index ≡ some w
    → fits s w ≡ true
    → Takes s (choose s class index).0 index
unfolding choose record_capacity_bypasses
choose-Takes s class index w e h = record { waiter = w; found = e; room = h; frame = refl }

try_class-Chosen : (s : AdmissionState) (class : TaskPriority) → Chosen s (try_class s class)
unfolding try_class choose
try_class-Chosen s class = elim (Bool-cases (credit s.credits class == 0)) [
  | inl spent ↦ rw (spent, try_class) tt
  | inr left ↦ elim (Option-cases (find_index (is_next_of s class) s.waiting)) [
    | inl e ↦ rw (left, e, try_class) tt
    | inr ((i, w), e) ↦
        let (there, next, _) = find_index_sound (is_next_of s class) s.waiting i w e in
        rw (left, e, try_class)
          (choose-Takes s class i w there
            (second (priority_index w.priority == priority_index class) (fits s w) next))
  ]
]
  where
    second : (a b : Bool) → (a && b) ≡ true → b ≡ true
    second a b h = ground arith

try_pass-Chosen : (s : AdmissionState) (cs : List TaskPriority) → Chosen s (try_pass s cs)
unfolding try_pass
try_pass-Chosen s [] = tt
try_pass-Chosen s (c ∷ cs) = elim (Option-cases (try_class s c)) [
  | inl e ↦ rw (e, try_pass) (try_pass-Chosen s cs)
  | inr (chosen, e) ↦ rw (e, try_pass) (rw e at (try_class-Chosen s c))
]

to_result-Selects :
    (s : AdmissionState) (r : Option (AdmissionState × ℕ))
    → Chosen (record s { credits = priority_weights }) r
    → Selects s (to_result (record s { credits = priority_weights }) r)
to_result-Selects s none h = refl
to_result-Selects s (some (s', i)) h = record {
  waiter = h.waiter;
  found = h.found;
  room = h.room;
  frame = h.frame;
}

weighted-Selects : (s : AdmissionState) → Selects s (weighted s)
unfolding weighted
weighted-Selects s = elim (Option-cases (try_pass s classes)) [
  | inl e ↦
      rw (e, weighted)
        (to_result-Selects s _ (try_pass-Chosen (record s { credits = priority_weights }) classes))
  | inr ((s', i), e) ↦ rw (e, weighted) (rw e at (try_pass-Chosen s classes))
]

reserved-Selects :
    (s : AdmissionState) (i : ℕ) (w : Waiter)
    → get_elem? s.waiting i ≡ some w
    → Selects s (reserved s (i, w))
unfolding reserved choose
reserved-Selects s i w e = elim (Bool-cases (fits s w)) [
  | inl h ↦ rw (h, reserved) (choose-Takes s w.priority i w e h)
  | inr h ↦ rw (h, reserved) refl
]

-- A waiter that is selected is in the queue and its charge fits in the free units; beside that a
-- selection changes nothing but the credits and the bypass counts, and nothing but the credits
-- where none is selected.
pub selected_waiter-Selects : (s : AdmissionState) → Selects s (selected_waiter s)
unfolding selected_waiter
selected_waiter-Selects s = elim (Option-cases (find_index is_reserved s.waiting)) [
  | inl e ↦ rw (e, selected_waiter) (weighted-Selects s)
  | inr ((i, w), e) ↦
      rw (e, selected_waiter)
        (reserved-Selects s i w (find_index_sound is_reserved s.waiting i w e).0)
]
