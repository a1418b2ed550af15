-- ===== src/Admission/Select/Fairness.antt =====
-- The weighted round robin of `selected_waiter`.
use free_llama.Base.{
  ℕ, ◌+◌, ◌<◌, ◌≡◌, refl, sym, subst, ◌∙◌, ◌≢◌, ◌⊎◌, inl, inr, Bool, true, false, ◌&&◌, List, [],
  ◌∷◌, Option, none, some, arith, All, Has, get_elem?, find_index, find_index_sound,
  find_index_complete, ◌==◌, if◌then◌else◌, Bool-cases, Option-cases,
}
use free_llama.Task.{TaskPriority, TaskPriority-discrete, interactive, normal, background}
use free_llama.Admission.State.{
  AdmissionState, Waiter, Credits, priority_weights, priority_index, credit, spend, free,
}
use free_llama.Admission.Select.{
  record_capacity_bypasses, is_reserved, fits, is_next_of, choose, try_class, try_pass, classes,
  to_result, weighted, selected_waiter,
}

-- The credits left to the classes other than `class`.
abbrev pub others : Credits → TaskPriority → ℕ
others c interactive = c.normal_left + c.background_left
others c normal = c.interactive_left + c.background_left
others c background = c.interactive_left + c.normal_left

-- How many selections can still pass `class` by: those of the other classes' credits, and those of
-- a whole round of the others where `class` has no credit left in this one.
abbrev pub rounds : Credits → TaskPriority → ℕ
rounds c class =
    if credit c class == 0 then others c class + others priority_weights class else others c class

-- A waiter of the class fits.
abbrev pub Ready : AdmissionState → TaskPriority → Type 0
Ready s class = Has (λ w. is_next_of s class w ≡ true) s.waiting

abbrev pub NoneReserved : AdmissionState → Type 0
NoneReserved s = All (λ w. is_reserved w ≡ false) s.waiting

-- A choice by weight: the waiter at `index` is of `class`, and a credit of that class is spent.
pub record Serves (s s' : AdmissionState) (index : ℕ) : Type 0 where
  pub class : TaskPriority
  pub waiter : Waiter
  pub found : get_elem? s.waiting index ≡ some waiter
  pub of_class : waiter.priority ≡ class
  pub had : 0 < credit s.credits class
  pub spent : s'.credits ≡ spend s.credits class

abbrev Served : AdmissionState → Option (AdmissionState × ℕ) → Type 0
Served s none = Unit
Served s (some (s', index)) = Serves s s' index

is_next_of_class :
    (s : AdmissionState) (class : TaskPriority) (w : Waiter)
    → is_next_of s class w ≡ true
    → w.priority ≡ class
is_next_of_class s class w h = by_index w.priority class (first _ (fits s w) h)
  where
    first : (a b : Bool) → (a && b) ≡ true → a ≡ true
    first a b h = ground arith

    by_index : (p q : TaskPriority) → (priority_index p == priority_index q) ≡ true → p ≡ q
    by_index p q h = ground arith

credit_left : (n : ℕ) → (n == 0) ≡ false → 0 < n
credit_left n h = ground arith

try_class-Served : (s : AdmissionState) (class : TaskPriority) → Served s (try_class s class)
unfolding try_class choose record_capacity_bypasses
try_class-Served s class = elim (Bool-cases (credit s.credits class == 0)) [
  | inl spent ↦ rw (spent, try_class) tt
  | inr left ↦ elim (Option-cases (find_index (is_next_of s class) s.waiting)) [
    | inl e ↦ rw (left, e, try_class) tt
    | inr ((i, w), e) ↦
        let (there, next, _) = find_index_sound (is_next_of s class) s.waiting i w e in
        rw (left, e, try_class)
          (record {
            class = class;
            waiter = w;
            found = there;
            of_class = is_next_of_class s class w next;
            had = credit_left _ left;
            spent = refl;
          })
  ]
]

try_class-none :
    (s : AdmissionState) (class : TaskPriority)
    → try_class s class ≡ none
    → Ready s class
    → credit s.credits class ≡ 0
unfolding try_class
try_class-none s class e ready =
    let (i, w, found) = find_index_complete (is_next_of s class) s.waiting ready in ground arith

try_pass-Served : (s : AdmissionState) (cs : List TaskPriority) → Served s (try_pass s cs)
unfolding try_pass
try_pass-Served s [] = tt
try_pass-Served s (c ∷ cs) = elim (Option-cases (try_class s c)) [
  | inl e ↦ rw (e, try_pass) (try_pass-Served s cs)
  | inr (chosen, e) ↦ rw (e, try_pass) (rw e at (try_class-Served s c))
]

-- A pass that finds nobody has tried every class.
try_pass-none :
    (s : AdmissionState) (class : TaskPriority)
    → try_pass s classes ≡ none
    → Ready s class
    → credit s.credits class ≡ 0
unfolding try_pass
try_pass-none s interactive e ready = ground (arith, try_class-none s interactive)
try_pass-none s normal e ready = ground (arith, try_class-none s normal)
try_pass-none s background e ready = ground (arith, try_class-none s background)

abbrev refilled : AdmissionState → AdmissionState
refilled s = record s { credits = priority_weights }

-- A selection by weight uses the credits left, or a new round where no class that is ready has any.
abbrev InRounds : AdmissionState → AdmissionState × Option ℕ → Type 0
InRounds s (s', none) = (class : TaskPriority) → ¬ Ready s class
InRounds s (s', some index) =
    Serves s s' index
    ⊎ (((class : TaskPriority) → Ready s class → credit s.credits class ≡ 0)
        × Serves (refilled s) s' index)

weights_pos : (class : TaskPriority) → credit priority_weights class ≢ 0
weights_pos interactive = omega arith
weights_pos normal = omega arith
weights_pos background = omega arith

second_pass :
    (s : AdmissionState)
    → try_pass s classes ≡ none
    → (r : Option (AdmissionState × ℕ)) → try_pass (refilled s) classes ≡ r
    → InRounds s (to_result (refilled s) r)
second_pass s first none e =
    λ class ready. weights_pos class (try_pass-none (refilled s) class e ready)
second_pass s first (some (s', i)) e = inr (
  λ class ready. try_pass-none s class first ready,
  subst (Served (refilled s)) e (try_pass-Served (refilled s) classes),
)

weighted-InRounds : (s : AdmissionState) → InRounds s (weighted s)
unfolding weighted
weighted-InRounds s = elim (Option-cases (try_pass s classes)) [
  | inl e ↦ rw (e, weighted) (second_pass s e _ refl)
  | inr ((s', i), e) ↦ rw (e, weighted) (inl (rw e at (try_pass-Served s classes)))
]

reserved_absent : (s : AdmissionState) → NoneReserved s → find_index is_reserved s.waiting ≡ none
reserved_absent s h = search_fails s.waiting h
  where
    search_fails :
        (ws : List Waiter) → All (λ w. is_reserved w ≡ false) ws → find_index is_reserved ws ≡ none
    search_fails [] h = refl
    search_fails (w ∷ ws) h = rw (h.0, search_fails ws h.1)

selected_waiter-weighted : (s : AdmissionState) → NoneReserved s → selected_waiter s ≡ weighted s
unfolding selected_waiter
selected_waiter-weighted s h = rw (reserved_absent s h, selected_waiter)

-- While no capacity is reserved, `selected_waiter` finds somebody whenever a waiter of some class
-- fits: no admission is lost to the credits.
pub selected_waiter-Ready :
    (s : AdmissionState) (class : TaskPriority)
    → NoneReserved s
    → Ready s class
    → (index : ℕ) × ((selected_waiter s).1 ≡ some index)
selected_waiter-Ready s class free ready =
    rw (selected_waiter-weighted s free) (found (weighted s) (weighted-InRounds s))
  where
    found : (r : AdmissionState × Option ℕ) → InRounds s r → (index : ℕ) × (r.1 ≡ some index)
    found (s', none) h = absurd (h class ready)
    found (s', some i) h = (i, refl)

spend_other :
    (c : Credits) (class d : TaskPriority)
    → d ≢ class
    → 0 < credit c d
    → rounds (spend c d) class < rounds c class
spend_other c interactive interactive h p = absurd (h refl)
spend_other c interactive normal h p = ground arith
spend_other c interactive background h p = ground arith
spend_other c normal interactive h p = ground arith
spend_other c normal normal h p = absurd (h refl)
spend_other c normal background h p = ground arith
spend_other c background interactive h p = ground arith
spend_other c background normal h p = ground arith
spend_other c background background h p = absurd (h refl)

refill_other :
    (c : Credits) (class d : TaskPriority)
    → d ≢ class
    → credit c class ≡ 0
    → rounds (spend priority_weights d) class < rounds c class
refill_other c interactive interactive h z = absurd (h refl)
refill_other c interactive normal h z = ground arith
refill_other c interactive background h z = ground arith
refill_other c normal interactive h z = ground arith
refill_other c normal normal h z = absurd (h refl)
refill_other c normal background h z = ground arith
refill_other c background interactive h z = ground arith
refill_other c background normal h z = ground arith
refill_other c background background h z = absurd (h refl)

-- One selection while `class` is ready: it serves the class, or the class comes nearer to its turn.
pub selected_waiter-rounds :
    (s s' : AdmissionState) (index : ℕ) (class : TaskPriority)
    → NoneReserved s
    → Ready s class
    → selected_waiter s ≡ (s', some index)
    → (w : Waiter) × (get_elem? s.waiting index ≡ some w)
      × ((w.priority ≡ class) ⊎ (rounds s'.credits class < rounds s.credits class))
selected_waiter-rounds s s' index class free ready e =
    by_round (subst (InRounds s) (sym (selected_waiter-weighted s free) ∙ e) (weighted-InRounds s))
  where
    serve :
        (t : AdmissionState) (v : Serves t s' index)
        → ((v.class ≢ class) → rounds (spend t.credits v.class) class < rounds s.credits class)
        → (v.waiter.priority ≡ class) ⊎ (rounds s'.credits class < rounds s.credits class)
    serve t v nearer = elim (TaskPriority-discrete v.class class) [
      | yes same ↦ inl (v.of_class ∙ same)
      | no other ↦ inr (rw v.spent (nearer other))
    ]

    by_round :
        InRounds s (s', some index)
        → (w : Waiter) × (get_elem? s.waiting index ≡ some w)
          × ((w.priority ≡ class) ⊎ (rounds s'.credits class < rounds s.credits class))
    by_round (inl v) =
        (v.waiter, v.found, serve s v (λ ne. spend_other s.credits class v.class ne v.had))
    by_round (inr (spent, v)) = (
      v.waiter,
      v.found,
      serve (refilled s) v (λ ne. refill_other s.credits class v.class ne (spent class ready)),
    )
