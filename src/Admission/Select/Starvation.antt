-- ===== src/Admission/Select/Starvation.antt =====
-- Runs of selections: how often a class with a waiter that fits can be passed by.
use free_llama.Base.{
  ℕ, zero, suc, ◌*◌, ◌≤◌, ◌<◌, ◌≡◌, sym, subst, ◌∙◌, ap, ◌≢◌, ◌⊎◌, inl, inr, List, [], ◌∷◌, Option,
  none, some, some-injective, arith, get_elem?, find_index, ◌==◌, Bool-cases, Option-cases,
}
use free_llama.Task.{TaskPriority, interactive, normal, background}
use free_llama.Admission.State.{AdmissionState, Waiter, Credits, priority_weights, credit, spend}
use free_llama.Admission.Select.{
  classes, is_next_of, try_class, try_pass, weighted, record_capacity_bypasses, is_reserved, fits,
  to_result, choose, reserved, selected_waiter,
}
use free_llama.Admission.Select.Fairness.{
  others, rounds, Ready, NoneReserved, selected_waiter-rounds,
}

-- `n` selections in a row, each with a ready waiter of `class` and no reservation, and none of them
-- of that class. Between two selections anything may change but the credits.
pub data Passes (class : TaskPriority) : ℕ → AdmissionState → Type 0 where
  start : {s : AdmissionState} → Passes class zero s
  passed :
      {n : ℕ} {s s' t : AdmissionState} {index : ℕ} {w : Waiter}
      → NoneReserved s
      → Ready s class
      → selected_waiter s ≡ (s', some index)
      → get_elem? s.waiting index ≡ some w
      → w.priority ≢ class
      → t.credits ≡ s'.credits
      → Passes class n t
      → Passes class (suc n) s

abbrev pub WithinWeights : Credits → Type 0
WithinWeights c = (c.interactive_left ≤ 3) × (c.normal_left ≤ 2) × (c.background_left ≤ 1)

rounds_bound :
    (c : Credits) (class : TaskPriority)
    → WithinWeights c
    → rounds c class ≤ 2 * others priority_weights class
rounds_bound c interactive h = ground arith
rounds_bound c normal h = ground arith
rounds_bound c background h = ground arith

Passes-rounds :
    (class : TaskPriority) {n : ℕ} (s : AdmissionState)
    → Passes class n s
    → n ≤ rounds s.credits class
Passes-rounds class s start = omega arith
Passes-rounds class s
      (passed {n} {s' = s'} {t = t} {index = index} {w = w} open_pool ready e at other same rest) =
    let (v, found, turn) = selected_waiter-rounds s s' index class open_pool ready e in
    step v found turn (Passes-rounds class t rest)
  where
    step :
        (v : Waiter)
        → get_elem? s.waiting index ≡ some v
        → (v.priority ≡ class) ⊎ (rounds s'.credits class < rounds s.credits class)
        → n ≤ rounds t.credits class
        → suc n ≤ rounds s.credits class
    step v found (inl mine) ih =
        absurd
          (other (ap (λ (u : Waiter). u.priority) (some-injective _ _ (sym at ∙ found)) ∙ mine))
    step v found (inr nearer) ih = omega (arith, subst (λ c. n ≤ rounds c class) same ih)

-- No class starves: from credits within the weights, while the class has a waiter that fits and no
-- capacity is reserved, at most twice the other classes' weights (6 selections for interactive, 8
-- for normal, 10 for background) pass it.
pub Passes-bound :
    {n : ℕ} (s : AdmissionState) (class : TaskPriority)
    → WithinWeights s.credits
    → Passes class n s
    → n ≤ 2 * others priority_weights class
Passes-bound s class h run =
    omega (arith, Passes-rounds class s run, rounds_bound s.credits class h)

spend-WithinWeights :
    (c : Credits) (class : TaskPriority) → WithinWeights c → WithinWeights (spend c class)
spend-WithinWeights c interactive h = omega arith
spend-WithinWeights c normal h = omega arith
spend-WithinWeights c background h = omega arith

abbrev Kept : Option (AdmissionState × ℕ) → Type 0
Kept none = Unit
Kept (some (s', index)) = WithinWeights s'.credits

choose-Kept :
    (s : AdmissionState) (class : TaskPriority) (index : ℕ)
    → WithinWeights s.credits
    → Kept (some (choose s class index))
unfolding choose record_capacity_bypasses
choose-Kept s class index h = spend-WithinWeights s.credits class h

try_class-Kept :
    (s : AdmissionState) (class : TaskPriority) → WithinWeights s.credits → Kept (try_class s class)
unfolding try_class
try_class-Kept s class h = elim (Bool-cases (credit s.credits class == 0)) [
  | inl spent ↦ rw (spent, try_class) tt
  | inr left ↦ elim (Option-cases (find_index (is_next_of s class) s.waiting)) [
    | inl e ↦ rw (left, e, try_class) tt
    | inr ((i, w), e) ↦ rw (left, e, try_class) (choose-Kept s class i h)
  ]
]

try_pass-Kept :
    (s : AdmissionState) (cs : List TaskPriority) → WithinWeights s.credits → Kept (try_pass s cs)
unfolding try_pass
try_pass-Kept s [] h = tt
try_pass-Kept s (c ∷ cs) h = elim (Option-cases (try_class s c)) [
  | inl e ↦ rw (e, try_pass) (try_pass-Kept s cs h)
  | inr (chosen, e) ↦ rw (e, try_pass) (rw e at (try_class-Kept s c h))
]

to_result-Kept :
    (s : AdmissionState) (r : Option (AdmissionState × ℕ))
    → WithinWeights s.credits
    → Kept r
    → WithinWeights (to_result s r).0.credits
to_result-Kept s none h k = h
to_result-Kept s (some (s', i)) h k = k

weighted-WithinWeights :
    (s : AdmissionState) → WithinWeights s.credits → WithinWeights (weighted s).0.credits
unfolding weighted
weighted-WithinWeights s h = elim (Option-cases (try_pass s classes)) [
  | inl e ↦
      rw (e, weighted)
        (to_result-Kept (record s { credits = priority_weights })
          (try_pass (record s { credits = priority_weights }) classes) (omega arith)
          (try_pass-Kept (record s { credits = priority_weights }) classes (omega arith)))
  | inr ((s', i), e) ↦ rw (e, weighted) (rw e at (try_pass-Kept s classes h))
]

-- A selection keeps the credits of each class within its weight.
pub selected_waiter-WithinWeights :
    (s : AdmissionState) → WithinWeights s.credits → WithinWeights (selected_waiter s).0.credits
unfolding selected_waiter reserved
selected_waiter-WithinWeights s h = elim (Option-cases (find_index is_reserved s.waiting)) [
  | inl e ↦ rw (e, selected_waiter) (weighted-WithinWeights s h)
  | inr ((i, w), e) ↦ elim (Bool-cases (fits s w)) [
    | inl room ↦ rw (e, selected_waiter) (rw (room, reserved) (choose-Kept s w.priority i h))
    | inr no_room ↦ rw (e, selected_waiter) (rw (no_room, reserved) h)
  ]
]
