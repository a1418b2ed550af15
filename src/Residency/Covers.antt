-- ===== src/Residency/Covers.antt =====
-- The bytes that a plan frees (packages/rust-core/src/platform/residency.rs, `plan`).
use Prim.Native.Nat.{Ordering}
use free_llama.Base.{
  u64_max, ℕ, ◌+◌, min, ◌≤◌, ◌≡◌, refl, inl, inr, true, false, List, [], ◌∷◌, ltb, leb, leb→le,
  length, ◌==◌, arith, Bool-cases,
}
use free_llama.Routing.Compare.{total_cmp}
use free_llama.Residency.{Context, Candidate, PlanInputs, PsEntry, sort_entries}
use free_llama.Residency.Victims.{
  bytes_of, insert_by, sort_by, is_lt, take_needed, greedy_covering_set, sum_bytes,
  cheapest_covering_set, choose_victims, plan_order, plan,
}
use free_llama.Residency.Exact.Optimal.{Subset, keep, nil, cheapest_covering_set-optimal}

sum_bytes-insert_by :
    (cmp : Candidate → Candidate → Ordering) (x : Candidate) (ys : List Candidate)
    → sum_bytes (insert_by cmp x ys) ≡ x.bytes + sum_bytes ys
sum_bytes-insert_by cmp x [] = refl
sum_bytes-insert_by cmp x (y ∷ ys) = elim (Bool-cases (is_lt (cmp y x))) [
  | inl e ↦ rw e (omega (arith, sum_bytes-insert_by cmp x ys))
  | inr e ↦ rw e refl
]

sum_bytes-sort_by :
    (cmp : Candidate → Candidate → Ordering) (xs : List Candidate)
    → sum_bytes (sort_by cmp xs) ≡ sum_bytes xs
unfolding sort_by
sum_bytes-sort_by cmp [] = refl
sum_bytes-sort_by cmp (x ∷ xs) =
    omega (arith, sum_bytes-insert_by cmp x (sort_by cmp xs), sum_bytes-sort_by cmp xs)

bytes_of-le : (acc : ℕ) (xs : List Candidate) → bytes_of acc xs ≤ acc + sum_bytes xs
unfolding bytes_of
bytes_of-le acc [] = omega arith
bytes_of-le acc (x ∷ xs) = omega (arith, bytes_of-le (min (acc + x.bytes) u64_max) xs)

bytes_of-sum :
    (acc : ℕ) (xs : List Candidate)
    → acc + sum_bytes xs ≤ u64_max
    → acc + sum_bytes xs ≤ bytes_of acc xs
unfolding bytes_of
bytes_of-sum acc [] h = omega arith
bytes_of-sum acc (x ∷ xs) h =
    omega (arith, bytes_of-sum (min (acc + x.bytes) u64_max) xs (omega arith))

take_needed-covers :
    (shortfall freed : ℕ) (xs : List Candidate)
    → freed + sum_bytes xs ≤ u64_max
    → shortfall ≤ freed + sum_bytes xs
    → shortfall ≤ freed + sum_bytes (take_needed shortfall freed xs)
unfolding take_needed
take_needed-covers shortfall freed [] h k = k
take_needed-covers shortfall freed (x ∷ xs) h k = elim (Bool-cases (ltb freed shortfall)) [
  | inl e ↦
      let plain : min (freed + x.bytes) u64_max ≡ freed + x.bytes = omega arith in
      let rest = take_needed-covers shortfall (freed + x.bytes) xs (omega arith) (omega arith) in
      rw (e, plain) (omega (arith, rest))
  | inr e ↦ rw e (ground arith)
]

whole : (xs : List Candidate) → Subset xs xs
whole [] = nil
whole (x ∷ xs) = keep x xs xs (whole xs)

choose_victims-covers :
    (c : Context) (xs : List Candidate) (shortfall : ℕ)
    → sum_bytes xs ≤ u64_max
    → shortfall ≤ sum_bytes xs
    → shortfall ≤ sum_bytes (choose_victims c xs shortfall)
unfolding choose_victims greedy_covering_set
choose_victims-covers c xs shortfall fits h = elim (Bool-cases (shortfall == 0)) [
  | inl e ↦ rw e (ground arith)
  | inr e ↦
      let f : ltb (sum_bytes xs) shortfall ≡ false = ground arith in
      elim (Bool-cases (leb (length xs) 14)) [
        | inl g ↦
            let exact =
              cheapest_covering_set-optimal c xs shortfall xs (whole xs) (ground arith)
                (omega (arith, bytes_of-sum 0 xs (omega arith))) in
            rw (e, f, g)
              (omega (arith, exact.0, bytes_of-le 0 (cheapest_covering_set c xs shortfall)))
        | inr g ↦
            let cmp = λ (left right : Candidate).
              total_cmp (c.cost_per_byte left) (c.cost_per_byte right) in
            let same = sum_bytes-sort_by cmp xs in
            let greedy =
              take_needed-covers shortfall 0 (sort_by cmp xs) (omega (arith, same))
                (omega (arith, same)) in
            rw (e, f, g) (omega (arith, greedy))
      ]
]

-- Where the bytes of the candidates fit a word and the plan says that it covers the shortfall, the
-- runners that it unloads free at least the shortfall.
pub plan-covers :
    (ps : List PsEntry) (c : Context) (inputs : PlanInputs)
    → sum_bytes (sort_entries c inputs ps).candidates ≤ u64_max
    → (plan ps c inputs).covers_shortfall ≡ true
    → inputs.shortfall ≤ sum_bytes (plan ps c inputs).victims
unfolding plan
plan-covers ps c inputs fits h =
    let xs = (sort_entries c inputs ps).candidates in
    omega (
      arith,
      sum_bytes-sort_by (plan_order c) (choose_victims c xs inputs.shortfall),
      choose_victims-covers c xs inputs.shortfall fits (leb→le inputs.shortfall (sum_bytes xs) h),
    )
