-- ===== src/Residency/Victims.antt =====
-- The choice of the models to unload (packages/rust-core/src/platform/residency.rs, `plan`,
-- `cheapest_covering_set` and `greedy_covering_set`).
use Prim.Native.Nat.{Ordering, compare}
use Prim.Native.String.{compare as compare_text}
use free_llama.Base.{
  u64_max, ℕ, zero, suc, ◌+◌, ◌-◌, ◌/◌, ◌%◌, ◌^◌, min, Bool, true, false, List, [], ◌∷◌, Option,
  none, some, ltb, leb, ◌==◌, length, if◌then◌else◌, then_with,
}
use free_llama.Routing.Compare.{total_cmp}
use free_llama.Residency.{Candidate, Context, Plan, PlanInputs, PsEntry, sort_entries}

-- The runners of a mask, their cost and their bytes; the mask's lowest bit is the first runner's.
unfoldable pub chosen_by : ℕ → List Candidate → List Candidate
chosen_by mask [] = []
chosen_by mask (x ∷ xs) =
    let rest = chosen_by (mask / 2) xs in if mask % 2 == 1 then x ∷ rest else rest

unfoldable pub cost_of : Context → ℕ → List Candidate → ℕ
cost_of c sum [] = sum
cost_of c sum (x ∷ xs) = cost_of c (c.add sum (c.cost x)) xs

unfoldable pub bytes_of : ℕ → List Candidate → ℕ
bytes_of sum [] = sum
bytes_of sum (x ∷ xs) = bytes_of (min (sum + x.bytes) u64_max) xs

-- What two covering sets are compared by.
pub record Key : Type 0 where
  pub cost : ℕ
  pub runners : ℕ
  pub excess : ℕ

unfoldable pub compare_keys : Key → Key → Ordering
compare_keys a b =
    then_with (total_cmp a.cost b.cost)
      (then_with (compare a.runners b.runners) (compare a.excess b.excess))

abbrev pub is_lt : Ordering → Bool
is_lt Ordering.lt = true
is_lt Ordering.eq = false
is_lt Ordering.gt = false

unfoldable pub key_of : Context → ℕ → List Candidate → Key
key_of c shortfall set = record {
  cost = cost_of c 0 set;
  runners = length set;
  excess = bytes_of 0 set - shortfall;
}

abbrev pub better : Key → Option (Key × ℕ) → Bool
better key none = true
better key (some (current, mask)) = is_lt (compare_keys key current)

abbrev pub consider_set : Context → ℕ → List Candidate → ℕ → Option (Key × ℕ) → Option (Key × ℕ)
consider_set c shortfall set mask best =
    if ltb (bytes_of 0 set) shortfall
    then best
    else if better (key_of c shortfall set) best
    then some (key_of c shortfall set, mask)
    else best

-- One turn of the loop over the masks.
unfoldable pub consider_mask :
    Context → List Candidate → ℕ → ℕ → Option (Key × ℕ) → Option (Key × ℕ)
consider_mask c candidates shortfall mask best =
    consider_set c shortfall (chosen_by mask candidates) mask best

-- The masks from `mask` on, `fuel` of them.
unfoldable pub search_masks :
    Context → List Candidate → ℕ → ℕ → ℕ → Option (Key × ℕ) → Option (Key × ℕ)
search_masks c candidates shortfall zero mask best = best
search_masks c candidates shortfall (suc fuel) mask best =
    search_masks c candidates shortfall fuel (mask + 1)
      (consider_mask c candidates shortfall mask best)

abbrev pub set_of_best : List Candidate → Option (Key × ℕ) → List Candidate
set_of_best candidates none = []
set_of_best candidates (some (key, mask)) = chosen_by mask candidates

unfoldable pub cheapest_covering_set : Context → List Candidate → ℕ → List Candidate
cheapest_covering_set c candidates shortfall =
    set_of_best candidates (search_masks c candidates shortfall (2 ^ length candidates - 1) 1 none)

-- `sort_by`, which is stable.
abbrev pub insert_by :
    (Candidate → Candidate → Ordering) → Candidate → List Candidate → List Candidate
insert_by cmp x [] = x ∷ []
insert_by cmp x (y ∷ ys) =
    let rest = insert_by cmp x ys in if is_lt (cmp y x) then y ∷ rest else x ∷ y ∷ ys

unfoldable pub sort_by : (Candidate → Candidate → Ordering) → List Candidate → List Candidate
sort_by cmp [] = []
sort_by cmp (x ∷ xs) = insert_by cmp x (sort_by cmp xs)

-- `take_while` with the bytes freed so far.
unfoldable pub take_needed : ℕ → ℕ → List Candidate → List Candidate
take_needed shortfall freed [] = []
take_needed shortfall freed (x ∷ xs) =
    let rest = take_needed shortfall (min (freed + x.bytes) u64_max) xs in
    if ltb freed shortfall then x ∷ rest else []

unfoldable pub greedy_covering_set : Context → List Candidate → ℕ → List Candidate
greedy_covering_set c candidates shortfall =
    take_needed shortfall 0
      (sort_by (λ left right. total_cmp (c.cost_per_byte left) (c.cost_per_byte right)) candidates)

abbrev pub sum_bytes : List Candidate → ℕ
sum_bytes [] = 0
sum_bytes (x ∷ xs) = x.bytes + sum_bytes xs

unfoldable pub choose_victims : Context → List Candidate → ℕ → List Candidate
choose_victims c candidates shortfall =
    if shortfall == 0
    then []
    else if ltb (sum_bytes candidates) shortfall
    then candidates
    else if leb (length candidates) 14
    then cheapest_covering_set c candidates shortfall
    else greedy_covering_set c candidates shortfall

abbrev pub plan_order : Context → Candidate → Candidate → Ordering
plan_order c left right =
    then_with (total_cmp (c.cost left) (c.cost right))
      (compare_text left.expires_at right.expires_at)

unfoldable pub plan : List PsEntry → Context → PlanInputs → Plan
plan ps c inputs =
    let sorted = sort_entries c inputs ps in
    record {
      victims = sort_by (plan_order c) (choose_victims c sorted.candidates inputs.shortfall);
      skipped = sorted.skipped;
      shortfall = inputs.shortfall;
      covers_shortfall = leb inputs.shortfall (sum_bytes sorted.candidates);
    }
