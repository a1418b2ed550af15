-- ===== src/Examples/ResidencyExamples.antt =====
-- Plans for a small backend (packages/rust-core/src/platform/residency.rs).
use Prim.Native.Nat.{Ordering}
use free_llama.Base.{
  u64_max, ℕ, ◌+◌, ◌≤◌, ◌≡◌, ◌≢◌, refl, true, List, [], ◌∷◌, map, none, some, String, same_text,
  All, arith,
}
use free_llama.Residency.{
  Context, Candidate, PlanInputs, PsEntry, Freed, Usage, reason_kept, pinned_expiry, sort_entries,
}
use free_llama.Residency.Victims.{
  chosen_by, cost_of, bytes_of, compare_keys, key_of, consider_mask, search_masks,
  cheapest_covering_set, sort_by, sum_bytes, choose_victims, plan,
}
use free_llama.Residency.Exact.Optimal.{Subset, keep, drop, nil, cheapest_covering_set-optimal}
use free_llama.Residency.Safety.{Idle, plan-Idle}
use free_llama.Residency.Covers.{plan-covers}

abbrev unused : Usage
unused = record { active = 0; recent_uses = 0; load_ms = none }

-- Costs are whole numbers here, in place of `f64`.
abbrev context : Context
context = record {
  now_year = 2026;
  year_of = λ text. some 2026;
  usage = λ name. unused;
  cost = λ x. x.size;
  add = λ a b. a + b;
  cost_per_byte = λ x. 1;
}

abbrev inputs : PlanInputs
inputs = record {
  keep = "target";
  pinned = λ name. same_text name "pinned";
  freed = Freed.total;
  shortfall = 5;
}

abbrev entry : String → ℕ → PsEntry
entry name size = record { name = some name; expires_at = "2026"; size = size; size_vram = 0 }

abbrev loaded : List PsEntry
loaded = entry "target" 9 ∷ entry "large" 8 ∷ entry "pinned" 9 ∷ entry "one" 3 ∷ entry "two" 3 ∷ []

abbrev runner : String → ℕ → Candidate
runner name size = record {
  name = name;
  bytes = size;
  size = size;
  usage = unused;
  expires_at = "2026";
}

abbrev runners : List Candidate
runners = runner "large" 8 ∷ runner "one" 3 ∷ runner "two" 3 ∷ []

two_are_cheaper :
    map (λ (x : Candidate). x.name) (plan loaded context inputs).victims ≡ "one" ∷ "two" ∷ []
unfolding plan choose_victims cheapest_covering_set search_masks consider_mask chosen_by key_of
    cost_of bytes_of compare_keys sort_by sort_entries reason_kept pinned_expiry
two_are_cheaper = refl

loaded_covers : (plan loaded context inputs).covers_shortfall ≡ true
unfolding plan sort_entries reason_kept pinned_expiry
loaded_covers = refl

loaded_fits : sum_bytes (sort_entries context inputs loaded).candidates ≤ u64_max
unfolding sort_entries reason_kept pinned_expiry
loaded_fits = omega arith

plan-Idle_example : All (Idle context inputs) (plan loaded context inputs).victims
plan-Idle_example = plan-Idle context inputs loaded

plan-covers_example : 5 ≤ sum_bytes (plan loaded context inputs).victims
plan-covers_example = plan-covers loaded context inputs loaded_fits loaded_covers

large_alone : Subset (runner "large" 8 ∷ []) runners
large_alone =
    keep (runner "large" 8) [] (runner "one" 3 ∷ runner "two" 3 ∷ [])
      (drop (runner "one" 3) [] (runner "two" 3 ∷ []) (drop (runner "two" 3) [] [] nil))

large_covers : 5 ≤ bytes_of 0 (runner "large" 8 ∷ [])
unfolding bytes_of
large_covers = omega arith

cheapest_covering_set-optimal_example :
    (5 ≤ bytes_of 0 (cheapest_covering_set context runners 5))
    × (compare_keys
          (key_of context 5 (cheapest_covering_set context runners 5))
          (key_of context 5 (runner "large" 8 ∷ []))
        ≢ Ordering.gt)
cheapest_covering_set-optimal_example =
    cheapest_covering_set-optimal context runners 5 (runner "large" 8 ∷ []) large_alone
      (omega arith) large_covers
