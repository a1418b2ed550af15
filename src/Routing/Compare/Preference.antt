-- ===== src/Routing/Compare/Preference.antt =====
-- The laws of the comparison of candidates (packages/rust-core/src/platform/routing.rs,
-- `compare_candidates`).
use Prim.Native.Nat.{compare}
use Prim.Native.String.{compare as compare_text}
use free_llama.Base.{
  ◌-◌, ◌^◌, is_some, compare_bool, Lawful, compare_ℕ-Lawful, compare_bool-Lawful,
  compare_text-Lawful, then_with-Lawful, key-Lawful, flip-Lawful,
}
use free_llama.Task.{TaskKind}
use free_llama.Routing.{Objective, RouteInput, CatalogModel}
use free_llama.Routing.Compare.{
  unwrap_or, total_key, total_cmp, score, general_fallback_fit, fit_first, policy_preference,
  compare_for, compare_candidates,
}

module _ (task : TaskKind) where
  by_fit : Lawful (λ (left right : CatalogModel). fit_first left right task)
  by_fit = key-Lawful (λ m. general_fallback_fit m task) compare_bool compare_bool-Lawful

  by_name : Lawful (λ (left right : CatalogModel). compare_text right.name left.name)
  by_name = key-Lawful (λ m. m.name) (λ a b. compare_text b a) (flip-Lawful _ compare_text-Lawful)

  by_size : Lawful (λ (left right : CatalogModel). compare right.size left.size)
  by_size = key-Lawful (λ m. m.size) (λ a b. compare b a) (flip-Lawful _ compare_ℕ-Lawful)

  by_score :
      Lawful
        (λ left right. total_cmp (unwrap_or (score left task) 0) (unwrap_or (score right task) 0))
  by_score = key-Lawful (λ m. total_key (unwrap_or (score m task) 0)) compare compare_ℕ-Lawful

  by_benchmark :
      Lawful (λ left right. compare_bool (is_some (score left task)) (is_some (score right task)))
  by_benchmark = key-Lawful (λ m. is_some (score m task)) compare_bool compare_bool-Lawful

  by_residence : Lawful (λ (left right : CatalogModel). compare_bool left.resident right.resident)
  by_residence = key-Lawful (λ m. m.resident) compare_bool compare_bool-Lawful

  by_policy : Lawful (λ left right. policy_preference left right task)
  unfolding policy_preference
  by_policy =
      key-Lawful (λ (m : CatalogModel). unwrap_or (m.policy_rank task) (2 ^ 64 - 1))
        (λ a b. compare b a) (flip-Lawful _ compare_ℕ-Lawful)

  compare_for-Lawful : (objective : Objective) → Lawful (compare_for objective task)
  compare_for-Lawful Objective.fastest =
      then_with-Lawful _ _ by_fit
        (then_with-Lawful _ _ by_score (then_with-Lawful _ _ by_size by_name))
  compare_for-Lawful Objective.balanced = then_with-Lawful _ _ by_fit (
      then_with-Lawful _ _ by_benchmark (
        then_with-Lawful _ _ by_residence
          (then_with-Lawful _ _ by_score (then_with-Lawful _ _ by_policy by_name))))
  compare_for-Lawful Objective.quality = then_with-Lawful _ _ by_policy by_name

-- For every request the comparison of candidates is a total preorder: swapping the candidates
-- reverses its answer, and answers that are not "greater" combine along a chain of candidates.
pub compare_candidates-Lawful :
    (input : RouteInput) → Lawful (λ left right. compare_candidates left right input)
unfolding compare_candidates
compare_candidates-Lawful input = compare_for-Lawful input.task input.objective
