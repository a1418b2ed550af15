-- ===== src/Routing/Compare.antt =====
-- What a route requires, and the comparison of two candidates
-- (packages/rust-core/src/platform/routing.rs, `requirements` to `policy_preference`).
pub mod Preference
use Prim.Native.Nat.{Ordering, compare}
use Prim.Native.String.{compare as compare_text}
use free_llama.Base.{
  ℕ, ◌+◌, ◌-◌, ◌^◌, Bool, true, false, not, ◌||◌, Option, none, some, String, ltb, is_some,
  is_some_and, if◌then◌else◌, compare_bool, then_with,
}
use free_llama.Task.{TaskKind}
use free_llama.Capability.{Capability, CapabilitySet, add}
use free_llama.Routing.{Objective, RouteInput, CatalogModel, keeps_looping}

unfoldable pub ranking_capability : TaskKind → Capability
ranking_capability TaskKind.tools = Capability.tools
ranking_capability TaskKind.browser = Capability.tools
ranking_capability TaskKind.vision = Capability.vision
ranking_capability TaskKind.embedding = Capability.embedding
ranking_capability TaskKind.completion = Capability.completion
ranking_capability TaskKind.coding = Capability.completion
ranking_capability TaskKind.code_repair = Capability.completion
ranking_capability TaskKind.long_context = Capability.completion

abbrev pub calls_tools : TaskKind → Bool
calls_tools TaskKind.tools = true
calls_tools TaskKind.browser = true
calls_tools TaskKind.code_repair = true
calls_tools task = false

unfoldable pub requirements : RouteInput → CapabilitySet
requirements input =
    let required = add (ranking_capability input.task) input.required_capabilities in
    if calls_tools input.task
    then add Capability.tools (add Capability.completion required)
    else required

unfoldable pub general_fallback_fit : CatalogModel → TaskKind → Bool
general_fallback_fit m task =
    is_some (m.policy_rank task) || not (is_some_and (m.observed_loops task) keeps_looping)

abbrev pub unwrap_or : Option ℕ → ℕ → ℕ
unwrap_or none d = d
unwrap_or (some a) d = a

-- `f64::total_cmp`: the bit patterns in the order of the numbers that they are, where those of
-- negative numbers, whose highest bit is set, stand in reverse below the others.
abbrev pub total_key : ℕ → ℕ
total_key bits = if ltb bits (2 ^ 63) then 2 ^ 63 + bits else 2 ^ 64 - 1 - bits

abbrev pub total_cmp : ℕ → ℕ → Ordering
total_cmp a b = compare (total_key a) (total_key b)

unfoldable pub policy_preference : CatalogModel → CatalogModel → TaskKind → Ordering
policy_preference left right task =
    compare (unwrap_or (right.policy_rank task) (2 ^ 64 - 1))
      (unwrap_or (left.policy_rank task) (2 ^ 64 - 1))

abbrev pub fit_first : CatalogModel → CatalogModel → TaskKind → Ordering
fit_first left right task =
    compare_bool (general_fallback_fit left task) (general_fallback_fit right task)

abbrev pub score : CatalogModel → TaskKind → Option ℕ
score m task = m.benchmark (ranking_capability task)

abbrev pub compare_for : Objective → TaskKind → CatalogModel → CatalogModel → Ordering
compare_for Objective.fastest task left right = then_with (fit_first left right task) (
    then_with (total_cmp (unwrap_or (score left task) 0) (unwrap_or (score right task) 0))
      (then_with (compare right.size left.size) (compare_text right.name left.name)))
compare_for Objective.balanced task left right = then_with (fit_first left right task) (
    then_with (compare_bool (is_some (score left task)) (is_some (score right task))) (
      then_with (compare_bool left.resident right.resident) (
        then_with (total_cmp (unwrap_or (score left task) 0) (unwrap_or (score right task) 0))
          (then_with (policy_preference left right task) (compare_text right.name left.name)))))
compare_for Objective.quality task left right =
    then_with (policy_preference left right task) (compare_text right.name left.name)

unfoldable pub compare_candidates : CatalogModel → CatalogModel → RouteInput → Ordering
compare_candidates left right input = compare_for input.objective input.task left right
