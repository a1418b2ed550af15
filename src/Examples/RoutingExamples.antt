-- ===== src/Examples/RoutingExamples.antt =====
-- Routes over a small catalog (packages/rust-core/src/platform/routing.rs).
use free_llama.Base.{
  ◌≡◌, ◌≢◌, inl, inr, refl, true, false, List, [], ◌∷◌, none, some, is_some, Result, ok, err, Has,
  Lawful,
}
use free_llama.Task.{TaskKind}
use free_llama.Capability.{Capability, CapabilitySet, is_subset, no_capabilities, add, parse}
use free_llama.Sessions.{empty}
use free_llama.Routing.{
  Objective, RouteInput, CatalogModel, RouteDecision, RouteError, default_input, keeps_looping,
}
use free_llama.Routing.Names.{installed_model}
use free_llama.Routing.Names.Denotes.{Denotes}
use free_llama.Routing.Compare.{
  compare_candidates, requirements, ranking_capability, general_fallback_fit, policy_preference,
}
use free_llama.Routing.Compare.Preference.{compare_candidates-Lawful}
use free_llama.Routing.Grade.{confidence_rank, enforce_min_confidence, route_evidence}
use free_llama.Routing.Select.{
  capability_eligible, eligible_for_objective, affine_model, choose, graded, decide, decide_checked,
  is_qualified, select_route,
}
use free_llama.Routing.Select.Candidates.{Serves}
use free_llama.Routing.Select.Chosen.{select_route-Serves, select_route-explicit}
use free_llama.Routing.Select.Greatest.{IsGreatest, select_route-IsGreatest}
use free_llama.Routing.Select.AnyOrder.{Within, select_route-Within}
use free_llama.Routing.Select.Confidence.{select_route-medium}

abbrev texts : CapabilitySet
texts = add Capability.completion no_capabilities

-- The small model has a benchmark, whose score is 1.0, and a policy for completions.
abbrev pub small : CatalogModel
small = record {
  name = "llama:1b";
  digest = some "sha256:llama:1b";
  size = 100;
  capabilities = texts;
  advertised_context = some 4096;
  kv_cache_bytes_per_token_f16 = none;
  modelfile_num_ctx = none;
  resident_context = none;
  resident = false;
  benchmark = λ c. some 4607182418800017408;
  observed_loops = λ task. none;
  policy_rank = λ task. some 0;
  policy_options = λ task. none;
}

-- The large one repeats itself.
abbrev large : CatalogModel
large = record {
  name = "qwen:7b";
  digest = some "sha256:qwen:7b";
  size = 700;
  capabilities = texts;
  advertised_context = some 32768;
  kv_cache_bytes_per_token_f16 = none;
  modelfile_num_ctx = none;
  resident_context = none;
  resident = true;
  benchmark = λ c. none;
  observed_loops = λ task. some (record { runs = 3; loops = 2 });
  policy_rank = λ task. none;
  policy_options = λ task. none;
}

abbrev catalog : List CatalogModel
catalog = large ∷ small ∷ []

abbrev demanding : RouteInput
demanding = record default_input { min_confidence = some "medium" }

abbrev fast : RouteInput
fast = record default_input { objective = Objective.fastest }

abbrev named : RouteInput
named = record default_input { model = some "qwen" }

abbrev answer : Result RouteDecision RouteError → RouteDecision → RouteDecision
answer (ok d) otherwise = d
answer (err e) otherwise = otherwise

abbrev nothing : RouteDecision
nothing = decide default_input empty [] small

abbrev route : RouteInput → RouteDecision
route input = decide input empty (small ∷ []) small

looping : keeps_looping (record { runs = 3; loops = 2 }) ≡ true
unfolding keeps_looping
looping = refl

unknown_name :
    installed_model catalog "phi"
    ≡ err (RouteError.not_installed "phi" ("qwen:7b" ∷ "llama:1b" ∷ []))
unfolding installed_model
unknown_name = refl

parsed : parse "vision" ≡ Capability.vision
unfolding parse
parsed = refl

routed : select_route demanding catalog empty ≡ ok (route demanding)
unfolding select_route eligible_for_objective capability_eligible is_subset requirements
    ranking_capability choose affine_model decide_checked enforce_min_confidence confidence_rank
    decide graded route_evidence compare_candidates policy_preference general_fallback_fit
    keeps_looping
routed = refl

fast_route : select_route fast catalog empty ≡ ok (decide fast empty catalog small)
unfolding select_route eligible_for_objective capability_eligible is_subset requirements
    ranking_capability choose affine_model decide_checked enforce_min_confidence decide
    compare_candidates general_fallback_fit keeps_looping
fast_route = refl

named_route : select_route named catalog empty ≡ ok (decide named empty catalog large)
unfolding select_route eligible_for_objective capability_eligible is_subset requirements
    ranking_capability choose installed_model decide_checked enforce_min_confidence decide
named_route = refl

fast_candidates : eligible_for_objective fast (capability_eligible fast catalog) ≡ ok catalog
unfolding eligible_for_objective capability_eligible is_subset requirements ranking_capability
fast_candidates = refl

no_affine : affine_model fast empty catalog ≡ none
unfolding affine_model
no_affine = refl

fast_is_fast : fast.objective ≢ Objective.quality
fast_is_fast e = cc

compare_candidates-Lawful_example : Lawful (λ left right. compare_candidates left right fast)
compare_candidates-Lawful_example = compare_candidates-Lawful fast

select_route-Serves_example :
    Has (λ m. (m.name ≡ (route demanding).selected_model) × Serves demanding m) catalog
select_route-Serves_example = select_route-Serves demanding catalog empty (route demanding) routed

select_route-explicit_example :
    (m : CatalogModel) × (installed_model catalog "qwen" ≡ ok m)
    × (m.name ≡ (decide named empty catalog large).selected_model)
select_route-explicit_example =
    select_route-explicit named catalog empty (decide named empty catalog large) "qwen" refl
      named_route

select_route-IsGreatest_example :
    (m : CatalogModel) × IsGreatest fast catalog m
    × (m.name ≡ (decide fast empty catalog small).selected_model)
select_route-IsGreatest_example =
    select_route-IsGreatest fast catalog empty (decide fast empty catalog small) catalog refl
      fast_candidates no_affine fast_route

select_route-medium_example :
    Has
      (λ m.
        (m.name ≡ (route demanding).selected_model)
        × (is_qualified demanding m ≡ true)
        × (is_some (m.benchmark (ranking_capability TaskKind.completion)) ≡ true))
      catalog
select_route-medium_example =
    select_route-medium demanding catalog empty (route demanding) refl routed

there : Within catalog (small ∷ large ∷ [])
there a (inl e) = inr (inl e)
there a (inr (inl e)) = inl e
there a (inr (inr m)) = inr (inr m)

back : Within (small ∷ large ∷ []) catalog
back a (inl e) = inr (inl e)
back a (inr (inl e)) = inl e
back a (inr (inr m)) = inr (inr m)

fast_reversed :
    select_route fast (small ∷ large ∷ []) empty ≡ ok (decide fast empty (small ∷ large ∷ []) small)
unfolding select_route eligible_for_objective capability_eligible is_subset requirements
    ranking_capability choose affine_model decide_checked enforce_min_confidence decide
    compare_candidates general_fallback_fit keeps_looping
fast_reversed = refl

select_route-Within_example :
    (decide fast empty catalog small).selected_model
    ≡ (decide fast empty (small ∷ large ∷ []) small).selected_model
select_route-Within_example =
    select_route-Within fast refl catalog (small ∷ large ∷ []) empty empty
      (decide fast empty catalog small) (decide fast empty (small ∷ large ∷ []) small) refl there
      back fast_route fast_reversed
