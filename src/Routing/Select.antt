-- ===== src/Routing/Select.antt =====
-- The choice of a model and the decision (packages/rust-core/src/platform/routing.rs, `select_route`
-- and `eligible_for_objective`).
pub mod Candidates
pub mod Chosen
pub mod Greatest
pub mod AnyOrder
pub mod Confidence
use free_llama.Base.{
  ℕ, Bool, true, false, not, ◌&&◌, ◌||◌, List, [], ◌∷◌, ◌++◌, retain, any, find, Option, none, some,
  String, same_text, is_some, is_some_and, is_none_or, leb, if◌then◌else◌, Result, ok, err,
  and_then, max_by,
}
use free_llama.Task.{TaskKind}
use free_llama.Capability.{is_subset}
use free_llama.Sessions.{SessionAffinity, assigned}
use free_llama.Routing.{Objective, RouteInput, CatalogModel, RouteDecision, RouteError}
use free_llama.Routing.Names.{has_name, installed_model}
use free_llama.Routing.Compare.{
  requirements, ranking_capability, general_fallback_fit, compare_candidates,
}
use free_llama.Routing.Profile.{TaskProfile, profile}
use free_llama.Routing.Grade.{
  RouteEvidence, affine_name, push_selection_reasons, sent_window_fit, route_evidence,
  enforce_min_confidence, rejected_candidates,
}

abbrev pub context_fits : RouteInput → CatalogModel → Bool
context_fits input m =
    is_none_or input.context_tokens
      (λ requested. is_some_and m.advertised_context (λ available. leb requested available))

abbrev pub has_capabilities : RouteInput → CatalogModel → Bool
has_capabilities input m = is_subset (requirements input) m.capabilities

unfoldable pub capability_eligible : RouteInput → List CatalogModel → List CatalogModel
capability_eligible input models =
    retain (context_fits input) (retain (has_capabilities input) models)

abbrev pub is_qualified : RouteInput → CatalogModel → Bool
is_qualified input m = is_some (m.policy_rank input.task)

-- The candidates of an objective, given those that a policy names for the task.
abbrev pub qualified_for :
    Objective → List CatalogModel → List CatalogModel → Result (List CatalogModel) RouteError
qualified_for Objective.fastest all qualified = ok all
qualified_for Objective.balanced all [] = ok all
qualified_for Objective.quality all [] = err RouteError.none_qualified
qualified_for objective all (m ∷ rest) = ok (m ∷ rest)

unfoldable pub eligible_for_objective :
    RouteInput → List CatalogModel → Result (List CatalogModel) RouteError
eligible_for_objective input candidates =
    if is_some input.model
    then ok candidates
    else qualified_for input.objective candidates (retain (is_qualified input) candidates)

abbrev pub find_named : Option String → List CatalogModel → Option CatalogModel
find_named none eligible = none
find_named (some name) eligible = find (has_name name) eligible

abbrev pub filter_model : (CatalogModel → Bool) → Option CatalogModel → Option CatalogModel
filter_model p none = none
filter_model p (some m) = if p m then some m else none

-- The session's model, where it is eligible and does not keep looping on the task.
unfoldable pub affine_model : RouteInput → SessionAffinity → List CatalogModel → Option CatalogModel
affine_model input sessions eligible =
    filter_model (λ m. general_fallback_fit m input.task)
      (find_named (affine_name input sessions) eligible)

abbrev pub some_or : Option CatalogModel → RouteError → Result CatalogModel RouteError
some_or none e = err e
some_or (some m) e = ok m

abbrev pub affine_or_best :
    Option CatalogModel → RouteInput → List CatalogModel → Result CatalogModel RouteError
affine_or_best (some m) input eligible = ok m
affine_or_best none input eligible =
    some_or (max_by (λ left right. compare_candidates left right input) eligible)
      RouteError.none_eligible

abbrev pub ensure_eligible : List CatalogModel → CatalogModel → Result CatalogModel RouteError
ensure_eligible eligible m =
    if any (has_name m.name) eligible then ok m else err (RouteError.not_eligible m.name)

abbrev pub choose_for :
    Option String
    → RouteInput
    → List CatalogModel
    → SessionAffinity
    → List CatalogModel
    → Result CatalogModel RouteError
choose_for (some requested) input models sessions eligible =
    and_then (installed_model models requested) (ensure_eligible eligible)
choose_for none input models sessions eligible =
    affine_or_best (affine_model input sessions eligible) input eligible

unfoldable pub choose :
    RouteInput
    → List CatalogModel
    → SessionAffinity
    → List CatalogModel
    → Result CatalogModel RouteError
choose input models sessions eligible = choose_for input.model input models sessions eligible

abbrev pub is_balanced : Objective → Bool
is_balanced Objective.balanced = true
is_balanced objective = false

abbrev pub remark : Bool → String → List String
remark true word = word ∷ []
remark false word = []

-- The reasons that stand before those of the selection.
unfoldable pub first_reasons : RouteInput → CatalogModel → TaskProfile → List String
first_reasons input chosen p =
    ("installed" ∷ "capabilities_satisfied" ∷ [])
    ++ remark (not (is_some input.model) && not (general_fallback_fit chosen input.task))
        "repeats_on_this_task_last_resort"
    ++ remark p.policy_model_options "policy_model_options"
    ++ remark p.policy_think_dropped "policy_think_ignored_without_thinking_capability"
    ++ remark
        (not (is_some input.model)
          && is_balanced input.objective
          && not (is_qualified input chosen))
        "balanced_without_quality_policy"

abbrev pub refuse_or : Option RouteError → RouteDecision → Result RouteDecision RouteError
refuse_or none decision = ok decision
refuse_or (some e) decision = err e

unfoldable pub graded : RouteInput → CatalogModel → Option Bool → RouteEvidence
graded input chosen fits =
    route_evidence (is_qualified input chosen)
      (is_some (chosen.benchmark (ranking_capability input.task))) fits

unfoldable pub decide :
    RouteInput → SessionAffinity → List CatalogModel → CatalogModel → RouteDecision
decide input sessions eligible chosen =
    let p = profile input chosen in
    let capability = ranking_capability input.task in
    let has_benchmark = is_some (chosen.benchmark capability) in
    let selection =
      push_selection_reasons (first_reasons input chosen p) input chosen sessions
        (is_qualified input chosen) has_benchmark in
    let fitted = sent_window_fit input chosen p.options selection in
    let g = graded input chosen fitted.0 in
    record {
      selected_model = chosen.name;
      task = input.task;
      objective = input.objective;
      profile = p.name;
      required_capabilities = requirements input;
      options = p.options;
      think = p.think;
      strict_tool_validation = p.strict_tool_validation;
      resident = chosen.resident;
      session_id = input.session_id;
      confidence = g.confidence;
      evidence = g.evidence;
      quality_evidence = g.quality_evidence;
      task_evidence = g.task_evidence;
      context_window_fit = g.context_window_fit;
      hardware_fit = g.hardware_fit;
      rejected = rejected_candidates eligible chosen.name input.task capability;
      reasons = fitted.1;
    }

unfoldable pub decide_checked :
    RouteInput
    → SessionAffinity
    → List CatalogModel
    → CatalogModel
    → Result RouteDecision RouteError
decide_checked input sessions eligible chosen =
    let d = decide input sessions eligible chosen in
    refuse_or (enforce_min_confidence input d.confidence d.evidence chosen.name) d

unfoldable pub select_route :
    RouteInput → List CatalogModel → SessionAffinity → Result RouteDecision RouteError
select_route input models sessions =
    and_then (eligible_for_objective input (capability_eligible input models)) (λ eligible.
      and_then (choose input models sessions eligible)
        (λ chosen. decide_checked input sessions eligible chosen))
