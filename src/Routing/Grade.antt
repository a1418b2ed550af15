-- ===== src/Routing/Grade.antt =====
-- The grade of a route, its reasons, and the confidence that a caller demands
-- (packages/rust-core/src/platform/routing.rs, `push_selection_reasons` to `route_evidence`).
use free_llama.Base.{
  ℕ, Bool, true, false, not, ◌&&◌, List, [], ◌∷◌, ◌++◌, map, retain, Option, none, some, String,
  same_text, is_some, is_some_and, leb, ltb, if◌then◌else◌,
}
use free_llama.Task.{TaskKind}
use free_llama.Capability.{Capability}
use free_llama.Sessions.{SessionAffinity, assigned}
use free_llama.Routing.{RouteInput, CatalogModel, Options, Rejected, RouteError}
use free_llama.Routing.Compare.{unwrap_or}
use free_llama.Routing.Profile.{requested_context}

abbrev pub name_of_session : Option String → SessionAffinity → Option String
name_of_session none sessions = none
name_of_session (some id) sessions = assigned sessions id

-- The name that the request's session is bound to.
abbrev pub affine_name : RouteInput → SessionAffinity → Option String
affine_name input sessions = name_of_session input.session_id sessions

unfoldable pub push_selection_reasons :
    List String → RouteInput → CatalogModel → SessionAffinity → Bool → Bool → List String
push_selection_reasons reasons input chosen sessions policy_qualified has_benchmark =
    if is_some input.model
    then reasons ++ ("explicit_model" ∷ [])
    else if is_some_and (affine_name input sessions) (λ name. same_text name chosen.name)
    then reasons ++ ("session_affinity" ∷ [])
    else reasons
      ++ (if chosen.resident then "resident" ∷ [] else [])
      ++ ((if policy_qualified
            then "configured_task_policy"
            else if has_benchmark
            then "functional_screen_rank"
            else "capability_only_fallback")
          ∷ [])

abbrev pub window_fit : ℕ → Option ℕ → Option Bool
window_fit sent none = none
window_fit sent (some window) = some (leb sent window)

unfoldable pub sent_window_fit :
    RouteInput → CatalogModel → Options → List String → Option Bool × List String
sent_window_fit input chosen options reasons = (
  window_fit options.num_ctx chosen.advertised_context,
  (if ltb options.num_ctx (requested_context input)
      then reasons ++ ("context_clamped_to_advertised" ∷ [])
      else reasons),
)

unfoldable pub confidence_rank : String → Option ℕ
confidence_rank grade =
    if same_text grade "low" then some 1 else if same_text grade "medium" then some 2 else none

abbrev pub enforce_rank : Option ℕ → String → String → String → String → Option RouteError
enforce_rank none minimum confidence evidence would_select =
    some (RouteError.unknown_min_confidence minimum)
enforce_rank (some required) minimum confidence evidence would_select =
    if leb required (unwrap_or (confidence_rank confidence) 0)
    then none
    else some (RouteError.below_min_confidence confidence evidence minimum would_select)

abbrev pub enforce_minimum : Option String → String → String → String → Option RouteError
enforce_minimum none confidence evidence would_select = none
enforce_minimum (some minimum) confidence evidence would_select =
    enforce_rank (confidence_rank minimum) minimum confidence evidence would_select

-- The refusal, where there is one.
unfoldable pub enforce_min_confidence : RouteInput → String → String → String → Option RouteError
enforce_min_confidence input confidence evidence would_select =
    enforce_minimum input.min_confidence confidence evidence would_select

abbrev pub rejection : TaskKind → Capability → CatalogModel → Rejected
rejection task capability m = record {
  model = m.name;
  reason =
      if is_some (m.policy_rank task)
      then "policy_qualified_but_ranked_lower"
      else if is_some (m.benchmark capability)
      then "benchmarked_but_not_policy_qualified"
      else "capability_metadata_only";
  resident = m.resident;
}

unfoldable pub rejected_candidates :
    List CatalogModel → String → TaskKind → Capability → List Rejected
rejected_candidates eligible chosen task capability =
    map (rejection task capability) (retain (λ m. not (same_text m.name chosen)) eligible)

pub record RouteEvidence : Type 0 where
  pub quality_evidence : String
  pub task_evidence : String
  pub context_window_fit : String
  pub hardware_fit : String
  pub confidence : String
  pub evidence : String

abbrev pub fit_words : Option Bool → String → String
fit_words (some true) fits = fits
fit_words (some false) fits = "insufficient_context"
fit_words none fits = "unknown"

abbrev pub evidence_class : Bool → Bool → String
evidence_class true has_benchmark = "configured_task_policy"
evidence_class false true = "functional_throughput_screen"
evidence_class false false = "capability_metadata_only"

unfoldable pub route_evidence : Bool → Bool → Option Bool → RouteEvidence
route_evidence policy_qualified has_benchmark fits = record {
  quality_evidence = if policy_qualified then "strong" else "none";
  task_evidence = if has_benchmark then "strong" else "none";
  context_window_fit = fit_words fits "fits_advertised_window";
  hardware_fit = fit_words fits "context_window_only";
  confidence = if policy_qualified && has_benchmark then "medium" else "low";
  evidence = evidence_class policy_qualified has_benchmark;
}
