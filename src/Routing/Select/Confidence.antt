-- ===== src/Routing/Select/Confidence.antt =====
-- The confidence that a caller demands of a route (packages/rust-core/src/platform/routing.rs,
-- `enforce_min_confidence`, `confidence_rank` and `route_evidence`), and the context it sends.
use free_llama.Base.{
  ℕ, ◌≤◌, ◌<◌, ◌^◌, ◌≡◌, ◌∙◌, refl, sym, ap, subst, Bool, true, false, ◌&&◌, List, Option, none,
  some, some-injective, String, is_some, leb, le→leb, is_none_or, ok, arith, Has, Member-Has, min,
  ◌-◌, if◌then◌else◌,
}
use free_llama.Sessions.{SessionAffinity}
use free_llama.Routing.{RouteInput, CatalogModel, RouteDecision}
use free_llama.Routing.Compare.{ranking_capability, unwrap_or}
use free_llama.Routing.Profile.{num_ctx, requested_context, profile}
use free_llama.Routing.Grade.{
  confidence_rank, enforce_rank, enforce_minimum, enforce_min_confidence, route_evidence,
}
use free_llama.Routing.Select.{graded, decide, is_qualified, select_route}
use free_llama.Routing.Select.Chosen.{Routed-Member}
use free_llama.Routing.Select.Candidates.{Routed, select_route-Routed}

enforce_rank-none :
    (rank : Option ℕ) (minimum confidence evidence name : String)
    → enforce_rank rank minimum confidence evidence name ≡ none
    → (required : ℕ) × (rank ≡ some required)
      × (required ≤ unwrap_or (confidence_rank confidence) 0)
enforce_rank-none none minimum confidence evidence name h = cc
enforce_rank-none (some required) minimum confidence evidence name h =
    (required, refl, ground arith)

-- Where a minimum confidence is demanded and a route is found, the minimum is a grade that the
-- router issues, and the route's own grade ranks no lower.
pub select_route-confidence_rank :
    (input : RouteInput) (models : List CatalogModel) (sessions : SessionAffinity)
    (d : RouteDecision) (minimum : String)
    → input.min_confidence ≡ some minimum
    → select_route input models sessions ≡ ok d
    → (required : ℕ) × (confidence_rank minimum ≡ some required)
      × (required ≤ unwrap_or (confidence_rank d.confidence) 0)
unfolding enforce_min_confidence
select_route-confidence_rank input models sessions d minimum e h =
    let r = select_route-Routed input models sessions d h in
    enforce_rank-none (confidence_rank minimum) minimum d.confidence d.evidence r.chosen.name
      (subst (λ o. enforce_minimum o d.confidence d.evidence r.chosen.name ≡ none) e r.accepted)

-- The grade of a route is "medium" where a policy names the model for the task and a benchmark
-- measured it, and else "low".
abbrev has_evidence : RouteInput → CatalogModel → Bool
has_evidence input m = is_qualified input m && is_some (m.benchmark (ranking_capability input.task))

decide-confidence :
    (input : RouteInput) (sessions : SessionAffinity) (eligible : List CatalogModel)
    (chosen : CatalogModel)
    → (decide input sessions eligible chosen).confidence
      ≡ (if has_evidence input chosen then "medium" else "low")
unfolding decide graded route_evidence
decide-confidence input sessions eligible chosen = refl

rank_demands :
    (b : Bool) → 2 ≤ unwrap_or (confidence_rank (if b then "medium" else "low")) 0 → b ≡ true
unfolding confidence_rank
rank_demands true h = refl
rank_demands false h = let k : 2 ≤ 1 = h in absurd (omega (arith, k))

medium_rank : (n : ℕ) → confidence_rank "medium" ≡ some n → n ≡ 2
unfolding confidence_rank
medium_rank n h = sym (some-injective _ _ h)

both_true : (a b : Bool) → a && b ≡ true → (a ≡ true) × (b ≡ true)
both_true a b h = ground arith

decide-num_ctx :
    (input : RouteInput) (sessions : SessionAffinity) (eligible : List CatalogModel)
    (chosen : CatalogModel)
    → (decide input sessions eligible chosen).options.num_ctx ≡ num_ctx input chosen
unfolding decide profile
decide-num_ctx input sessions eligible chosen = refl

num_ctx-word : (input : RouteInput) (m : CatalogModel) → num_ctx input m < 2 ^ 32
unfolding num_ctx
num_ctx-word input m = ground arith

num_ctx-requested :
    (input : RouteInput) (m : CatalogModel) → num_ctx input m ≤ requested_context input
unfolding num_ctx
num_ctx-requested input m = omega arith

window-le :
    (n : ℕ) (o : Option ℕ)
    → is_none_or o (λ window. leb (min (min n (unwrap_or o n)) (2 ^ 32 - 1)) window) ≡ true
window-le n none = refl
window-le n (some window) = le→leb _ window (omega arith)

num_ctx-window :
    (input : RouteInput) (m : CatalogModel)
    → is_none_or m.advertised_context (λ window. leb (num_ctx input m) window) ≡ true
unfolding num_ctx
num_ctx-window input m = window-le (requested_context input) m.advertised_context

Routed-name :
    (input : RouteInput) (models : List CatalogModel) (sessions : SessionAffinity)
    (d : RouteDecision) (r : Routed input models sessions d)
    → r.chosen.name ≡ d.selected_model
unfolding decide
Routed-name input models sessions d r = ap (λ x. x.selected_model) r.decided

module _ (input : RouteInput) (models : List CatalogModel) (sessions : SessionAffinity)
    (d : RouteDecision) where
  -- Where the grade "medium" is demanded and a route is found, an installed model of the selected
  -- name is named by a policy for the task and was measured by a benchmark.
  pub select_route-medium :
      input.min_confidence ≡ some "medium"
      → select_route input models sessions ≡ ok d
      → Has
          (λ m.
            (m.name ≡ d.selected_model)
            × (is_qualified input m ≡ true)
            × (is_some (m.benchmark (ranking_capability input.task)) ≡ true))
          models
  select_route-medium e h =
      let r = select_route-Routed input models sessions d h in
      let (required, rank, le) =
        select_route-confidence_rank input models sessions d "medium" e h in
      let graded_so =
        ap (λ x. x.confidence) (sym r.decided)
        ∙ decide-confidence input sessions r.eligible r.chosen in
      let evidence = rank_demands (has_evidence input r.chosen) (
        subst (λ c. 2 ≤ unwrap_or (confidence_rank c) 0) graded_so
          (subst (λ n. n ≤ unwrap_or (confidence_rank d.confidence) 0) (medium_rank required rank)
            le)) in
      let (qualified, measured) = both_true _ _ evidence in
      Member-Has _ models r.chosen (Routed-Member input models sessions d r)
        (Routed-name input models sessions d r, qualified, measured)

  -- The context that a found route sends is at most 2 ^ 32 - 1 and at most the requested one, and
  -- an installed model of the selected name advertises no smaller window, if it advertises one.
  select_route-num_ctx :
      select_route input models sessions ≡ ok d
      → (d.options.num_ctx < 2 ^ 32)
        × (d.options.num_ctx ≤ requested_context input)
        × Has
            (λ m.
              (m.name ≡ d.selected_model)
              × (is_none_or m.advertised_context (λ window. leb d.options.num_ctx window) ≡ true))
            models
  select_route-num_ctx h =
      let r = select_route-Routed input models sessions d h in
      let sent =
        ap (λ x. x.options.num_ctx) (sym r.decided)
        ∙ decide-num_ctx input sessions r.eligible r.chosen in
      (
        subst (λ n. n < 2 ^ 32) (sym sent) (num_ctx-word input r.chosen),
        subst (λ n. n ≤ requested_context input) (sym sent) (num_ctx-requested input r.chosen),
        Member-Has _ models r.chosen (Routed-Member input models sessions d r) (
          Routed-name input models sessions d r,
          subst (λ n. is_none_or r.chosen.advertised_context (λ window. leb n window) ≡ true)
              (sym sent) (num_ctx-window input r.chosen),
        ),
      )
