-- ===== src/Routing/Select/Candidates.antt =====
-- The candidates of a route (packages/rust-core/src/platform/routing.rs, `select_route` and
-- `eligible_for_objective`) and what a route is made of.
use free_llama.Base.{
  ℕ, ◌≤◌, ◌≡◌, ◌⊎◌, inl, inr, refl, sym, subst, true, List, [], ◌∷◌, Option, none, some, String,
  is_some, is_some_and, is_none_or, leb, leb→le, retain, Result, ok, and_then-ok, ok-injective,
  Option-cases, Member, Member-retain, if◌then◌else◌,
}
use free_llama.Capability.{Capability, is_subset_sound}
use free_llama.Sessions.{SessionAffinity}
use free_llama.Routing.{Objective, RouteInput, CatalogModel, RouteDecision, RouteError}
use free_llama.Routing.Compare.{requirements}
use free_llama.Routing.Grade.{enforce_min_confidence}
use free_llama.Routing.Select.{
  context_fits, has_capabilities, capability_eligible, is_qualified, qualified_for,
  eligible_for_objective, choose, decide, refuse_or, decide_checked, select_route,
}

-- What a route is made of: the candidates, the chosen model, and that no demand refused it.
pub record Routed (input : RouteInput) (models : List CatalogModel) (sessions : SessionAffinity)
    (d : RouteDecision) : Type 0 where
  pub eligible : List CatalogModel
  pub chosen : CatalogModel
  pub candidates : eligible_for_objective input (capability_eligible input models) ≡ ok eligible
  pub choice : choose input models sessions eligible ≡ ok chosen
  pub decided : decide input sessions eligible chosen ≡ d
  pub accepted : enforce_min_confidence input d.confidence d.evidence chosen.name ≡ none

refuse_or-ok :
    (r : Option RouteError) (decision d : RouteDecision)
    → refuse_or r decision ≡ ok d
    → (r ≡ none) × (decision ≡ d)
refuse_or-ok none decision d h = (refl, ok-injective _ _ h)
refuse_or-ok (some e) decision d h = cc

pub select_route-Routed :
    (input : RouteInput) (models : List CatalogModel) (sessions : SessionAffinity)
    (d : RouteDecision)
    → select_route input models sessions ≡ ok d
    → Routed input models sessions d
unfolding select_route decide_checked
select_route-Routed input models sessions d h =
    let (eligible, e, h₁) = and_then-ok _ _ d h in
    let (chosen, c, h₂) = and_then-ok _ _ d h₁ in
    let (accepted, decided) = refuse_or-ok _ _ d h₂ in
    record {
      eligible = eligible;
      chosen = chosen;
      candidates = e;
      choice = c;
      decided = decided;
      accepted =
          subst (λ x. enforce_min_confidence input x.confidence x.evidence chosen.name ≡ none)
            decided accepted;
    }

module _ (input : RouteInput) where
  -- A candidate has every required capability and room for the context, and where no model is
  -- named and quality is asked for a policy names it for the task.
  pub record Serves (m : CatalogModel) : Type 0 where
    pub capable : (c : Capability) → requirements input c ≡ true → m.capabilities c ≡ true
    pub roomy :
        (requested : ℕ)
        → input.context_tokens ≡ some requested
        → (window : ℕ) × (m.advertised_context ≡ some window) × (requested ≤ window)
    pub vouched :
        input.model ≡ none → input.objective ≡ Objective.quality → is_qualified input m ≡ true

  is_some_and-leb :
      (n : ℕ) (o : Option ℕ)
      → is_some_and o (λ window. leb n window) ≡ true
      → (window : ℕ) × (o ≡ some window) × (n ≤ window)
  is_some_and-leb n none h = cc
  is_some_and-leb n (some window) h = (window, refl, leb→le n window h)

  context_fits-roomy :
      (m : CatalogModel) (requested : ℕ)
      → context_fits input m ≡ true
      → input.context_tokens ≡ some requested
      → (window : ℕ) × (m.advertised_context ≡ some window) × (requested ≤ window)
  context_fits-roomy m requested h e =
      is_some_and-leb requested m.advertised_context (
        subst (λ o. is_none_or o (λ n. is_some_and m.advertised_context (λ w. leb n w)) ≡ true) e h)

  qualified_for-either :
      (objective : Objective) (all qualified eligible : List CatalogModel)
      → qualified_for objective all qualified ≡ ok eligible
      → (eligible ≡ all) ⊎ (eligible ≡ qualified)
  qualified_for-either Objective.fastest all qualified eligible h = inl (sym (ok-injective _ _ h))
  qualified_for-either Objective.balanced all [] eligible h = inl (sym (ok-injective _ _ h))
  qualified_for-either Objective.balanced all (m ∷ rest) eligible h = inr (sym (ok-injective _ _ h))
  qualified_for-either Objective.quality all [] eligible h = cc
  qualified_for-either Objective.quality all (m ∷ rest) eligible h = inr (sym (ok-injective _ _ h))

  quality-qualified :
      (all qualified eligible : List CatalogModel)
      → qualified_for Objective.quality all qualified ≡ ok eligible
      → eligible ≡ qualified
  quality-qualified all [] eligible h = cc
  quality-qualified all (m ∷ rest) eligible h = sym (ok-injective _ _ h)

  -- `eligible_for_objective` under a given name.
  abbrev pub unless_named :
      List CatalogModel → Option String → Result (List CatalogModel) RouteError
  unless_named candidates name =
      if is_some name
      then ok candidates
      else qualified_for input.objective candidates (retain (is_qualified input) candidates)

  eligible_for_objective-either :
      (candidates eligible : List CatalogModel)
      → eligible_for_objective input candidates ≡ ok eligible
      → (eligible ≡ candidates) ⊎ (eligible ≡ retain (is_qualified input) candidates)
  unfolding eligible_for_objective
  eligible_for_objective-either candidates eligible h = elim (Option-cases input.model) [
    | inl e ↦
        qualified_for-either input.objective candidates _ eligible
          (subst (λ o. unless_named candidates o ≡ ok eligible) e h)
    | inr (name, e) ↦
        inl (sym (ok-injective _ _ (subst (λ o. unless_named candidates o ≡ ok eligible) e h)))
  ]

  eligible_for_objective-quality :
      (candidates eligible : List CatalogModel)
      → input.model ≡ none
      → input.objective ≡ Objective.quality
      → eligible_for_objective input candidates ≡ ok eligible
      → eligible ≡ retain (is_qualified input) candidates
  unfolding eligible_for_objective
  eligible_for_objective-quality candidates eligible e q h =
      quality-qualified candidates _ eligible (
        subst
          (λ o. qualified_for o candidates (retain (is_qualified input) candidates) ≡ ok eligible) q
          (subst (λ o. unless_named candidates o ≡ ok eligible) e h))

  pub eligible-Serves :
      (models eligible : List CatalogModel) (m : CatalogModel)
      → eligible_for_objective input (capability_eligible input models) ≡ ok eligible
      → Member m eligible
      → Member m models × Serves m
  unfolding capability_eligible
  eligible-Serves models eligible m h k =
      let (among, room) = Member-retain (context_fits input) _ m candidate in
      let (stands, capable) = Member-retain (has_capabilities input) models m among in
      (
        stands,
        record {
          capable = is_subset_sound (requirements input) m.capabilities capable;
          roomy = λ requested e. context_fits-roomy m requested room e;
          vouched = λ e q.
              let qualified = eligible_for_objective-quality _ eligible e q h in
              (Member-retain (is_qualified input) (capability_eligible input models) m
                (subst (Member m) qualified k)).1;
        },
      )
    where
      candidate : Member m (capability_eligible input models)
      candidate = elim (eligible_for_objective-either _ eligible h) [
        | inl e ↦ subst (Member m) e k
        | inr e ↦ (Member-retain (is_qualified input) _ m (subst (Member m) e k)).0
      ]
