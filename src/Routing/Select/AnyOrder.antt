-- ===== src/Routing/Select/AnyOrder.antt =====
-- Automatic selection and the order in which the catalog lists its models
-- (packages/rust-core/src/platform/routing.rs, `select_route`).
use free_llama.Base.{
  ◌≡◌, ◌∙◌, refl, sym, subst, ap, Bool, List, [], ◌∷◌, none, retain, Result, ok, ok-injective, inl,
  Member, Member-retain, retain-Member,
}
use free_llama.Sessions.{SessionAffinity}
use free_llama.Routing.{Objective, RouteInput, CatalogModel, RouteDecision, RouteError}
use free_llama.Routing.Select.{
  context_fits, has_capabilities, capability_eligible, is_qualified, qualified_for,
  eligible_for_objective, affine_model, decide, select_route,
}
use free_llama.Routing.Select.Candidates.{select_route-Routed, unless_named}
use free_llama.Routing.Select.Greatest.{Routed-IsGreatest, IsGreatest-name}

-- Every member of the first vector is one of the second.
abbrev pub Within : List CatalogModel → List CatalogModel → Type 0
Within xs ys = (a : CatalogModel) → Member a xs → Member a ys

retain-Within :
    (p : CatalogModel → Bool) (xs ys : List CatalogModel)
    → Within xs ys
    → Within (retain p xs) (retain p ys)
retain-Within p xs ys w a m = let (k, h) = Member-retain p xs a m in retain-Member p ys a (w a k) h

pub capability_eligible-Within :
    (input : RouteInput) (xs ys : List CatalogModel)
    → Within xs ys
    → Within (capability_eligible input xs) (capability_eligible input ys)
unfolding capability_eligible
capability_eligible-Within input xs ys w =
    retain-Within (context_fits input) _ _ (retain-Within (has_capabilities input) xs ys w)

carried :
    (xs ys es fs : List CatalogModel)
    → Within xs ys
    → Path (Result (List CatalogModel) RouteError) (ok xs) (ok es)
    → Path (Result (List CatalogModel) RouteError) (ok ys) (ok fs)
    → Within es fs
carried xs ys es fs w h k a m =
    subst (Member a) (ok-injective _ _ k) (w a (subst (Member a) (sym (ok-injective _ _ h)) m))

qualified_for-Within :
    (objective : Objective) (xs ys qs rs es fs : List CatalogModel)
    → Within xs ys
    → Within qs rs
    → Within rs qs
    → qualified_for objective xs qs ≡ ok es
    → qualified_for objective ys rs ≡ ok fs
    → Within es fs
qualified_for-Within Objective.fastest xs ys qs rs es fs w v u h k = carried xs ys es fs w h k
qualified_for-Within Objective.balanced xs ys [] [] es fs w v u h k = carried xs ys es fs w h k
qualified_for-Within Objective.balanced xs ys [] (r ∷ rs) es fs w v u h k = absurd (u r (inl refl))
qualified_for-Within Objective.balanced xs ys (q ∷ qs) [] es fs w v u h k = absurd (v q (inl refl))
qualified_for-Within Objective.balanced xs ys (q ∷ qs) (r ∷ rs) es fs w v u h k =
    carried (q ∷ qs) (r ∷ rs) es fs v h k
qualified_for-Within Objective.quality xs ys [] rs es fs w v u h k = cc
qualified_for-Within Objective.quality xs ys (q ∷ qs) [] es fs w v u h k = cc
qualified_for-Within Objective.quality xs ys (q ∷ qs) (r ∷ rs) es fs w v u h k =
    carried (q ∷ qs) (r ∷ rs) es fs v h k

module _ (input : RouteInput) (no_name : input.model ≡ none) where
  eligible_for_objective-none :
      (candidates eligible : List CatalogModel)
      → eligible_for_objective input candidates ≡ ok eligible
      → qualified_for input.objective candidates (retain (is_qualified input) candidates)
        ≡ ok eligible
  unfolding eligible_for_objective
  eligible_for_objective-none candidates eligible h =
      subst (λ o. unless_named input candidates o ≡ ok eligible) no_name h

  eligible-Within :
      (xs ys es fs : List CatalogModel)
      → Within xs ys
      → Within ys xs
      → eligible_for_objective input (capability_eligible input xs) ≡ ok es
      → eligible_for_objective input (capability_eligible input ys) ≡ ok fs
      → Within es fs
  eligible-Within xs ys es fs w v h k =
      let there = capability_eligible-Within input xs ys w in
      let back = capability_eligible-Within input ys xs v in
      qualified_for-Within input.objective (capability_eligible input xs)
        (capability_eligible input ys) _ _ es fs there
        (retain-Within (is_qualified input) _ _ there) (retain-Within (is_qualified input) _ _ back)
        (eligible_for_objective-none _ es h) (eligible_for_objective-none _ fs k)

  affine_model-none :
      (sessions : SessionAffinity) (eligible : List CatalogModel)
      → input.session_id ≡ none
      → affine_model input sessions eligible ≡ none
  unfolding affine_model
  affine_model-none sessions eligible e = rw e refl

  -- Where neither a model nor a session is named, routes over two catalogs that list the same
  -- models in any order and number select the same model, whatever the sessions are.
  pub select_route-Within :
      (xs ys : List CatalogModel) (s t : SessionAffinity) (c d : RouteDecision)
      → input.session_id ≡ none
      → Within xs ys
      → Within ys xs
      → select_route input xs s ≡ ok c
      → select_route input ys t ≡ ok d
      → c.selected_model ≡ d.selected_model
  unfolding decide
  select_route-Within xs ys s t c d e w v h k =
      let p = select_route-Routed input xs s c h in
      let q = select_route-Routed input ys t d k in
      let first = Routed-IsGreatest input xs s c p no_name (affine_model-none s p.eligible e) in
      let second = Routed-IsGreatest input ys t d q no_name (affine_model-none t q.eligible e) in
      let there = eligible-Within xs ys p.eligible q.eligible w v p.candidates q.candidates in
      let back = eligible-Within ys xs q.eligible p.eligible v w q.candidates p.candidates in
      sym (ap (λ x. x.selected_model) p.decided)
      ∙ IsGreatest-name input p.eligible q.eligible p.chosen q.chosen first second
          (there p.chosen first.0) (back q.chosen second.0)
      ∙ ap (λ x. x.selected_model) q.decided
