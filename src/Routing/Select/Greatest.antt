-- ===== src/Routing/Select/Greatest.antt =====
-- Automatic selection (packages/rust-core/src/platform/routing.rs, `select_route`) against
-- the preferences between its candidates.
use Prim.Native.Nat.{Ordering, compare}
use Prim.Native.String.{compare as compare_text}
use text.Mathlib.TextEquality.{path_by_compare}
use free_llama.Base.{
  ◌≡◌, ◌≢◌, ◌∙◌, ◌⊎◌, inl, inr, refl, sym, ap, subst, Bool, true, false, List, Option, none, some,
  is_some, ok, ok-injective, then_with, compare_bool, Lawful-eq, Bool-cases, Member, All, All-imp,
  All-Member, max_by, max_by-Member, max_by-greatest,
}
use free_llama.Sessions.{SessionAffinity}
use free_llama.Routing.{Objective, RouteInput, CatalogModel, RouteDecision, RouteError}
use free_llama.Routing.Compare.{
  general_fallback_fit, fit_first, score, total_cmp, unwrap_or, policy_preference, compare_for,
  compare_candidates,
}
use free_llama.Routing.Compare.Preference.{compare_candidates-Lawful}
use free_llama.Routing.Select.{
  capability_eligible, eligible_for_objective, affine_model, affine_or_best, some_or, choose_for,
  choose, decide, select_route,
}
use free_llama.Routing.Select.Candidates.{Routed, select_route-Routed}

true≢false : true ≢ false
true≢false e = cc

is_false : (b : Bool) → (b ≡ true → ⊥) → b ≡ false
is_false true h = absurd (h refl)
is_false false h = refl

module _ (input : RouteInput) where
  -- Nothing among the candidates is preferred to the model.
  abbrev pub IsGreatest : List CatalogModel → CatalogModel → Type 0
  IsGreatest eligible m =
      Member m eligible × All (λ x. compare_candidates x m input ≢ Ordering.gt) eligible

  some_or-some :
      (o : Option CatalogModel) (m : CatalogModel)
      → some_or o RouteError.none_eligible ≡ ok m
      → o ≡ some m
  some_or-some none m h = cc
  some_or-some (some a) m h = ap some (ok-injective _ _ h)

  max_by-IsGreatest :
      (eligible : List CatalogModel) (m : CatalogModel)
      → affine_or_best none input eligible ≡ ok m
      → IsGreatest eligible m
  max_by-IsGreatest eligible m h =
      let cmp : CatalogModel → CatalogModel → Ordering =
        λ left right. compare_candidates left right input in
      let e = some_or-some (max_by cmp eligible) m h in
      (
        max_by-Member cmp eligible m e,
        max_by-greatest cmp (compare_candidates-Lawful input) eligible m e,
      )

  pub Routed-IsGreatest :
      (models : List CatalogModel) (sessions : SessionAffinity) (d : RouteDecision)
      (r : Routed input models sessions d)
      → input.model ≡ none
      → affine_model input sessions r.eligible ≡ none
      → IsGreatest r.eligible r.chosen
  unfolding choose
  Routed-IsGreatest models sessions d r e f = max_by-IsGreatest r.eligible r.chosen (
      subst (λ o. affine_or_best o input r.eligible ≡ ok r.chosen) f
        (subst (λ o. choose_for o input models sessions r.eligible ≡ ok r.chosen) e r.choice))

  last_equal : (o p : Ordering) → then_with o p ≡ Ordering.eq → p ≡ Ordering.eq
  last_equal Ordering.lt p h = cc
  last_equal Ordering.eq p h = h
  last_equal Ordering.gt p h = cc

  abbrev by_score : CatalogModel → CatalogModel → Ordering
  by_score a b = total_cmp (unwrap_or (score a input.task) 0) (unwrap_or (score b input.task) 0)

  compare_for-eq :
      (objective : Objective) (a b : CatalogModel)
      → compare_for objective input.task a b ≡ Ordering.eq
      → compare_text b.name a.name ≡ Ordering.eq
  compare_for-eq Objective.fastest a b h =
      last_equal (compare b.size a.size) _
        (last_equal (by_score a b) _ (last_equal (fit_first a b input.task) _ h))
  compare_for-eq Objective.balanced a b h = last_equal (policy_preference a b input.task) _ (
      last_equal (by_score a b) _ (
        last_equal (compare_bool a.resident b.resident) _ (
          last_equal (compare_bool (is_some (score a input.task)) (is_some (score b input.task))) _
            (last_equal (fit_first a b input.task) _ h))))
  compare_for-eq Objective.quality a b h = last_equal (policy_preference a b input.task) _ h

  -- Two greatest models of vectors with the same members have the same name.
  pub IsGreatest-name :
      (xs ys : List CatalogModel) (a b : CatalogModel)
      → IsGreatest xs a
      → IsGreatest ys b
      → Member a ys
      → Member b xs
      → a.name ≡ b.name
  unfolding compare_candidates
  IsGreatest-name xs ys a b ha hb ma mb = sym (
      path_by_compare b.name a.name (
        compare_for-eq input.objective a b (
          Lawful-eq _ (compare_candidates-Lawful input) a b (All-Member _ ys a hb.1 ma)
            (All-Member _ xs b ha.1 mb))))

  fit_not_gt :
      (o : Ordering) (a b : Bool)
      → then_with (compare_bool a b) o ≢ Ordering.gt
      → a ≡ true
      → b ≡ true
  fit_not_gt o true true h e = refl
  fit_not_gt o true false h e = absurd (h refl)
  fit_not_gt o false b h e = cc

  compare_for-fit :
      (objective : Objective) (a b : CatalogModel)
      → objective ≢ Objective.quality
      → compare_for objective input.task a b ≢ Ordering.gt
      → general_fallback_fit a input.task ≡ true
      → general_fallback_fit b input.task ≡ true
  compare_for-fit Objective.fastest a b q h e =
      fit_not_gt _ (general_fallback_fit a input.task) (general_fallback_fit b input.task) h e
  compare_for-fit Objective.balanced a b q h e =
      fit_not_gt _ (general_fallback_fit a input.task) (general_fallback_fit b input.task) h e
  compare_for-fit Objective.quality a b q h e = absurd (q refl)

module _ (input : RouteInput) (models : List CatalogModel) (sessions : SessionAffinity)
    (d : RouteDecision) (eligible : List CatalogModel) where
  -- Where no model is named, the session has no eligible model and a route is found, the selected
  -- model is a candidate to which no other candidate is preferred.
  pub select_route-IsGreatest :
      input.model ≡ none
      → eligible_for_objective input (capability_eligible input models) ≡ ok eligible
      → affine_model input sessions eligible ≡ none
      → select_route input models sessions ≡ ok d
      → (m : CatalogModel) × IsGreatest input eligible m × (m.name ≡ d.selected_model)
  unfolding decide
  select_route-IsGreatest e c f h =
      let r = select_route-Routed input models sessions d h in
      let same = ok-injective _ _ (sym c ∙ r.candidates) in
      (
        r.chosen,
        subst (λ xs. IsGreatest input xs r.chosen) (sym same)
            (Routed-IsGreatest input models sessions d r e
              (subst (λ xs. affine_model input sessions xs ≡ none) same f)),
        ap (λ x. x.selected_model) r.decided,
      )

  -- Where no model is named, the session has no eligible model, the objective is not quality and a
  -- route is found, either the selected candidate is fit for automatic selection, so that it does
  -- not keep looping on the task or a policy names it, or no candidate is.
  select_route-last_resort :
      input.model ≡ none
      → input.objective ≢ Objective.quality
      → eligible_for_objective input (capability_eligible input models) ≡ ok eligible
      → affine_model input sessions eligible ≡ none
      → select_route input models sessions ≡ ok d
      → (m : CatalogModel) × (m.name ≡ d.selected_model)
        × Member m eligible
        × ((general_fallback_fit m input.task ≡ true)
            ⊎ All (λ x. general_fallback_fit x input.task ≡ false) eligible)
  unfolding compare_candidates
  select_route-last_resort e q c f h =
      let (m, (member, greatest), named) = select_route-IsGreatest e c f h in
      (
        m,
        named,
        member,
        elim (Bool-cases (general_fallback_fit m input.task)) [
          | inl fit ↦ inl fit
          | inr unfit ↦ inr (
              All-imp _ _
                (λ x k. is_false _ (λ fit.
                  true≢false (sym (compare_for-fit input input.objective x m q k fit) ∙ unfit)))
                eligible greatest)
        ],
      )
