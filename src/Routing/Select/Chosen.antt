-- ===== src/Routing/Select/Chosen.antt =====
-- Which model `select_route` (packages/rust-core/src/platform/routing.rs) answers with: what it is
-- chosen from, that it is eligible, and what an explicit name denotes.
use free_llama.Base.{
  ◌≡◌, ◌∙◌, inl, inr, refl, ap, subst, Bool, true, List, Option, none, some, String, any, Result,
  ok, err, and_then-ok, ok-injective, Bool-cases, arith, Member, Member-Has, Has-Member,
  Option-cases, Has-imp, find-Member, any-Has, Has, max_by-Member, if◌then◌else◌,
}
use text.Mathlib.TextEquality.{eq_iff}
use free_llama.Sessions.{SessionAffinity}
use free_llama.Routing.{RouteInput, CatalogModel, RouteDecision, RouteError}
use free_llama.Routing.Names.Denotes.{installed_model-Denotes}
use free_llama.Routing.Names.{has_name, installed_model}
use free_llama.Routing.Compare.{general_fallback_fit}
use free_llama.Routing.Grade.{affine_name}
use free_llama.Routing.Select.Candidates.{Routed, select_route-Routed, Serves, eligible-Serves}
use free_llama.Routing.Select.{
  affine_model, find_named, filter_model, affine_or_best, some_or, ensure_eligible, choose_for,
  choose, decide, select_route,
}

err≢ok :
    {e : RouteError} {m : CatalogModel} → Path (Result CatalogModel RouteError) (err e) (ok m) → ⊥
err≢ok h = cc

module _ (input : RouteInput) where
  some_or-Member :
      (o : Option CatalogModel) (eligible : List CatalogModel) (m : CatalogModel)
      → ((a : CatalogModel) → o ≡ some a → Member a eligible)
      → some_or o RouteError.none_eligible ≡ ok m
      → Member m eligible
  some_or-Member none eligible m k h = cc
  some_or-Member (some a) eligible m k h =
      subst (λ x. Member x eligible) (ok-injective _ _ h) (k a refl)

  find_named-Member :
      (name : Option String) (eligible : List CatalogModel) (m : CatalogModel)
      → find_named name eligible ≡ some m
      → Member m eligible
  find_named-Member none eligible m h = cc
  find_named-Member (some name) eligible m h = find-Member (has_name name) eligible m h

  filter_model-some :
      (p : CatalogModel → Bool) (o : Option CatalogModel) (m : CatalogModel)
      → filter_model p o ≡ some m
      → (o ≡ some m) × (p m ≡ true)
  filter_model-some p none m h = cc
  filter_model-some p (some a) m h = ground arith

  pub affine_model-Member :
      (sessions : SessionAffinity) (eligible : List CatalogModel) (m : CatalogModel)
      → affine_model input sessions eligible ≡ some m
      → Member m eligible × (general_fallback_fit m input.task ≡ true)
  unfolding affine_model
  affine_model-Member sessions eligible m h =
      let (found, fit) = filter_model-some _ _ m h in
      (find_named-Member (affine_name input sessions) eligible m found, fit)

  affine_or_best-Member :
      (o : Option CatalogModel) (eligible : List CatalogModel) (m : CatalogModel)
      → ((a : CatalogModel) → o ≡ some a → Member a eligible)
      → affine_or_best o input eligible ≡ ok m
      → Member m eligible
  affine_or_best-Member none eligible m k h =
      some_or-Member _ eligible m (λ a e. max_by-Member _ eligible a e) h
  affine_or_best-Member (some a) eligible m k h =
      subst (λ x. Member x eligible) (ok-injective _ _ h) (k a refl)

  ensure_eligible-ok :
      (eligible : List CatalogModel) (a m : CatalogModel)
      → ensure_eligible eligible a ≡ ok m
      → (a ≡ m) × (any (has_name a.name) eligible ≡ true)
  ensure_eligible-ok eligible a m h = elim (Bool-cases (any (has_name a.name) eligible)) [
    | inl e ↦ (
      ok-injective _ _
          (subst (λ b. (if b then ok a else err (RouteError.not_eligible a.name)) ≡ ok m) e h),
      e,
    )
    | inr e ↦ absurd (
        err≢ok (subst (λ b. (if b then ok a else err (RouteError.not_eligible a.name)) ≡ ok m) e h))
  ]

  choose_for-explicit :
      (requested : String) (models : List CatalogModel) (sessions : SessionAffinity)
      (eligible : List CatalogModel) (m : CatalogModel)
      → choose_for (some requested) input models sessions eligible ≡ ok m
      → (installed_model models requested ≡ ok m) × Has (λ x. x.name ≡ m.name) eligible
  choose_for-explicit requested models sessions eligible m h =
      let (a, found, h₁) = and_then-ok _ _ m h in
      let (e, named) = ensure_eligible-ok eligible a m h₁ in
      (
        found ∙ ap ok e,
        subst (λ b. Has (λ x. x.name ≡ b.name) eligible) e
            (Has-imp _ _ (λ x k. (eq_iff x.name a.name).0 k) eligible (any-Has _ eligible named)),
      )

  -- The chosen model's name is that of a candidate, and without an explicit name it is a candidate.
  choose-Has :
      (name : Option String) (models : List CatalogModel) (sessions : SessionAffinity)
      (eligible : List CatalogModel) (m : CatalogModel)
      → choose_for name input models sessions eligible ≡ ok m
      → Has (λ x. x.name ≡ m.name) eligible × (name ≡ none → Member m eligible)
  choose-Has none models sessions eligible m h = (Member-Has _ eligible m k refl, λ e. k)
    where
      k : Member m eligible
      k =
          affine_or_best-Member _ eligible m (λ a e. (affine_model-Member sessions eligible a e).0)
            h
  choose-Has (some requested) models sessions eligible m h =
      ((choose_for-explicit requested models sessions eligible m h).1, λ e. cc)

module _ (input : RouteInput) (models : List CatalogModel) (sessions : SessionAffinity)
    (d : RouteDecision) where
  Routed-Has :
      (r : Routed input models sessions d) → Has (λ x. x.name ≡ d.selected_model) r.eligible
  unfolding choose decide
  Routed-Has r =
      subst (λ name. Has (λ x. x.name ≡ name) r.eligible) (ap (λ x. x.selected_model) r.decided)
        (choose-Has input input.model models sessions r.eligible r.chosen r.choice).0

  -- Where a route is found, some installed model that has the selected name has every required
  -- capability, its advertised context is at least the requested context, and where no model was
  -- named and the objective is quality a policy names it for the task.
  pub select_route-Serves :
      select_route input models sessions ≡ ok d
      → Has (λ m. (m.name ≡ d.selected_model) × Serves input m) models
  select_route-Serves h =
      let r = select_route-Routed input models sessions d h in
      let (m, among, named) = Has-Member _ r.eligible (Routed-Has r) in
      let (stands, serves) = eligible-Serves input models r.eligible m r.candidates among in
      Member-Has _ models m stands (named, serves)

  -- Where a model is named and a route is found, the selected model is the installed one that the
  -- name denotes: no other model takes its place.
  pub select_route-explicit :
      (requested : String)
      → input.model ≡ some requested
      → select_route input models sessions ≡ ok d
      → (m : CatalogModel) × (installed_model models requested ≡ ok m) × (m.name ≡ d.selected_model)
  unfolding choose decide
  select_route-explicit requested e h =
      let r = select_route-Routed input models sessions d h in
      let named =
        subst (λ o. choose_for o input models sessions r.eligible ≡ ok r.chosen) e r.choice in
      (
        r.chosen,
        (choose_for-explicit input requested models sessions r.eligible r.chosen named).0,
        ap (λ x. x.selected_model) r.decided,
      )

  -- The chosen model is installed.
  pub Routed-Member : (r : Routed input models sessions d) → Member r.chosen models
  unfolding choose
  Routed-Member r = elim (Option-cases input.model) [
    | inl e ↦
        let among =
          (choose-Has input input.model models sessions r.eligible r.chosen r.choice).1 e in
        (eligible-Serves input models r.eligible r.chosen r.candidates among).0
    | inr (requested, e) ↦
        let named =
          subst (λ o. choose_for o input models sessions r.eligible ≡ ok r.chosen) e r.choice in
        let found =
          (choose_for-explicit input requested models sessions r.eligible r.chosen named).0 in
        (installed_model-Denotes models requested r.chosen found).0
  ]
