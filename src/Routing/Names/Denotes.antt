-- ===== src/Routing/Names/Denotes.antt =====
-- What a name denotes among the installed models, without the order of the searches
-- (packages/rust-core/src/platform/routing.rs, `installed_model`).
use text.Mathlib.TextEquality.{eq_iff}
use free_llama.Base.{
  ◌≡◌, ◌⊎◌, inl, inr, refl, sym, ap, subst, Bool, true, false, List, [], ◌∷◌, Option, none, some,
  String, find, retain, Result, ok, err, ok-injective, Option-cases, arith, Member, Member-retain,
  retain-Member, find-Member, find_sound, Has, All, if◌then◌else◌,
}
use free_llama.Routing.{CatalogModel, RouteError}
use free_llama.Routing.Names.{
  contains_colon, has_name, latest, in_family, found_or, one_of_family, installed_model,
}

true≢false : {b : Bool} → b ≡ true → b ≡ false → ⊥
true≢false e f = cc

module _ (models : List CatalogModel) (requested : String) where
  -- The exact tag, else the tag `latest`, else the only tag of the family.
  pub data Denotes (m : CatalogModel) : Type 0 where
    exact : m.name ≡ requested → Denotes m
    latest_tag :
        contains_colon requested ≡ false
        → All (λ x. has_name requested x ≡ false) models
        → m.name ≡ latest requested
        → Denotes m
    only_tag :
        contains_colon requested ≡ false
        → All (λ x. has_name requested x ≡ false) models
        → All (λ x. has_name (latest requested) x ≡ false) models
        → in_family requested m ≡ true
        → ((x : CatalogModel) → Member x models → in_family requested x ≡ true → m ≡ x)
        → Denotes m

  find-none :
      (p : CatalogModel → Bool) (xs : List CatalogModel)
      → find p xs ≡ none
      → All (λ x. p x ≡ false) xs
  find-none p [] h = tt
  find-none p (x ∷ xs) h = ground (arith, find-none p xs)

  find-name :
      (name : String) (m : CatalogModel)
      → find (has_name name) models ≡ some m
      → Member m models × (m.name ≡ name)
  find-name name m h = (
    find-Member (has_name name) models m h,
    (eq_iff m.name name).0 (find_sound (has_name name) models m h),
  )

  found_or-ok :
      (o : Option CatalogModel) (r : Result CatalogModel RouteError) (m : CatalogModel)
      → found_or o r ≡ ok m
      → (o ≡ some m) ⊎ ((o ≡ none) × (r ≡ ok m))
  found_or-ok (some a) r m h = inl (ap some (ok-injective _ _ h))
  found_or-ok none r m h = inr (refl, h)

  one_of_family-ok :
      (xs : List CatalogModel) (m : CatalogModel)
      → one_of_family models requested xs ≡ ok m
      → xs ≡ m ∷ []
  one_of_family-ok [] m h = cc
  one_of_family-ok (a ∷ []) m h = ap (λ x. x ∷ []) (ok-injective _ _ h)
  one_of_family-ok (a ∷ b ∷ rest) m h = cc

  colon_branch :
      (b : Bool) (e : RouteError) (r : Result CatalogModel RouteError) (m : CatalogModel)
      → (if b then err e else r) ≡ ok m
      → (b ≡ false) × (r ≡ ok m)
  colon_branch true e r m h = cc
  colon_branch false e r m h = (refl, h)

  only-Member :
      (m x : CatalogModel)
      → retain (in_family requested) models ≡ m ∷ []
      → Member x models
      → in_family requested x ≡ true
      → m ≡ x
  only-Member m x h k e =
      elim (subst (Member x) h (retain-Member (in_family requested) models x k e)) [
        | inl q ↦ q
        | inr q ↦ absurd q
      ]

  latest_or_only :
      (m : CatalogModel)
      → contains_colon requested ≡ false
      → find (has_name requested) models ≡ none
      → found_or
          (find (has_name (latest requested)) models)
          (one_of_family models requested (retain (in_family requested) models))
        ≡ ok m
      → Member m models × Denotes m
  latest_or_only m c e h =
      let unnamed = find-none (has_name requested) models e in
      elim (found_or-ok (find (has_name (latest requested)) models) _ m h) [
        | inl f ↦
            let (k, named) = find-name (latest requested) m f in (k, latest_tag c unnamed named)
        | inr (f, g) ↦
            let alone = one_of_family-ok (retain (in_family requested) models) m g in
            let (k, family) =
              Member-retain (in_family requested) models m
                (subst (Member m) (sym alone) (inl refl)) in
            (
              k,
              only_tag c unnamed (find-none (has_name (latest requested)) models f) family
                  (λ x n q. only-Member m x alone n q),
            )
      ]

  pub installed_model-Denotes :
      (m : CatalogModel) → installed_model models requested ≡ ok m → Member m models × Denotes m
  unfolding installed_model
  installed_model-Denotes m h = elim (found_or-ok (find (has_name requested) models) _ m h) [
    | inl e ↦ let (k, named) = find-name requested m e in (k, exact named)
    | inr (e, h₁) ↦
        let (c, h₂) = colon_branch (contains_colon requested) _ _ m h₁ in latest_or_only m c e h₂
  ]

  no_name :
      (xs : List CatalogModel)
      → Has (λ x. x.name ≡ requested) xs
      → All (λ x. has_name requested x ≡ false) xs
      → ⊥
  no_name [] h k = h
  no_name (x ∷ xs) (inl e) k = true≢false ((eq_iff x.name requested).1 e) k.0
  no_name (x ∷ xs) (inr h) k = no_name xs h k.1

  -- A name that some installed model has exactly is resolved to a model of that name.
  pub installed_model-installed :
      Has (λ x. x.name ≡ requested) models
      → (m : CatalogModel) × (installed_model models requested ≡ ok m) × (m.name ≡ requested)
  unfolding installed_model
  installed_model-installed h = elim (Option-cases (find (has_name requested) models)) [
    | inl e ↦ absurd (no_name models h (find-none (has_name requested) models e))
    | inr (m, e) ↦ (m, rw e refl, (find-name requested m e).1)
  ]
