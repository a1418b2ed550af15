-- ===== src/Base/Maximum.antt =====
-- `Iterator::max_by` under a lawful comparison, and membership in a vector.
use Prim.Native.Nat.{Ordering}
use mathlib.Core.Path.{◌≡◌, ◌∙◌, ap, refl, sym, subst}
use mathlib.Core.Logic.{◌≢◌, ◌⊎◌, inl, inr}
use mathlib.Core.Bool.{Bool, true}
use mathlib.Core.List.{List, [], ◌∷◌}
use mathlib.Core.Option.{some, some-injective}
use free_llama.Base.Tests.{Bool-cases, if◌then◌else◌}
use free_llama.Base.Lists.{Has, All, find, any, retain}
use free_llama.Base.Order.{
  Lawful, Lawful-refl, Lawful-total, Lawful-trans, max_by, max_from, later_max,
}

module _ {A : Type 0} where
  -- The element `a` stands in the vector.
  abbrev pub Member : A → List A → Type 0
  Member a xs = Has (λ x. x ≡ a) xs

  pub All-Member : (P : A → Type 0) (xs : List A) (a : A) → All P xs → Member a xs → P a
  All-Member P [] a h m = absurd m
  All-Member P (x ∷ xs) a h (inl e) = subst P e h.0
  All-Member P (x ∷ xs) a h (inr m) = All-Member P xs a h.1 m

  pub Member-Has : (P : A → Type 0) (xs : List A) (a : A) → Member a xs → P a → Has P xs
  Member-Has P [] a m h = absurd m
  Member-Has P (x ∷ xs) a (inl e) h = inl (subst P (sym e) h)
  Member-Has P (x ∷ xs) a (inr m) h = inr (Member-Has P xs a m h)

  pub Has-Member : (P : A → Type 0) (xs : List A) → Has P xs → (a : A) × Member a xs × P a
  Has-Member P [] h = absurd h
  Has-Member P (x ∷ xs) (inl h) = (x, inl refl, h)
  Has-Member P (x ∷ xs) (inr h) = let (a, m, k) = Has-Member P xs h in (a, inr m, k)

  retained :
      (p : A → Bool) (x : A) (xs ys : List A) (a : A)
      → p x ≡ true
      → (Member a ys → Member a xs × (p a ≡ true))
      → Member a (x ∷ ys)
      → Member a (x ∷ xs) × (p a ≡ true)
  retained p x xs ys a e f (inl q) = (inl q, subst (λ z. p z ≡ true) q e)
  retained p x xs ys a e f (inr m) = let (k, h) = f m in (inr k, h)

  -- The members of what is retained.
  pub Member-retain :
      (p : A → Bool) (xs : List A) (a : A) → Member a (retain p xs) → Member a xs × (p a ≡ true)
  Member-retain p [] a m = absurd m
  Member-retain p (x ∷ xs) a m = elim (Bool-cases (p x)) [
    | inl e ↦
        retained p x xs (retain p xs) a e (Member-retain p xs a)
          (subst (λ b. Member a (if b then x ∷ retain p xs else retain p xs)) e m)
    | inr e ↦
        let rest = subst (λ b. Member a (if b then x ∷ retain p xs else retain p xs)) e m in
        let (k, h) = Member-retain p xs a rest in (inr k, h)
  ]

  pub retain-Member :
      (p : A → Bool) (xs : List A) (a : A) → Member a xs → p a ≡ true → Member a (retain p xs)
  retain-Member p [] a m h = m
  retain-Member p (x ∷ xs) a (inl e) h = rw (ap p e ∙ h) (inl e)
  retain-Member p (x ∷ xs) a (inr m) h = elim (Bool-cases (p x)) [
    | inl e ↦ rw e (inr (retain-Member p xs a m h))
    | inr e ↦ rw e (retain-Member p xs a m h)
  ]

  pub find-Member : (p : A → Bool) (xs : List A) (a : A) → find p xs ≡ some a → Member a xs
  find-Member p [] a h = cc
  find-Member p (x ∷ xs) a h = elim (Bool-cases (p x)) [
    | inl e ↦ inl (some-injective _ _ (subst (λ b. (if b then some x else find p xs) ≡ some a) e h))
    | inr e ↦ inr (find-Member p xs a (subst (λ b. (if b then some x else find p xs) ≡ some a) e h))
  ]

  pub any-Has : (p : A → Bool) (xs : List A) → any p xs ≡ true → Has (λ x. p x ≡ true) xs
  any-Has p [] h = cc
  any-Has p (x ∷ xs) h = elim (Bool-cases (p x)) [
    | inl e ↦ inl e
    | inr e ↦ inr (any-Has p xs (subst (λ b. (if b then true else any p xs) ≡ true) e h))
  ]

module _ {A : Type 0} (cmp : A → A → Ordering) (lawful : Lawful cmp) where
  not_gt_refl : (x : A) → cmp x x ≢ Ordering.gt
  not_gt_refl x e = cc (Lawful-refl cmp lawful x)

  later_max-greatest :
      (x y : A) (o : Ordering)
      → cmp x y ≡ o
      → (cmp x (later_max cmp o x y) ≢ Ordering.gt) × (cmp y (later_max cmp o x y) ≢ Ordering.gt)
  later_max-greatest x y Ordering.gt e = (not_gt_refl x, Lawful-total cmp lawful x y e)
  later_max-greatest x y Ordering.eq e = (λ k. cc, not_gt_refl y)
  later_max-greatest x y Ordering.lt e = (λ k. cc, not_gt_refl y)

  max_from-greatest :
      (x : A) (xs : List A)
      → (cmp x (max_from cmp x xs) ≢ Ordering.gt)
        × All (λ y. cmp y (max_from cmp x xs) ≢ Ordering.gt) xs
  max_from-greatest x [] = (not_gt_refl x, tt)
  max_from-greatest x (y ∷ ys) =
      let later = later_max cmp (cmp x y) x y in
      let (below, others) = max_from-greatest later ys in
      let (hx, hy) = later_max-greatest x y (cmp x y) refl in
      (
        Lawful-trans cmp lawful x later (max_from cmp later ys) hx below,
        (Lawful-trans cmp lawful y later (max_from cmp later ys) hy below, others),
      )

  -- Nothing in the vector is greater than what `max_by` returns.
  pub max_by-greatest :
      (xs : List A) (a : A) → max_by cmp xs ≡ some a → All (λ x. cmp x a ≢ Ordering.gt) xs
  max_by-greatest [] a e = tt
  max_by-greatest (x ∷ xs) a e =
      let (first, others) = max_from-greatest x xs in
      subst (λ b. All (λ y. cmp y b ≢ Ordering.gt) (x ∷ xs)) (some-injective _ _ e) (first, others)

module _ {A : Type 0} (cmp : A → A → Ordering) where
  later_max-Member :
      (x y : A) (ys : List A) (o : Ordering) (a : A)
      → (a ≡ later_max cmp o x y) ⊎ Member a ys
      → Member a (x ∷ y ∷ ys)
  later_max-Member x y ys Ordering.gt a (inl e) = inl (sym e)
  later_max-Member x y ys Ordering.eq a (inl e) = inr (inl (sym e))
  later_max-Member x y ys Ordering.lt a (inl e) = inr (inl (sym e))
  later_max-Member x y ys o a (inr m) = inr (inr m)

  max_from-Member : (x : A) (xs : List A) → Member (max_from cmp x xs) (x ∷ xs)
  max_from-Member x [] = inl refl
  max_from-Member x (y ∷ ys) =
      let later = later_max cmp (cmp x y) x y in
      later_max-Member x y ys (cmp x y) (max_from cmp later ys)
        (elim (max_from-Member later ys) [ inl e ↦ inl (sym e) | inr m ↦ inr m ])

  pub max_by-Member : (xs : List A) (a : A) → max_by cmp xs ≡ some a → Member a xs
  max_by-Member [] a e = cc
  max_by-Member (x ∷ xs) a e =
      subst (λ b. Member b (x ∷ xs)) (some-injective _ _ e) (max_from-Member x xs)
