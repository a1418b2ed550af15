-- ===== src/Base/Order.antt =====
-- `std::cmp::Ordering` and comparisons: what a three-way comparison promises, and that comparing
-- numbers, texts and Booleans, by a key, and one after another (`then_with`) keep it.
use Prim.Native.Nat.{Ordering, compare as compare_ℕ}
use Prim.Native.Char.{code}
use Prim.Native.String.compare as compare_text
use Prim.Native.String.{String, [], ◌∷◌, compare as compare_text}
pub use Prim.Native.String.{then as then_with}
use mathlib.Core.Path.{◌≡◌, ◌∙◌, ap, refl, sym}
use mathlib.Core.Logic.{◌≢◌}
use mathlib.Core.Bool.{Bool, true, false}
use mathlib.Core.List.{List, [], ◌∷◌}
use mathlib.Core.Option.{Option, none, some}
use native.Mathlib.Omega.{arith}

abbrev pub reverse : Ordering → Ordering
reverse Ordering.lt = Ordering.gt
reverse Ordering.eq = Ordering.eq
reverse Ordering.gt = Ordering.lt

-- `bool::cmp`, where false is below true.
abbrev pub compare_bool : Bool → Bool → Ordering
compare_bool true true = Ordering.eq
compare_bool true false = Ordering.gt
compare_bool false true = Ordering.lt
compare_bool false false = Ordering.eq

-- A comparison is lawful where it answers the reverse with its arguments swapped, and where two
-- answers that are not `gt` combine to the answer at the ends.
pub record Lawful {ℓ} {A : Type ℓ} (cmp : A → A → Ordering) : Type ℓ where
  pub swap : (a b : A) → cmp b a ≡ reverse (cmp a b)
  pub combine :
      (a b c : A)
      → cmp a b ≢ Ordering.gt
      → cmp b c ≢ Ordering.gt
      → cmp a c ≡ then_with (cmp a b) (cmp b c)

module _ {ℓ} {A : Type ℓ} (cmp : A → A → Ordering) where
  -- The answer of `max_by` for two elements: the later one, unless the earlier one is greater.
  abbrev pub later_max : Ordering → A → A → A
  later_max Ordering.gt x y = x
  later_max Ordering.eq x y = y
  later_max Ordering.lt x y = y

  abbrev pub max_from : A → List A → A
  max_from x [] = x
  max_from x (y ∷ ys) = max_from (later_max (cmp x y) x y) ys

  -- `Iterator::max_by`.
  abbrev pub max_by : List A → Option A
  max_by [] = none
  max_by (x ∷ xs) = some (max_from x xs)

pub compare_ℕ-Lawful : Lawful compare_ℕ
compare_ℕ-Lawful = record { swap = λ a b. ground arith; combine = λ a b c h k. ground arith }

compare_bool-swap : (a b : Bool) → compare_bool b a ≡ reverse (compare_bool a b)
compare_bool-swap true true = refl
compare_bool-swap true false = refl
compare_bool-swap false true = refl
compare_bool-swap false false = refl

compare_bool-combine :
    (a b c : Bool)
    → compare_bool a b ≢ Ordering.gt
    → compare_bool b c ≢ Ordering.gt
    → compare_bool a c ≡ then_with (compare_bool a b) (compare_bool b c)
compare_bool-combine true true c h k = refl
compare_bool-combine true false c h k = absurd (h refl)
compare_bool-combine false true true h k = refl
compare_bool-combine false true false h k = absurd (k refl)
compare_bool-combine false false c h k = refl

pub compare_bool-Lawful : Lawful compare_bool
compare_bool-Lawful = record { swap = compare_bool-swap; combine = compare_bool-combine }

then_with-reverse : (o p : Ordering) → then_with (reverse o) (reverse p) ≡ reverse (then_with o p)
then_with-reverse Ordering.lt p = refl
then_with-reverse Ordering.eq p = refl
then_with-reverse Ordering.gt p = refl

not_gt-then_with : (o p : Ordering) → then_with o p ≢ Ordering.gt → o ≢ Ordering.gt
not_gt-then_with Ordering.lt p h = h
not_gt-then_with Ordering.eq p h = λ e. cc
not_gt-then_with Ordering.gt p h = h

-- Two lexicographic answers combine where those of their parts do.
then_with-combine :
    (o₁ o₂ o₃ p₁ p₂ p₃ : Ordering)
    → (o₁ ≢ Ordering.gt → o₂ ≢ Ordering.gt → o₃ ≡ then_with o₁ o₂)
    → (p₁ ≢ Ordering.gt → p₂ ≢ Ordering.gt → p₃ ≡ then_with p₁ p₂)
    → then_with o₁ p₁ ≢ Ordering.gt
    → then_with o₂ p₂ ≢ Ordering.gt
    → then_with o₃ p₃ ≡ then_with (then_with o₁ p₁) (then_with o₂ p₂)
then_with-combine Ordering.lt o₂ o₃ p₁ p₂ p₃ f g h k = rw (f h (not_gt-then_with o₂ p₂ k)) refl
then_with-combine Ordering.eq Ordering.lt o₃ Ordering.lt p₂ p₃ f g h k =
    rw (f (λ e. cc) (λ e. cc)) refl
then_with-combine Ordering.eq Ordering.lt o₃ Ordering.eq p₂ p₃ f g h k =
    rw (f (λ e. cc) (λ e. cc)) refl
then_with-combine Ordering.eq Ordering.lt o₃ Ordering.gt p₂ p₃ f g h k = absurd (h refl)
then_with-combine Ordering.eq Ordering.eq o₃ p₁ p₂ p₃ f g h k = rw (f (λ e. cc) (λ e. cc)) (g h k)
then_with-combine Ordering.eq Ordering.gt o₃ p₁ p₂ p₃ f g h k = absurd (k refl)
then_with-combine Ordering.gt o₂ o₃ p₁ p₂ p₃ f g h k = absurd (h refl)

then_with-eq : (o : Ordering) → o ≡ then_with o Ordering.eq
then_with-eq Ordering.lt = refl
then_with-eq Ordering.eq = refl
then_with-eq Ordering.gt = refl

reverse-fixed : (o : Ordering) → o ≡ reverse o → o ≡ Ordering.eq
reverse-fixed Ordering.lt e = cc
reverse-fixed Ordering.eq e = refl
reverse-fixed Ordering.gt e = cc

not_gt_both : (o p : Ordering) → o ≢ Ordering.gt → p ≢ Ordering.gt → then_with o p ≢ Ordering.gt
not_gt_both Ordering.lt p h k = h
not_gt_both Ordering.eq p h k = k
not_gt_both Ordering.gt p h k = h

between : (o : Ordering) → o ≢ Ordering.gt → reverse o ≢ Ordering.gt → o ≡ Ordering.eq
between Ordering.lt h k = absurd (k refl)
between Ordering.eq h k = refl
between Ordering.gt h k = absurd (h refl)

module _ {ℓ} {A : Type ℓ} (f g : A → A → Ordering) (hf : Lawful f) (hg : Lawful g) where
  pub then_with-Lawful : Lawful (λ a b. then_with (f a b) (g a b))
  then_with-Lawful = record {
    swap = λ a b. rw (hf.swap a b, hg.swap a b) (then_with-reverse (f a b) (g a b));
    combine = λ a b c.
        then_with-combine (f a b) (f b c) (f a c) (g a b) (g b c) (g a c) (hf.combine a b c)
          (hg.combine a b c);
  }

module _ {ℓ κ} {A : Type ℓ} {B : Type κ} (key : B → A) (f : A → A → Ordering) (hf : Lawful f) where
  -- Comparing by a key.
  pub key-Lawful : Lawful (λ a b. f (key a) (key b))
  key-Lawful = record {
    swap = λ a b. hf.swap (key a) (key b);
    combine = λ a b c. hf.combine (key a) (key b) (key c);
  }

then_with_comm :
    (o p : Ordering) → o ≢ Ordering.gt → p ≢ Ordering.gt → then_with o p ≡ then_with p o
then_with_comm Ordering.lt Ordering.lt h k = refl
then_with_comm Ordering.lt Ordering.eq h k = refl
then_with_comm Ordering.eq p h k = then_with-eq p
then_with_comm Ordering.gt p h k = absurd (h refl)
then_with_comm o Ordering.gt h k = absurd (k refl)

module _ {ℓ} {A : Type ℓ} (f : A → A → Ordering) (hf : Lawful f) where
  -- The other order.
  pub flip-Lawful : Lawful (λ a b. f b a)
  flip-Lawful = record {
    swap = λ a b. hf.swap b a;
    combine = λ a b c h k. hf.combine c b a k h ∙ then_with_comm (f c b) (f b a) k h;
  }

  pub Lawful-refl : (a : A) → f a a ≡ Ordering.eq
  Lawful-refl a = reverse-fixed (f a a) (hf.swap a a)

  -- One of the two answers is not `gt`.
  pub Lawful-total : (a b : A) → f a b ≡ Ordering.gt → f b a ≢ Ordering.gt
  Lawful-total a b e k = cc (hf.swap a b)

  pub Lawful-trans : (a b c : A) → f a b ≢ Ordering.gt → f b c ≢ Ordering.gt → f a c ≢ Ordering.gt
  Lawful-trans a b c h k e = not_gt_both (f a b) (f b c) h k (sym (hf.combine a b c h k) ∙ e)

  pub Lawful-eq : (a b : A) → f a b ≢ Ordering.gt → f b a ≢ Ordering.gt → f a b ≡ Ordering.eq
  Lawful-eq a b h k = between (f a b) h (λ e. k (hf.swap a b ∙ e))

compare_text-swap : (s t : String) → compare_text t s ≡ reverse (compare_text s t)
compare_text-swap [] [] = rw compare_text.nil-nil refl
compare_text-swap [] (d ∷ t) = rw (compare_text.nil-cons d t, compare_text.cons-nil d t) refl
compare_text-swap (c ∷ s) [] = rw (compare_text.nil-cons c s, compare_text.cons-nil c s) refl
compare_text-swap (c ∷ s) (d ∷ t) =
    rw
      (
        compare_text.cons-cons c d s t,
        compare_text.cons-cons d c t s,
        compare_ℕ-Lawful.swap (code c) (code d),
        compare_text-swap s t,
      )
      (then_with-reverse (compare_ℕ (code c) (code d)) (compare_text s t))

compare_text-combine :
    (s t u : String)
    → compare_text s t ≢ Ordering.gt
    → compare_text t u ≢ Ordering.gt
    → compare_text s u ≡ then_with (compare_text s t) (compare_text t u)
compare_text-combine [] [] u h k =
    ap (λ o. then_with o (compare_text [] u)) (sym compare_text.nil-nil)
compare_text-combine [] (d ∷ t) [] h k = absurd (k (compare_text.cons-nil d t))
compare_text-combine [] (d ∷ t) (e ∷ u) h k =
    rw (compare_text.nil-cons e u, compare_text.nil-cons d t) refl
compare_text-combine (c ∷ s) [] u h k = absurd (h (compare_text.cons-nil c s))
compare_text-combine (c ∷ s) (d ∷ t) [] h k = absurd (k (compare_text.cons-nil d t))
compare_text-combine (c ∷ s) (d ∷ t) (e ∷ u) h k =
    rw
      (
        compare_text.cons-cons c d s t,
        compare_text.cons-cons d e t u,
        compare_text.cons-cons c e s u,
      )
      (then_with-combine (compare_ℕ (code c) (code d)) (compare_ℕ (code d) (code e))
        (compare_ℕ (code c) (code e)) (compare_text s t) (compare_text t u) (compare_text s u)
        (compare_ℕ-Lawful.combine (code c) (code d) (code e)) (compare_text-combine s t u)
        (λ q. h (compare_text.cons-cons c d s t ∙ q)) (λ q. k (compare_text.cons-cons d e t u ∙ q)))

pub compare_text-Lawful : Lawful compare_text
compare_text-Lawful = record { swap = compare_text-swap; combine = compare_text-combine }
