-- ===== src/Base/Lists.antt =====
-- Vectors: measured and indexed by native numbers, with the searches that the program makes.
use Prim.Native.Nat.{ℕ, zero, suc, ◌+◌, ◌-◌, ◌≤◌, ◌<◌}
use mathlib.Core.Path.{◌≡◌, refl, sym, subst, ap}
use mathlib.Core.Logic.{◌⊎◌, inl, inr}
use mathlib.Core.Bool.{Bool, true, false, not}
use mathlib.Core.List.{List, [], ◌∷◌, ◌++◌, map}
use mathlib.Core.Option.{Option, none, some, some-injective}
use native.Mathlib.Omega.{arith}
use free_llama.Base.Tests.{if◌then◌else◌, Bool-cases}

module _ {ℓ} {A : Type ℓ} where
  abbrev pub length : List A → ℕ
  length [] = 0
  length (x ∷ xs) = suc (length xs)

  abbrev pub get_elem? : List A → ℕ → Option A
  get_elem? [] i = none
  get_elem? (x ∷ xs) zero = some x
  get_elem? (x ∷ xs) (suc i) = get_elem? xs i

  abbrev pub get_or : List A → ℕ → A → A
  get_or [] i d = d
  get_or (x ∷ xs) zero d = x
  get_or (x ∷ xs) (suc i) d = get_or xs i d

  abbrev pub drop : ℕ → List A → List A
  drop zero xs = xs
  drop (suc n) [] = []
  drop (suc n) (x ∷ xs) = drop n xs

  abbrev pub take : ℕ → List A → List A
  take zero xs = []
  take (suc n) [] = []
  take (suc n) (x ∷ xs) = x ∷ take n xs

  -- `Vec::retain`.
  abbrev pub retain : (A → Bool) → List A → List A
  retain p [] = []
  retain p (x ∷ xs) = if p x then x ∷ retain p xs else retain p xs

  -- `Vec::remove`; the program only removes at an index that it has just found.
  abbrev pub remove_at : List A → ℕ → List A
  remove_at [] i = []
  remove_at (x ∷ xs) zero = xs
  remove_at (x ∷ xs) (suc i) = x ∷ remove_at xs i

  abbrev pub next_index : Option (ℕ × A) → Option (ℕ × A)
  next_index none = none
  next_index (some (i, a)) = some (suc i, a)

  -- `iter().enumerate().find(p)`, and `position(p)` with the element that it stands at.
  abbrev pub find_index : (A → Bool) → List A → Option (ℕ × A)
  find_index p [] = none
  find_index p (x ∷ xs) = if p x then some (0, x) else next_index (find_index p xs)

  -- `iter().find(p)`.
  abbrev pub find : (A → Bool) → List A → Option A
  find p [] = none
  find p (x ∷ xs) = if p x then some x else find p xs

  abbrev pub any : (A → Bool) → List A → Bool
  any p [] = false
  any p (x ∷ xs) = if p x then true else any p xs

  -- A predicate at every element, and at some element.
  abbrev pub All {κ} : (A → Type κ) → List A → Type κ
  All P [] = Unit
  All P (x ∷ xs) = P x × All P xs

module _ {A : Type 0} where
  abbrev pub Has : (A → Type 0) → List A → Type 0
  Has P [] = ⊥
  Has P (x ∷ xs) = P x ⊎ Has P xs

module _ {ℓ} {A : Type ℓ} where
  pub length-append : (xs ys : List A) → length (xs ++ ys) ≡ length xs + length ys
  length-append [] ys = omega arith
  length-append (x ∷ xs) ys = omega (arith, length-append xs ys)

  pub length-retain-le : (p : A → Bool) (xs : List A) → length (retain p xs) ≤ length xs
  length-retain-le p [] = omega arith
  length-retain-le p (x ∷ xs) = ground (arith, length-retain-le p xs)

  pub find_index_sound :
      (p : A → Bool) (xs : List A) (i : ℕ) (a : A)
      → find_index p xs ≡ some (i, a)
      → (get_elem? xs i ≡ some a) × (p a ≡ true) × (i < length xs)
  find_index_sound p [] i a e = ground arith
  find_index_sound p (x ∷ xs) zero a e = ground arith
  find_index_sound p (x ∷ xs) (suc i) a e = ground (arith, find_index_sound p xs i a)

  -- Nothing before the index passes the test.
  pub find_index_first :
      (p : A → Bool) (xs : List A) (i : ℕ) (a : A)
      → find_index p xs ≡ some (i, a)
      → All (λ b. p b ≡ false) (take i xs)
  find_index_first p [] i a e = ground arith
  find_index_first p (x ∷ xs) zero a e = tt
  find_index_first p (x ∷ xs) (suc i) a e = ground (arith, find_index_first p xs i a)

  pub find_index-none :
      (p : A → Bool) (xs : List A) → find_index p xs ≡ none → All (λ a. p a ≡ false) xs
  find_index-none p [] e = tt
  find_index-none p (x ∷ xs) e = ground (arith, find_index-none p xs)

  pub find_sound : (p : A → Bool) (xs : List A) (a : A) → find p xs ≡ some a → p a ≡ true
  find_sound p [] a e = cc
  find_sound p (x ∷ xs) a e = ground (arith, find_sound p xs a)

  pub length-remove_at :
      (xs : List A) (i : ℕ) → i < length xs → suc (length (remove_at xs i)) ≡ length xs
  length-remove_at [] i h = elim h [ ]
  length-remove_at (x ∷ xs) zero h = refl
  length-remove_at (x ∷ xs) (suc i) h = omega (arith, length-remove_at xs i (omega arith))

module _ {ℓ κ} {A : Type ℓ} (P : A → Type κ) where
  pub All-append : (xs ys : List A) → All P xs → All P ys → All P (xs ++ ys)
  All-append [] ys hx hy = hy
  All-append (x ∷ xs) ys hx hy = (hx.0, All-append xs ys hx.1 hy)

  pub All-retain : (p : A → Bool) (xs : List A) → All P xs → All P (retain p xs)
  All-retain p [] h = h
  All-retain p (x ∷ xs) h = ground (arith, All-retain p xs h.1)

  pub All-remove_at : (xs : List A) (i : ℕ) → All P xs → All P (remove_at xs i)
  All-remove_at [] i h = h
  All-remove_at (x ∷ xs) zero h = h.1
  All-remove_at (x ∷ xs) (suc i) h = (h.0, All-remove_at xs i h.1)

  pub All-get : (xs : List A) (i : ℕ) (a : A) → All P xs → get_elem? xs i ≡ some a → P a
  All-get [] i a h e = ground arith
  All-get (x ∷ xs) zero a h e = subst P (some-injective _ _ e) h.0
  All-get (x ∷ xs) (suc i) a h e = All-get xs i a h.1 e

module _ {A : Type 0} where
  pub find_index_complete :
      (p : A → Bool) (xs : List A)
      → Has (λ a. p a ≡ true) xs
      → (i : ℕ) × (a : A) × (find_index p xs ≡ some (i, a))
  find_index_complete p [] h = absurd h
  find_index_complete p (x ∷ xs) h = elim (Bool-cases (p x)) [
    | inl e ↦ (0, x, rw e)
    | inr e ↦ let (i, a, f) = find_index_complete p xs (ground arith) in (suc i, a, rw (e, f))
  ]

  pub Has-append_left : (P : A → Type 0) (xs ys : List A) → Has P xs → Has P (xs ++ ys)
  Has-append_left P [] ys h = absurd h
  Has-append_left P (x ∷ xs) ys (inl h) = inl h
  Has-append_left P (x ∷ xs) ys (inr h) = inr (Has-append_left P xs ys h)

  pub Has-append_right : (P : A → Type 0) (xs ys : List A) → Has P ys → Has P (xs ++ ys)
  Has-append_right P [] ys h = h
  Has-append_right P (x ∷ xs) ys h = inr (Has-append_right P xs ys h)

  pub Has-map :
      (P Q : A → Type 0) (f : A → A)
      → ((a : A) → P a → Q (f a))
      → (xs : List A) → Has P xs
      → Has Q (map f xs)
  Has-map P Q f k [] h = absurd h
  Has-map P Q f k (x ∷ xs) (inl h) = inl (k x h)
  Has-map P Q f k (x ∷ xs) (inr h) = inr (Has-map P Q f k xs h)

  pub Has-retain :
      (P : A → Type 0) (p : A → Bool)
      → ((a : A) → P a → p a ≡ true)
      → (xs : List A) → Has P xs
      → Has P (retain p xs)
  Has-retain P p k [] h = absurd h
  Has-retain P p k (x ∷ xs) (inl h) = rw (k x h) (inl h)
  Has-retain P p k (x ∷ xs) (inr h) = elim (Bool-cases (p x)) [
    | inl e ↦ rw e (inr (Has-retain P p k xs h))
    | inr e ↦ rw e (Has-retain P p k xs h)
  ]

  pub Has-get :
      (P : A → Type 0) (xs : List A) (i : ℕ) (a : A) → get_elem? xs i ≡ some a → P a → Has P xs
  Has-get P [] i a e h = cc
  Has-get P (x ∷ xs) zero a e h = inl (subst P (sym (some-injective _ _ e)) h)
  Has-get P (x ∷ xs) (suc i) a e h = inr (Has-get P xs i a e h)

  pub Has-imp : (P Q : A → Type 0) → ((a : A) → P a → Q a) → (xs : List A) → Has P xs → Has Q xs
  Has-imp P Q k [] h = h
  Has-imp P Q k (x ∷ xs) (inl h) = inl (k x h)
  Has-imp P Q k (x ∷ xs) (inr h) = inr (Has-imp P Q k xs h)

  pub get_elem?-map :
      (f : A → A) (xs : List A) (i : ℕ) (a : A)
      → get_elem? xs i ≡ some a
      → get_elem? (map f xs) i ≡ some (f a)
  get_elem?-map f [] i a e = cc
  get_elem?-map f (x ∷ xs) zero a e = ap (λ b. some (f b)) (some-injective _ _ e)
  get_elem?-map f (x ∷ xs) (suc i) a e = get_elem?-map f xs i a e

module _ {ℓ κ μ} {A : Type ℓ} (P : A → Type κ) (Q : A → Type μ) (k : (a : A) → P a → Q a) where
  pub All-imp : (xs : List A) → All P xs → All Q xs
  All-imp [] h = tt
  All-imp (x ∷ xs) h = (k x h.0, All-imp xs h.1)

abbrev pub sum : List ℕ → ℕ
sum [] = 0
sum (x ∷ xs) = x + sum xs

pub length-le-sum : (xs : List ℕ) → All (λ x. 0 < x) xs → length xs ≤ sum xs
length-le-sum [] h = omega arith
length-le-sum (x ∷ xs) h = omega (arith, length-le-sum xs h.1)

pub sum-remove_at :
    (xs : List ℕ) (i x : ℕ) → get_elem? xs i ≡ some x → sum (remove_at xs i) + x ≡ sum xs
sum-remove_at [] i x e = cc
sum-remove_at (y ∷ xs) zero x e = omega (arith, some-injective _ _ e)
sum-remove_at (y ∷ xs) (suc i) x e = omega (arith, sum-remove_at xs i x e)

pub get_elem?-lt {ℓ} :
    {A : Type ℓ} (xs : List A) (i : ℕ) (a : A) → get_elem? xs i ≡ some a → i < length xs
get_elem?-lt [] i a e = cc
get_elem?-lt (x ∷ xs) zero a e = omega arith
get_elem?-lt (x ∷ xs) (suc i) a e = omega (arith, get_elem?-lt xs i a e)

pub length-map {ℓ κ} :
    {A : Type ℓ} {B : Type κ} (xs : List A) (f : A → B) → length (map f xs) ≡ length xs
length-map [] f = refl
length-map (x ∷ xs) f = ap suc (length-map xs f)

-- Where some element passes a test, retaining those that do not removes one at least.
pub length-retain-lt {ℓ} :
    {A : Type ℓ} (p : A → Bool) (xs : List A)
    → any p xs ≡ true
    → length (retain (λ x. not (p x)) xs) < length xs
length-retain-lt p [] h = cc
length-retain-lt p (x ∷ xs) h =
    ground (arith, length-retain-lt p xs, length-retain-le (λ x. not (p x)) xs)

pub get_or-drop {ℓ} :
    {A : Type ℓ} (k : ℕ) (xs : List A) (i : ℕ) (d : A)
    → get_or (drop k xs) i d ≡ get_or xs (k + i) d
get_or-drop zero xs i d = let e : zero + i ≡ i = omega arith in rw e
get_or-drop (suc k) [] i d = refl
get_or-drop (suc k) (x ∷ xs) i d =
    let e : suc k + i ≡ suc (k + i) = omega arith in rw e (get_or-drop k xs i d)

pub length-drop {ℓ} : {A : Type ℓ} (k : ℕ) (xs : List A) → length (drop k xs) ≡ length xs - k
length-drop zero xs = omega arith
length-drop (suc k) [] = omega arith
length-drop (suc k) (x ∷ xs) = omega (arith, length-drop k xs)
