-- ===== src/Scopes/Append/Changes.antt =====
-- The changes that the store's parts make to the entries, and how they combine
-- (packages/rust-core/src/platform/scopes.rs).
use text.Mathlib.TextEquality.{eq_iff}
use free_llama.Base.{
  ℕ, ◌≡◌, ◌∙◌, refl, sym, subst, inl, inr, Bool, true, false, none, some, some-injective, String,
  same_text, Bool-cases, lookup, insert, remove, lookup-insert, lookup-remove, not, if◌then◌else◌,
}
use free_llama.Scopes.{ScopePolicy}
use free_llama.Scopes.Store.{History, Entries, prune, is_fresh}
use free_llama.Scopes.Append.{
  Grows, Grows-trans, Free, From, Change, kept, changed, new, nothing_new, Unique,
  lookup-retain-none, lookup-retain, retain-Unique,
}

module _ (n : ℕ) (created : String → Bool) where
  pub Change-refl : (es : Entries) → Change n created es es
  Change-refl es id k e = kept e

  From-then :
      (es fs : Entries) (id : String) (k : History)
      → Change n created es fs
      → From n nothing_new fs id k
      → From n created es id k
  From-then es fs id k c (kept e) = c id k e
  From-then es fs id k c (changed h e g f) = elim (c id h e) [
    | kept e₁ ↦ changed h e₁ g f
    | changed h₁ e₁ g₁ f₁ ↦ changed h₁ e₁ (Grows-trans h₁ h k g₁ g) f
    | new t e₁ f₁ ↦ new t e₁ f
  ]
  From-then es fs id k c (new t e f) = cc

  -- A change and then one that creates nothing.
  pub Change-then :
      (es fs gs : Entries)
      → Change n created es fs
      → Change n nothing_new fs gs
      → Change n created es gs
  Change-then es fs gs c d id k e = From-then es fs id k c (d id k e)

  pub From-after :
      (es fs : Entries) (id : String) (k : History)
      → Change n nothing_new es fs
      → ((i : String) → lookup i es ≡ none → lookup i fs ≡ none)
      → (created id ≡ true → lookup id es ≡ none)
      → From n created fs id k
      → From n created es id k
  From-after es fs id k c still fresh (kept e) = elim (c id k e) [
    | kept e₁ ↦ kept e₁
    | changed h₁ e₁ g₁ f₁ ↦ changed h₁ e₁ g₁ f₁
    | new t e₁ f₁ ↦ cc
  ]
  From-after es fs id k c still fresh (changed h e g f) = elim (c id h e) [
    | kept e₁ ↦ changed h e₁ g f
    | changed h₁ e₁ g₁ f₁ ↦ changed h₁ e₁ (Grows-trans h₁ h k g₁ g) f
    | new t e₁ f₁ ↦ cc
  ]
  From-after es fs id k c still fresh (new t e f) = new t (fresh t) f

module _ (n : ℕ) where
  pub prune-Change :
      (policy : ScopePolicy) (now : ℕ) (es : Entries)
      → Unique es
      → Change n nothing_new es (prune policy now es)
  unfolding prune
  prune-Change policy now es u id k e = kept (lookup-retain (is_fresh policy now) id k es u e)

  pub remove-Change : (id : String) (es : Entries) → Change n nothing_new es (remove id es)
  remove-Change id es other k e = elim (Bool-cases (same_text id other)) [
    | inl s ↦ cc (
        subst (λ b. lookup other (remove id es) ≡ (if b then none else lookup other es)) s
          (lookup-remove id other es))
    | inr s ↦ kept (
        sym (
          subst (λ b. lookup other (remove id es) ≡ (if b then none else lookup other es)) s
            (lookup-remove id other es))
        ∙ e)
  ]

  pub inserted :
      (id other : String) (h k : History) (es : Entries)
      → lookup other (insert id h es) ≡ some k
      → (same_text id other ≡ true → h ≡ k)
        × (same_text id other ≡ false → lookup other es ≡ some k)
  inserted id other h k es e = (
    (λ s. some-injective _ _ (
        sym (
          subst (λ b. lookup other (insert id h es) ≡ (if b then some h else lookup other es)) s
            (lookup-insert id other h es))
        ∙ e)),
    (λ s.
        sym (
          subst (λ b. lookup other (insert id h es) ≡ (if b then some h else lookup other es)) s
            (lookup-insert id other h es))
        ∙ e),
  )

  -- A later state of an entry takes its place.
  pub insert-changed :
      (id : String) (h k : History) (es : Entries)
      → lookup id es ≡ some h
      → Grows h k
      → Free n k
      → Change n nothing_new es (insert id k es)
  insert-changed id h k es found g f other x e =
      let (same, others) = inserted id other k x es e in
      elim (Bool-cases (same_text id other)) [
        | inl s ↦
            changed h (subst (λ i. lookup i es ≡ some h) ((eq_iff id other).0 s) found)
              (subst (Grows h) (same s) g) (subst (Free n) (same s) f)
        | inr s ↦ kept (others s)
      ]

  -- A new entry.
  pub insert-new :
      (created : String → Bool) (id : String) (k : History) (es : Entries)
      → created id ≡ true
      → lookup id es ≡ none
      → Free n k
      → Change n created es (insert id k es)
  insert-new created id k es c none_yet f other x e =
      let (same, others) = inserted id other k x es e in
      elim (Bool-cases (same_text id other)) [
        | inl s ↦
            let i = (eq_iff id other).0 s in
            new (subst (λ j. created j ≡ true) i c) (subst (λ j. lookup j es ≡ none) i none_yet)
              (subst (Free n) (same s) f)
        | inr s ↦ kept (others s)
      ]

pub prune-Unique :
    (policy : ScopePolicy) (now : ℕ) (es : Entries) → Unique es → Unique (prune policy now es)
unfolding prune
prune-Unique policy now es u = retain-Unique (is_fresh policy now) es u

pub prune-none :
    (policy : ScopePolicy) (now : ℕ) (es : Entries) (id : String)
    → lookup id es ≡ none
    → lookup id (prune policy now es) ≡ none
unfolding prune
prune-none policy now es id e = lookup-retain-none (is_fresh policy now) id es e

pub remove-Unique : (id : String) (es : Entries) → Unique es → Unique (remove id es)
unfolding remove
remove-Unique id es u = retain-Unique (λ x. not (same_text x.0 id)) es u

pub insert-Unique : (id : String) (h : History) (es : Entries) → Unique es → Unique (insert id h es)
unfolding insert
insert-Unique id h es u = (gone, remove-Unique id es u)
  where
    gone : lookup id (remove id es) ≡ none
    gone =
        subst (λ b. lookup id (remove id es) ≡ (if b then none else lookup id es))
          ((eq_iff id id).1 refl) (lookup-remove id id es)
