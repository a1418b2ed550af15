-- ===== src/Scopes/Append.antt =====
-- Growth of histories: how each part of an operation changes the entries
-- (packages/rust-core/src/platform/scopes.rs).
pub mod Changes
pub mod Growth
pub mod Commits
pub mod Leases
pub mod Runs
use text.Mathlib.TextEquality.{eq_iff}
use free_llama.Base.{
  ℕ, ◌+◌, ◌≤◌, ◌<◌, ◌≡◌, ◌≢◌, ◌∙◌, refl, sym, ap, subst, ◌⊎◌, inl, inr, Bool, true, false, not,
  ◌&&◌, List, [], ◌∷◌, ◌++◌, retain, Option, none, some, some-injective, String, same_text, ltb,
  ◌==◌, is_some_and, arith, Bool-cases, Option-cases, lookup, insert, remove, lookup-insert,
  lookup-remove, if◌then◌else◌,
}
use free_llama.Scopes.{Message}
use free_llama.Scopes.Store.{History, Entries}
use free_llama.Scopes.Lease.{ScopeLease}
use free_llama.Scopes.Commit.{holds_lease}

abbrev pub IsPrefix : List Message → List Message → Type 0
IsPrefix xs ys = (zs : List Message) × (ys ≡ xs ++ zs)

pub IsPrefix-refl : (xs : List Message) → IsPrefix xs xs
IsPrefix-refl [] = ([], refl)
IsPrefix-refl (x ∷ xs) = let (zs, e) = IsPrefix-refl xs in (zs, ap (λ ys. x ∷ ys) e)

append_assoc : (xs ys zs : List Message) → (xs ++ ys) ++ zs ≡ xs ++ (ys ++ zs)
append_assoc [] ys zs = refl
append_assoc (x ∷ xs) ys zs = ap (λ ws. x ∷ ws) (append_assoc xs ys zs)

pub IsPrefix-append : (xs ys zs : List Message) → IsPrefix xs ys → IsPrefix xs (ys ++ zs)
IsPrefix-append xs ys zs (ws, e) = (ws ++ zs, rw e (append_assoc xs ws zs))

IsPrefix-trans : (xs ys zs : List Message) → IsPrefix xs ys → IsPrefix ys zs → IsPrefix xs zs
IsPrefix-trans xs ys zs p (ws, e) = subst (IsPrefix xs) (sym e) (IsPrefix-append xs ys ws p)

-- The second history is a later state of the first: its revision is no smaller, its messages begin
-- with the first's, and at the same revision they are the same.
pub record Grows (h k : History) : Type 0 where
  pub later : h.revision ≤ k.revision
  pub extends : IsPrefix h.messages k.messages
  pub settled : (h.revision < k.revision) ⊎ (h.messages ≡ k.messages)

pub Grows-refl : (h : History) → Grows h h
Grows-refl h = record {
  later = omega arith;
  extends = IsPrefix-refl h.messages;
  settled = inr refl;
}

pub Grows-trans : (h k l : History) → Grows h k → Grows k l → Grows h l
Grows-trans h k l a b = record {
  later = omega (arith, a.later, b.later);
  extends = IsPrefix-trans h.messages k.messages l.messages a.extends b.extends;
  settled = elim a.settled [
    | inl lt ↦ inl (omega (arith, lt, b.later))
    | inr e ↦ elim b.settled [ inl lt ↦ inl (omega (arith, lt, a.later)) | inr f ↦ inr (e ∙ f) ]
  ];
}

-- No lease of an id below `n` holds the history.
abbrev pub Free : ℕ → History → Type 0
Free n h = is_some_and h.lease (λ i. ltb i n) ≡ false

free_lease :
    (n k : ℕ) (o : Option ℕ)
    → k < n
    → is_some_and o (λ i. ltb i n) ≡ false
    → is_some_and o (λ i. i == k) ≡ false
free_lease n k none h f = refl
free_lease n k (some i) h f = ground arith

pub Free-holds_lease :
    (n : ℕ) (l : ScopeLease) (h : History) → l.lease_id < n → Free n h → holds_lease l h ≡ false
Free-holds_lease n l h lt f = let e = free_lease n l.lease_id h.lease lt f in rw e (ground arith)

-- Where an entry comes from: it stood there, it is a later state of one that did, or it is new at an
-- id that `created` answers for.
pub data From (n : ℕ) (created : String → Bool) (es : Entries) (id : String) (k : History)
    : Type 0 where
  kept : lookup id es ≡ some k → From n created es id k
  changed : (h : History) → lookup id es ≡ some h → Grows h k → Free n k → From n created es id k
  new : created id ≡ true → lookup id es ≡ none → Free n k → From n created es id k

abbrev pub Change : ℕ → (String → Bool) → Entries → Entries → Type 0
Change n created es fs =
    (id : String) (k : History) → lookup id fs ≡ some k → From n created es id k

abbrev pub nothing_new : String → Bool
nothing_new id = false

-- Every key stands once.
abbrev pub Unique : Entries → Type 0
Unique [] = Unit
Unique ((id, h) ∷ es) = (lookup id es ≡ none) × Unique es

none≢some : {h : History} → none ≢ some h
none≢some e = cc

module _ (p : String × History → Bool) where
  pub lookup-retain-none :
      (id : String) (es : Entries) → lookup id es ≡ none → lookup id (retain p es) ≡ none
  unfolding lookup
  lookup-retain-none id [] e = refl
  lookup-retain-none id (x ∷ es) e = ground (arith, lookup-retain-none id es)

  pub retain-Unique : (es : Entries) → Unique es → Unique (retain p es)
  retain-Unique [] u = tt
  retain-Unique (x ∷ es) u = elim (Bool-cases (p x)) [
    | inl e ↦ rw e (lookup-retain-none x.0 es u.0, retain-Unique es u.1)
    | inr e ↦ rw e (retain-Unique es u.1)
  ]

  -- What a retained vector holds, the whole one holds.
  pub lookup-retain :
      (id : String) (h : History) (es : Entries)
      → Unique es
      → lookup id (retain p es) ≡ some h
      → lookup id es ≡ some h
  unfolding lookup
  lookup-retain id h [] u e = e
  lookup-retain id h (x ∷ es) u e =
      let more = lookup-retain id h es u.1 in
      elim (Bool-cases (p x)) [
        | inl t ↦
            let e₁ =
              subst (λ b. lookup id (if b then x ∷ retain p es else retain p es) ≡ some h) t e in
            elim (Bool-cases (same_text x.0 id)) [
              | inl s ↦
                  rw s
                    (subst (λ b. (if b then some x.1 else lookup id (retain p es)) ≡ some h) s e₁)
              | inr s ↦ rw s (
                  more
                    (subst (λ b. (if b then some x.1 else lookup id (retain p es)) ≡ some h) s e₁))
            ]
        | inr t ↦
            let e₁ =
              subst (λ b. lookup id (if b then x ∷ retain p es else retain p es) ≡ some h) t e in
            elim (Bool-cases (same_text x.0 id)) [
              | inl s ↦
                  let same = (eq_iff x.0 id).0 s in
                  absurd (none≢some (sym (subst (λ i. lookup i es ≡ none) same u.0) ∙ more e₁))
              | inr s ↦ rw s (more e₁)
            ]
      ]
