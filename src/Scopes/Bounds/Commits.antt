-- ===== src/Scopes/Bounds/Commits.antt =====
-- The limits across an append and the end of a lease
-- (packages/rust-core/src/platform/scopes.rs, `ScopeLease::commit` and `drop`).
use free_llama.Base.{
  u64_max, ℕ, ◌+◌, ◌≤◌, ◌<◌, ◌≡◌, refl, sym, ap, subst, inl, inr, List, [], ◌∷◌, ◌++◌, Option, none,
  some, some-injective, String, same_text, ◌==◌, is_some_and, arith, Bool-cases, lookup, insert,
  if◌then◌else◌, ◌-◌, All,
}
use free_llama.Scopes.{ScopePolicy, ScopeError, Message, bounded, validate_size}
use free_llama.Scopes.Store.{History, Entries, prune}
use free_llama.Scopes.Lease.{ScopeLease}
use free_llama.Scopes.Commit.{
  Response, candidate, holds_lease, over_total, result_error, first_error, append_unless,
  append_found, append_valid, release_found, release,
}
use free_llama.Scopes.Store.{total_bytes}
use free_llama.Scopes.Bounds.{Fits, Sized, bounded-Fits, prune-Sized, insert-Sized, removed}

module _ (json_bytes : List Message → ℕ) (policy : ScopePolicy)
    (small : policy.total_max_bytes < u64_max) where
  abbrev IsSized : Entries → Type 0
  IsSized = Sized json_bytes policy small

  lookup-Fits :
      (id : String) (h : History) (es : Entries)
      → lookup id es ≡ some h
      → All (Fits json_bytes policy small) es
      → validate_size json_bytes h.messages h.limits ≡ none
  unfolding lookup
  lookup-Fits id h [] e f = cc
  lookup-Fits id h (x ∷ es) e f = elim (Bool-cases (same_text x.0 id)) [
    | inl s ↦
        let same =
          some-injective _ _ (subst (λ b. (if b then some x.1 else lookup id es) ≡ some h) s e) in
        subst (λ y. validate_size json_bytes y.messages y.limits ≡ none) same f.0
    | inr s ↦
        lookup-Fits id h es (subst (λ b. (if b then some x.1 else lookup id es) ≡ some h) s e) f.1
  ]

  -- A history with the same messages and limits takes the place of one.
  pub same-Sized :
      (id : String) (h k : History) (es : Entries)
      → lookup id es ≡ some h
      → k.messages ≡ h.messages
      → k.limits ≡ h.limits
      → IsSized es
      → IsSized (insert id k es)
  same-Sized id h k es found m l s =
      let fits = lookup-Fits id h es found s.fits in
      let v = subst (λ x. validate_size json_bytes x h.limits ≡ none) (sym m) fits in
      let bytes : json_bytes k.messages ≡ json_bytes h.messages = ap json_bytes m in
      let (a, b) = removed json_bytes policy small id h es found in
      insert-Sized json_bytes policy small id h k es found
        (subst (λ x. validate_size json_bytes k.messages x ≡ none) (sym l) v)
        (omega (arith, bytes, b, s.total)) s

  release_found-Sized :
      (es : Entries) (l : ScopeLease) (o : Option History)
      → lookup l.id es ≡ o
      → IsSized es
      → IsSized (release_found es l o)
  release_found-Sized es l none e s = s
  release_found-Sized es l (some h) e s =
      elim (Bool-cases (is_some_and h.lease (λ id. id == l.lease_id))) [
        | inl t ↦ rw t (same-Sized l.id h (record h { lease = none }) es e refl refl s)
        | inr t ↦ rw t s
      ]

  pub release-Sized : (es : Entries) (l : ScopeLease) → IsSized es → IsSized (release es l)
  unfolding release
  release-Sized es l s = release_found-Sized es l (lookup l.id es) refl s

  first_error-none : (a b : Option ScopeError) → first_error a b ≡ none → (a ≡ none) × (b ≡ none)
  first_error-none none b h = (refl, h)
  first_error-none (some e) b h = cc

  over_total-room :
      (es : Entries) (old new : List Message)
      → over_total json_bytes es old new policy ≡ none
      → total_bytes json_bytes es - json_bytes old + json_bytes new ≤ policy.total_max_bytes
  over_total-room es old new h = ground arith

  append_unless-Sized :
      (o : Option ScopeError) (es : Entries) (l : ScopeLease) (h : History)
      (messages : List Message) (r : Response) (now : ℕ)
      → o
        ≡ first_error
            (validate_size json_bytes messages (bounded h.limits policy))
            (first_error (over_total json_bytes es h.messages messages policy) (result_error r))
      → lookup l.id es ≡ some h
      → IsSized es
      → IsSized (append_unless o es l h messages now).0
  unfolding candidate
  append_unless-Sized (some x) es l h messages r now e found s = s
  append_unless-Sized none es l h messages r now e found s =
      let (v, rest) = first_error-none _ _ (sym e) in
      let (room, others) = first_error-none _ _ rest in
      insert-Sized json_bytes policy small l.id h (candidate h messages now) es found
        (bounded-Fits json_bytes policy small messages h.limits v)
        (over_total-room es h.messages messages room) s

  append_found-Sized :
      (es : Entries) (l : ScopeLease) (o : Option History) (r : Response) (now : ℕ)
      → lookup l.id es ≡ o
      → IsSized es
      → IsSized (append_found json_bytes es l o r policy now).0
  append_found-Sized es l none r now e s = s
  append_found-Sized es l (some h) r now e s = elim (Bool-cases (holds_lease l h)) [
    | inr a ↦ rw a s
    | inl a ↦ rw a (append_unless-Sized _ es l h (l.messages ++ (r.message ∷ [])) r now refl e s)
  ]

  pub append_valid-Sized :
      (o : Option ScopeError) (es : Entries) (l : ScopeLease) (r : Response) (now : ℕ)
      → IsSized es
      → IsSized (append_valid json_bytes o es l r policy now).0
  append_valid-Sized (some e) es l r now s = s
  append_valid-Sized none es l r now s =
      append_found-Sized (prune policy now es) l _ r now refl
        (prune-Sized json_bytes policy small now es s)
