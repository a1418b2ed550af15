-- ===== src/Scopes/Append/Commits.antt =====
-- A commit and the history that its lease was taken of
-- (packages/rust-core/src/platform/scopes.rs, `ScopeLease::commit`).
use free_llama.Base.{
  ℕ, ◌<◌, ◌≡◌, refl, inl, inr, Bool, true, List, [], ◌∷◌, ◌++◌, Option, none, some, String, arith,
  Bool-cases, lookup,
}
use free_llama.Scopes.{ScopePolicy, ScopeError, Message}
use free_llama.Scopes.Store.{History, Entries, prune}
use free_llama.Scopes.Lease.{ScopeLease}
use free_llama.Scopes.Commit.{
  Response, candidate, holds_lease, assistant_error, append_unless, append_found, append_valid,
  append, commit,
}
use free_llama.Scopes.Append.{
  IsPrefix, IsPrefix-append, Grows, Free, Free-holds_lease, Change, kept, changed, new, nothing_new,
  Unique,
}
use free_llama.Scopes.Append.Changes.{
  Change-refl, Change-then, prune-Change, insert-changed, prune-Unique, insert-Unique,
}
use free_llama.Scopes.Append.Growth.{Done, release-Done}

-- The lease is of a history that begins its messages, wherever it still holds it.
abbrev pub Guards : Entries → ScopeLease → Type 0
Guards es l =
    (h : History)
    → lookup l.id es ≡ some h
    → holds_lease l h ≡ true
    → IsPrefix h.messages l.messages

module _ (json_bytes : List Message → ℕ) (policy : ScopePolicy) (n : ℕ) where
  abbrev pub Kept : Entries → Entries → Type 0
  Kept = Done json_bytes policy n nothing_new

  pub Kept-refl : (es : Entries) → Unique es → Kept es es
  Kept-refl es unique = (Change-refl n nothing_new es, unique)

  candidate-Grows :
      (h : History) (messages : List Message) (now : ℕ)
      → IsPrefix h.messages messages
      → Grows h (candidate h messages now)
  unfolding candidate
  candidate-Grows h messages now p = record {
    later = omega arith;
    extends = p;
    settled = inl (omega arith);
  }

  candidate-Free :
      (h : History) (messages : List Message) (now : ℕ) → Free n (candidate h messages now)
  unfolding candidate
  candidate-Free h messages now = refl

  append_unless-Kept :
      (o : Option ScopeError) (es : Entries) (l : ScopeLease) (h : History)
      (messages : List Message) (now : ℕ)
      → lookup l.id es ≡ some h
      → IsPrefix h.messages messages
      → Unique es
      → Kept es (append_unless o es l h messages now).0
  append_unless-Kept (some x) es l h messages now e p unique = Kept-refl es unique
  append_unless-Kept none es l h messages now e p unique =
      let k = candidate h messages now in
      (
        insert-changed n l.id h k es e (candidate-Grows h messages now p)
            (candidate-Free h messages now),
        insert-Unique l.id k es unique,
      )

  append_found-Kept :
      (es : Entries) (l : ScopeLease) (o : Option History) (r : Response) (now : ℕ)
      → lookup l.id es ≡ o
      → Guards es l
      → Unique es
      → Kept es (append_found json_bytes es l o r policy now).0
  append_found-Kept es l none r now e g unique = Kept-refl es unique
  append_found-Kept es l (some h) r now e g unique = elim (Bool-cases (holds_lease l h)) [
    | inr a ↦ rw a (Kept-refl es unique)
    | inl a ↦ rw a (
        append_unless-Kept _ es l h (l.messages ++ (r.message ∷ [])) now e
          (IsPrefix-append h.messages l.messages (r.message ∷ []) (g h e a)) unique)
  ]

  -- What guards a lease after a change that creates nothing.
  pub Guards-Change :
      (created : String → Bool) (es fs : Entries) (l : ScopeLease)
      → l.lease_id < n
      → Change n created es fs
      → Guards es l
      → Guards fs l
  Guards-Change created es fs l lt c g h e holds = elim (c l.id h e) [
    | kept e₁ ↦ g h e₁ holds
    | changed k e₁ grows free ↦ cc (Free-holds_lease n l h lt free)
    | new t e₁ free ↦ cc (Free-holds_lease n l h lt free)
  ]

  append_valid-Kept :
      (o : Option ScopeError) (es : Entries) (l : ScopeLease) (r : Response) (now : ℕ)
      → l.lease_id < n
      → Guards es l
      → Unique es
      → Kept es (append_valid json_bytes o es l r policy now).0
  append_valid-Kept (some e) es l r now lt g unique = Kept-refl es unique
  append_valid-Kept none es l r now lt g unique =
      let live = prune policy now es in
      let pruned = prune-Change n policy now es unique in
      let (c, u) =
        append_found-Kept live l (lookup l.id live) r now refl
          (Guards-Change nothing_new es live l lt pruned g) (prune-Unique policy now es unique) in
      (Change-then n nothing_new es live _ pruned c, u)

  pub commit-Kept :
      (es : Entries) (l : ScopeLease) (r : Response) (now : ℕ)
      → l.lease_id < n
      → Guards es l
      → Unique es
      → Kept es (commit json_bytes es l r policy now).0
  unfolding commit append
  commit-Kept es l r now lt g unique =
      let (c, u) = append_valid-Kept (assistant_error r) es l r now lt g unique in
      let (c₁, u₁) = release-Done json_bytes policy n _ l u in
      (Change-then n nothing_new es _ _ c c₁, u₁)
