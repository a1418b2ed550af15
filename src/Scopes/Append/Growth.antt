-- ===== src/Scopes/Append/Growth.antt =====
-- The changes that every operation makes to the entries
-- (packages/rust-core/src/platform/scopes.rs).
use text.Mathlib.TextEquality.{eq_iff}
use free_llama.Base.{
  ℕ, ◌≡◌, refl, sym, subst, inl, inr, Bool, true, false, not, List, Option, none, some, String,
  same_text, ltb, ◌==◌, is_some_and, arith, Bool-cases, lookup, Result, ok, err, ok-injective,
}
use free_llama.Scopes.{ScopePolicy, ScopeLimits, ScopeError, Message, resolve}
use free_llama.Scopes.Store.{
  History, Entries, CreateInput, ForkInput, prune, unless, insert_new, insert_capacity,
  create_limits, new_history, create_checked, create, fork_limits, forked, fork_found, fork, get,
  delete,
}
use free_llama.Scopes.Lease.{ScopeLease}
use free_llama.Scopes.Commit.{release_found, release}
use free_llama.Scopes.Append.{IsPrefix-refl, Free, Change, nothing_new, Unique}
use free_llama.Scopes.Append.Changes.{
  Change-refl, Change-then, From-after, prune-Change, remove-Change, insert-changed, insert-new,
  prune-Unique, prune-none, remove-Unique, insert-Unique,
}

unless-ok :
    {A : Type 0} (o : Option ScopeError) (r : Result A ScopeError) (a : A)
    → unless o r ≡ ok a
    → r ≡ ok a
unless-ok none r a h = h
unless-ok (some e) r a h = cc

-- A result that is a history with no lease.
abbrev Unleased : Result History ScopeError → Type 0
Unleased r = (h : History) → r ≡ ok h → h.lease ≡ none

unless-Unleased :
    (o : Option ScopeError) (r : Result History ScopeError) → Unleased r → Unleased (unless o r)
unless-Unleased o r u h e = u h (unless-ok o r h e)

ok-Unleased : (k : History) → k.lease ≡ none → Unleased (ok k)
ok-Unleased k e h q = subst (λ x. x.lease ≡ none) (ok-injective _ _ q) e

err-Unleased : (e : ScopeError) → Unleased (err e)
err-Unleased e h q = cc

module _ (json_bytes : List Message → ℕ) (policy : ScopePolicy) (n : ℕ) where
  create_limits-Unleased :
      (r : Result ScopeLimits ScopeError) (input : CreateInput) (now : ℕ)
      → Unleased (create_limits json_bytes r input now)
  create_limits-Unleased (err e) input now = err-Unleased e
  create_limits-Unleased (ok l) input now = unless-Unleased _ _ (ok-Unleased _ refl)

  new_history-Unleased :
      (input : CreateInput) (now : ℕ) → Unleased (new_history json_bytes input policy now)
  unfolding new_history
  new_history-Unleased input now =
      unless-Unleased _ _
        (unless-Unleased _ _ (create_limits-Unleased (resolve input.limits policy) input now))

  forked-Unleased :
      (source : History) (id : String) (input : ForkInput) (now : ℕ)
      (r : Result ScopeLimits ScopeError)
      → Unleased (forked json_bytes source id input now r)
  forked-Unleased source id input now (err e) = err-Unleased e
  forked-Unleased source id input now (ok l) =
      unless-Unleased _ _ (unless-Unleased _ _ (ok-Unleased _ refl))

  -- A change of entries with unique keys.
  abbrev pub Done : (String → Bool) → Entries → Entries → Type 0
  Done created es fs = Change n created es fs × Unique fs

  insert_new-Done :
      (created : String → Bool) (es : Entries) (id : String) (r : Result History ScopeError)
      → created id ≡ true
      → lookup id es ≡ none
      → Unleased r
      → Unique es
      → Done created es (insert_new es id r).0
  insert_new-Done created es id (err e) c none_yet u unique = (Change-refl n created es, unique)
  insert_new-Done created es id (ok h) c none_yet u unique =
      let free : Free n h =
        subst (λ o. is_some_and o (λ i. ltb i n) ≡ false) (sym (u h refl)) refl in
      (insert-new n created id h es c none_yet free, insert-Unique id h es unique)

  insert_capacity-Done :
      (created : String → Bool) (es : Entries) (id : String) (r : Result History ScopeError)
      → created id ≡ true
      → lookup id es ≡ none
      → Unleased r
      → Unique es
      → Done created es (insert_capacity json_bytes es id policy r).0
  insert_capacity-Done created es id (err e) c none_yet u unique =
      (Change-refl n created es, unique)
  insert_capacity-Done created es id (ok h) c none_yet u unique =
      insert_new-Done created es id _ c none_yet (unless-Unleased _ _ u) unique

  -- What is done after pruning is done to the entries.
  after-prune :
      (id : String) (es fs : Entries) (now : ℕ)
      → Unique es
      → lookup id es ≡ none
      → Done (same_text id) (prune policy now es) fs
      → Done (same_text id) es fs
  after-prune id es fs now unique none_yet (c, u) = (
    (λ other k e.
        From-after n (same_text id) es (prune policy now es) other k
          (prune-Change n policy now es unique) (λ i. prune-none policy now es i)
          (λ s. subst (λ i. lookup i es ≡ none) ((eq_iff id other).0 s) none_yet) (c other k e)),
    u,
  )

  same_id : (id : String) → same_text id id ≡ true
  same_id id = (eq_iff id id).1 refl

  create_checked-Done :
      (es : Entries) (id : String) (now : ℕ) (r : Result History ScopeError)
      → Unique es
      → lookup id es ≡ none
      → Unleased r
      → Done (same_text id) es (create_checked json_bytes es id policy now r).0
  create_checked-Done es id now (err e) unique none_yet u =
      (Change-refl n (same_text id) es, unique)
  create_checked-Done es id now (ok h) unique none_yet u = after-prune id es _ now unique none_yet (
      insert_capacity-Done (same_text id) (prune policy now es) id (ok h) (same_id id)
        (prune-none policy now es id none_yet) u (prune-Unique policy now es unique))

  pub create-Done :
      (es : Entries) (id : String) (input : CreateInput) (now : ℕ)
      → Unique es
      → lookup id es ≡ none
      → Done (same_text id) es (create json_bytes es id input policy now).0
  unfolding create
  create-Done es id input now unique none_yet =
      create_checked-Done es id now _ unique none_yet (new_history-Unleased input now)

  fork_found-Done :
      (live : Entries) (source : Option History) (id new_id : String) (input : ForkInput) (now : ℕ)
      → Unique live
      → lookup new_id live ≡ none
      → Done
          (same_text new_id)
          live
          (fork_found json_bytes live source id new_id input policy now).0
  fork_found-Done live none id new_id input now unique none_yet =
      (Change-refl n (same_text new_id) live, unique)
  fork_found-Done live (some source) id new_id input now unique none_yet =
      elim (Bool-cases (not (source.revision == input.revision))) [
        | inl e ↦ rw e (Change-refl n (same_text new_id) live, unique)
        | inr e ↦ rw e (
            insert_capacity-Done (same_text new_id) live new_id _ (same_id new_id) none_yet
              (forked-Unleased source id input now (fork_limits input.limits source policy)) unique)
      ]

  pub fork-Done :
      (es : Entries) (id new_id : String) (input : ForkInput) (now : ℕ)
      → Unique es
      → lookup new_id es ≡ none
      → Done (same_text new_id) es (fork json_bytes es id new_id input policy now).0
  unfolding fork
  fork-Done es id new_id input now unique none_yet = after-prune new_id es _ now unique none_yet (
      fork_found-Done (prune policy now es) (lookup id (prune policy now es)) id new_id input now
        (prune-Unique policy now es unique) (prune-none policy now es new_id none_yet))

  pub get-Done :
      (es : Entries) (id : String) (now : ℕ)
      → Unique es
      → Done nothing_new es (get es id policy now).0
  unfolding get
  get-Done es id now unique =
      (prune-Change n policy now es unique, prune-Unique policy now es unique)

  pub delete-Done :
      (es : Entries) (id : String) (now : ℕ)
      → Unique es
      → Done nothing_new es (delete es id policy now).0
  unfolding delete
  delete-Done es id now unique = (
    Change-then n nothing_new es (prune policy now es) _ (prune-Change n policy now es unique)
        (remove-Change n id (prune policy now es)),
    remove-Unique id (prune policy now es) (prune-Unique policy now es unique),
  )

  release_found-Done :
      (es : Entries) (l : ScopeLease) (o : Option History)
      → lookup l.id es ≡ o
      → Unique es
      → Done nothing_new es (release_found es l o)
  release_found-Done es l none e unique = (Change-refl n nothing_new es, unique)
  release_found-Done es l (some h) e unique =
      elim (Bool-cases (is_some_and h.lease (λ id. id == l.lease_id))) [
        | inl s ↦
            let k : History = record h { lease = none } in
            rw s (
              insert-changed n l.id h k es e
                  (record {
                    later = omega arith;
                    extends = IsPrefix-refl h.messages;
                    settled = inr refl;
                  })
                  refl,
              insert-Unique l.id k es unique,
            )
        | inr s ↦ rw s (Change-refl n nothing_new es, unique)
      ]

  pub release-Done :
      (es : Entries) (l : ScopeLease) → Unique es → Done nothing_new es (release es l)
  unfolding release
  release-Done es l unique = release_found-Done es l (lookup l.id es) refl unique
