-- ===== src/Scopes/Bounds.antt =====
-- The limits of the histories and of the store
-- (packages/rust-core/src/platform/scopes.rs).
pub mod Created
pub mod Commits
pub mod Runs
use text.Mathlib.TextEquality.{eq_iff}
use free_llama.Base.{
  u64_max, ℕ, ◌+◌, ◌≤◌, ◌<◌, ◌≡◌, ◌≢◌, ◌∙◌, refl, sym, ap, subst, inl, inr, Bool, true, false, not,
  List, [], ◌∷◌, ◌++◌, Option, none, some, some-injective, String, same_text, ltb, ◌==◌, is_some,
  is_some_and, arith, Bool-cases, Option-cases, lookup, insert, Result, ok, err, ok-injective,
  if◌then◌else◌, min, ◌-◌, leb, All, All-retain, retain, remove, length, length-retain-le,
  get_elem?, remove_at, ◌||◌,
}
use free_llama.Routing.{RouteInput}
use free_llama.Scopes.{
  ScopePolicy, ScopeLimits, ScopeLimitsInput, ScopeError, Message, RouteDefaults, resolve, bounded,
  validate_messages, validate_size, apply,
}
use free_llama.Scopes.Store.{
  History, Entries, CreateInput, ForkInput, prune, unless, capacity, insert_new, insert_capacity,
  create_limits, new_history, create_checked, create, fork_limits, forked, fork_found, fork, get,
  delete, check_embedding, fork_defaults,
}
use free_llama.Scopes.Lease.{
  TaskInput, ScopeLease, Prepared, additions, take_lease, lease_messages, prepare_route,
  prepare_found, prepare_named, prepare,
}
use free_llama.Scopes.Commit.{
  Response, candidate, holds_lease, assistant_error, over_total, result_error, append_checked,
  append_found, append_valid, append, release_found, release, commit,
}
use free_llama.Scopes.Histories.{
  ScopeState, ScopeEvent, creates, gets, forks, deletes, prepares, commits, drops, hold,
  commit_held, drop_held, scope_step, scope_run, no_scopes,
}
use free_llama.Scopes.Store.{total_bytes, is_fresh}

module _ (json_bytes : List Message → ℕ) (policy : ScopePolicy)
    (small : policy.total_max_bytes < u64_max) where
  abbrev pub Fits : String × History → Type 0
  Fits x = validate_size json_bytes x.1.messages x.1.limits ≡ none

  -- Every history is within its own limits, and the store within the operator's.
  pub record Sized (es : Entries) : Type 0 where
    pub fits : All Fits es
    pub count : length es ≤ policy.max_count
    pub total : total_bytes json_bytes es ≤ policy.total_max_bytes

  pub bounded-Fits :
      (messages : List Message) (l : ScopeLimits)
      → validate_size json_bytes messages (bounded l policy) ≡ none
      → validate_size json_bytes messages l ≡ none
  unfolding validate_size bounded
  bounded-Fits messages l h = ground arith

  total-retain :
      (p : String × History → Bool) (es : Entries)
      → total_bytes json_bytes (retain p es) ≤ total_bytes json_bytes es
  unfolding total_bytes
  total-retain p [] = omega arith
  total-retain p (x ∷ es) = ground (arith, total-retain p es)

  retain-Sized : (p : String × History → Bool) (es : Entries) → Sized es → Sized (retain p es)
  retain-Sized p es s = record {
    fits = All-retain Fits p es s.fits;
    count = omega (arith, length-retain-le p es, s.count);
    total = omega (arith, total-retain p es, s.total);
  }

  pub prune-Sized : (now : ℕ) (es : Entries) → Sized es → Sized (prune policy now es)
  unfolding prune
  prune-Sized now es s = retain-Sized (is_fresh policy now) es s

  pub remove-Sized : (id : String) (es : Entries) → Sized es → Sized (remove id es)
  unfolding remove
  remove-Sized id es s = retain-Sized (λ x. not (same_text x.0 id)) es s

  pub removed :
      (id : String) (h : History) (es : Entries)
      → lookup id es ≡ some h
      → (length (remove id es) + 1 ≤ length es)
        × (total_bytes json_bytes (remove id es) + json_bytes h.messages
            ≤ total_bytes json_bytes es)
  unfolding remove lookup total_bytes
  removed id h [] e = cc
  removed id h (x ∷ es) e = elim (Bool-cases (same_text x.0 id)) [
    | inl s ↦
        let same =
          some-injective _ _ (subst (λ b. (if b then some x.1 else lookup id es) ≡ some h) s e) in
        let bytes : json_bytes x.1.messages ≡ json_bytes h.messages =
          ap (λ y. json_bytes y.messages) same in
        let p = λ (y : String × History). not (same_text y.0 id) in
        rw s (omega (arith, length-retain-le p es), omega (arith, total-retain p es, bytes))
    | inr s ↦
        let (a, b) =
          removed id h es (subst (λ b. (if b then some x.1 else lookup id es) ≡ some h) s e) in
        rw s (omega (arith, a), omega (arith, b))
  ]

  -- A history takes the place of one; where it is longer, the store has room for it.
  pub insert-Sized :
      (id : String) (h k : History) (es : Entries)
      → lookup id es ≡ some h
      → validate_size json_bytes k.messages k.limits ≡ none
      → total_bytes json_bytes es - json_bytes h.messages + json_bytes k.messages
        ≤ policy.total_max_bytes
      → Sized es
      → Sized (insert id k es)
  unfolding insert total_bytes
  insert-Sized id h k es found v room s =
      let (a, b) = removed id h es found in
      record {
        fits = (v, (remove-Sized id es s).fits);
        count = omega (arith, a, s.count);
        total = omega (arith, b, room);
      }

  capacity-room :
      (es : Entries) (bytes : ℕ)
      → capacity json_bytes es bytes policy ≡ none
      → (length es < policy.max_count)
        × (total_bytes json_bytes es + bytes ≤ policy.total_max_bytes)
  unfolding capacity
  capacity-room es bytes h = ground arith

  new-Sized :
      (id : String) (k : History) (es : Entries)
      → validate_size json_bytes k.messages k.limits ≡ none
      → capacity json_bytes es (json_bytes k.messages) policy ≡ none
      → Sized es
      → Sized (insert id k es)
  unfolding insert total_bytes remove
  new-Sized id k es v c s =
      let (a, b) = capacity-room es (json_bytes k.messages) c in
      let p = λ (y : String × History). not (same_text y.0 id) in
      record {
        fits = (v, All-retain Fits p es s.fits);
        count = omega (arith, a, length-retain-le p es);
        total = omega (arith, b, total-retain p es);
      }

  -- A result that is a history within its limits.
  abbrev pub Limited : Result History ScopeError → Type 0
  Limited r = (h : History) → r ≡ ok h → validate_size json_bytes h.messages h.limits ≡ none

  pub unless-Limited :
      (o : Option ScopeError) (r : Result History ScopeError) → Limited r → Limited (unless o r)
  unless-Limited none r u h q = u h q
  unless-Limited (some e) r u h q = cc

  pub guarded-Limited :
      (o : Option ScopeError) (r : Result History ScopeError)
      → (o ≡ none → Limited r)
      → Limited (unless o r)
  guarded-Limited none r v h q = v refl h q
  guarded-Limited (some e) r v h q = cc

  pub ok-Limited :
      (k : History) → validate_size json_bytes k.messages k.limits ≡ none → Limited (ok k)
  ok-Limited k v h q =
      subst (λ x. validate_size json_bytes x.messages x.limits ≡ none) (ok-injective _ _ q) v

  pub insert_capacity-Sized :
      (es : Entries) (id : String) (r : Result History ScopeError)
      → Limited r
      → Sized es
      → Sized (insert_capacity json_bytes es id policy r).0
  insert_capacity-Sized es id (err e) u s = s
  insert_capacity-Sized es id (ok h) u s =
      elim (Option-cases (capacity json_bytes es (json_bytes h.messages) policy)) [
        | inr (e, c) ↦ rw c s
        | inl c ↦ rw c (new-Sized id h es (u h refl) c s)
      ]
