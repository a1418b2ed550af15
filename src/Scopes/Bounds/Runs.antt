-- ===== src/Scopes/Bounds/Runs.antt =====
-- The limits across every handler of the scopes (packages/rust-core/src/platform/scopes.rs).
use free_llama.Base.{
  u64_max, ℕ, ◌<◌, ◌≡◌, refl, inl, inr, not, List, [], ◌∷◌, Option, none, some, String, ◌==◌,
  is_some, arith, Bool-cases, lookup, Result, ok, err, get_elem?,
}
use free_llama.Routing.{RouteInput}
use free_llama.Scopes.{ScopePolicy, ScopeError, Message, apply}
use free_llama.Scopes.Store.{History, Entries, prune, get, delete}
use free_llama.Scopes.Lease.{
  TaskInput, ScopeLease, take_lease, prepare_route, prepare_found, prepare_named, prepare,
}
use free_llama.Scopes.Commit.{Response, assistant_error, append, commit}
use free_llama.Scopes.Histories.{
  ScopeState, ScopeEvent, creates, gets, forks, deletes, prepares, commits, drops, commit_held,
  drop_held, scope_step, scope_run, no_scopes,
}
use free_llama.Scopes.Store.{total_bytes}
use free_llama.Scopes.Bounds.{Sized, prune-Sized, remove-Sized}
use free_llama.Scopes.Bounds.Created.{create-Sized, fork-Sized}
use free_llama.Scopes.Bounds.Commits.{same-Sized, append_valid-Sized, release-Sized}

module _ (json_bytes : List Message → ℕ) (policy : ScopePolicy)
    (small : policy.total_max_bytes < u64_max) where
  abbrev IsSized : Entries → Type 0
  IsSized = Sized json_bytes policy small

  commit_held-Sized :
      (s : ScopeState) (k : ℕ) (o : Option ScopeLease) (r : Response) (now : ℕ)
      → IsSized s.entries
      → IsSized (commit_held json_bytes policy s k o r now).entries
  unfolding commit append
  commit_held-Sized s k none r now z = z
  commit_held-Sized s k (some l) r now z =
      release-Sized json_bytes policy small _ l
        (append_valid-Sized json_bytes policy small (assistant_error r) s.entries l r now z)

  drop_held-Sized :
      (s : ScopeState) (k : ℕ) (o : Option ScopeLease)
      → IsSized s.entries
      → IsSized (drop_held json_bytes policy s k o).entries
  drop_held-Sized s k none z = z
  drop_held-Sized s k (some l) z = release-Sized json_bytes policy small s.entries l z

  take_lease-Sized :
      (live : Entries) (next : ℕ) (id : String) (h : History) (route : RouteInput)
      (messages : Result (List Message) ScopeError)
      → lookup id live ≡ some h
      → IsSized live
      → IsSized (take_lease live next id h route messages).entries
  take_lease-Sized live next id h route (err e) found s = s
  take_lease-Sized live next id h route (ok messages) found s =
      same-Sized json_bytes policy small id h (record h { lease = some next }) live found refl refl
        s

  prepare_route-Sized :
      (live : Entries) (next : ℕ) (id : String) (h : History) (input : TaskInput)
      (route : Result RouteInput ScopeError)
      → lookup id live ≡ some h
      → IsSized live
      → IsSized (prepare_route json_bytes live next id h input policy route).entries
  prepare_route-Sized live next id h input (err e) found s = s
  prepare_route-Sized live next id h input (ok route) found s =
      take_lease-Sized live next id h route _ found s

  prepare_found-Sized :
      (live : Entries) (next : ℕ) (id : String) (revision : ℕ) (o : Option History)
      (input : TaskInput)
      → lookup id live ≡ o
      → IsSized live
      → IsSized (prepare_found json_bytes live next id revision o input policy).entries
  prepare_found-Sized live next id revision none input found s = s
  prepare_found-Sized live next id revision (some h) input found s =
      elim (Bool-cases (not (h.revision == revision))) [
        | inl a ↦ rw a s
        | inr a ↦ elim (Bool-cases (is_some h.lease)) [
          | inl b ↦ rw (a, b) s
          | inr b ↦
              rw (a, b)
                (prepare_route-Sized live next id h input
                  (apply h.defaults input.route_fields input.route) found s)
        ]
      ]

  prepare_named-Sized :
      (es : Entries) (next : ℕ) (id : Option String) (revision : Option ℕ) (input : TaskInput)
      (now : ℕ)
      → IsSized es
      → IsSized (prepare_named json_bytes es next id revision input policy now).entries
  prepare_named-Sized es next none none input now s = s
  prepare_named-Sized es next none (some revision) input now s = s
  prepare_named-Sized es next (some id) none input now s = s
  prepare_named-Sized es next (some id) (some revision) input now s =
      elim (Bool-cases input.has_input) [
        | inl a ↦ simp a s
        | inr a ↦ simp a (
            prepare_found-Sized (prune policy now es) next id revision _ input refl
              (prune-Sized json_bytes policy small now es s))
      ]

  scope_step-Sized :
      (s : ScopeState) (e : ScopeEvent)
      → IsSized s.entries
      → IsSized (scope_step json_bytes policy s e).entries
  unfolding scope_step get delete prepare
  scope_step-Sized s (creates id input now) z =
      create-Sized json_bytes policy small s.entries id input now z
  scope_step-Sized s (gets id now) z = prune-Sized json_bytes policy small now s.entries z
  scope_step-Sized s (forks id new_id input now) z =
      fork-Sized json_bytes policy small s.entries id new_id input now z
  scope_step-Sized s (deletes id now) z =
      remove-Sized json_bytes policy small id _
        (prune-Sized json_bytes policy small now s.entries z)
  scope_step-Sized s (prepares input now) z =
      prepare_named-Sized s.entries s.next_lease input.scope_id input.scope_revision input now z
  scope_step-Sized s (commits k r now) z = commit_held-Sized s k (get_elem? s.leases k) r now z
  scope_step-Sized s (drops k) z = drop_held-Sized s k (get_elem? s.leases k) z

  run-Sized :
      (events : List ScopeEvent) (s : ScopeState)
      → IsSized s.entries
      → IsSized (scope_run json_bytes policy s events).entries
  run-Sized [] s z = z
  run-Sized (e ∷ events) s z =
      run-Sized events (scope_step json_bytes policy s e) (scope_step-Sized s e z)

  -- In every history of the scopes that starts with none, under an operator's policy whose total is
  -- below the largest word, every history is within its own message, byte and token limits, and
  -- the store is within the operator's count and total of bytes.
  pub scope_run-Sized :
      (events : List ScopeEvent)
      → Sized json_bytes policy small (scope_run json_bytes policy no_scopes events).entries
  unfolding total_bytes
  scope_run-Sized events =
      run-Sized events no_scopes (record { fits = tt; count = omega arith; total = omega arith })
