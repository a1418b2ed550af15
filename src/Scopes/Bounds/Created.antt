-- ===== src/Scopes/Bounds/Created.antt =====
-- The limits across new histories and forks (packages/rust-core/src/platform/scopes.rs, `create` and `fork`).
use free_llama.Base.{
  u64_max, ℕ, ◌<◌, inl, inr, not, List, Option, none, some, String, ◌==◌, Bool-cases, Result, ok,
  err,
}
use free_llama.Scopes.{ScopePolicy, ScopeLimits, ScopeError, Message, resolve, validate_size}
use free_llama.Scopes.Store.{
  History, Entries, CreateInput, ForkInput, prune, create_limits, new_history, create_checked,
  create, fork_limits, forked, fork_found, fork,
}
use free_llama.Scopes.Bounds.{
  Sized, prune-Sized, Limited, unless-Limited, guarded-Limited, ok-Limited, insert_capacity-Sized,
}

module _ (json_bytes : List Message → ℕ) (policy : ScopePolicy)
    (small : policy.total_max_bytes < u64_max) where
  abbrev IsSized : Entries → Type 0
  IsSized = Sized json_bytes policy small

  abbrev IsLimited : Result History ScopeError → Type 0
  IsLimited = Limited json_bytes policy small

  limits-Limited :
      (input : CreateInput) (now : ℕ) (r : Result ScopeLimits ScopeError)
      → IsLimited (create_limits json_bytes r input now)
  limits-Limited input now (err e) h q = cc
  limits-Limited input now (ok l) h q =
      guarded-Limited json_bytes policy small (validate_size json_bytes input.messages l) _
        (λ v. ok-Limited json_bytes policy small _ v) h q

  new_history-Limited :
      (input : CreateInput) (now : ℕ) → IsLimited (new_history json_bytes input policy now)
  unfolding new_history
  new_history-Limited input now = unless-Limited json_bytes policy small _ _ (
      unless-Limited json_bytes policy small _ _
        (limits-Limited input now (resolve input.limits policy)))

  create_checked-Sized :
      (es : Entries) (id : String) (now : ℕ) (r : Result History ScopeError)
      → IsLimited r
      → IsSized es
      → IsSized (create_checked json_bytes es id policy now r).0
  create_checked-Sized es id now (err e) u s = s
  create_checked-Sized es id now (ok h) u s =
      insert_capacity-Sized json_bytes policy small (prune policy now es) id (ok h) u
        (prune-Sized json_bytes policy small now es s)

  pub create-Sized :
      (es : Entries) (id : String) (input : CreateInput) (now : ℕ)
      → IsSized es
      → IsSized (create json_bytes es id input policy now).0
  unfolding create
  create-Sized es id input now s =
      create_checked-Sized es id now _ (new_history-Limited input now) s

  forked-Limited :
      (source : History) (id : String) (input : ForkInput) (now : ℕ)
      (r : Result ScopeLimits ScopeError)
      → IsLimited (forked json_bytes source id input now r)
  forked-Limited source id input now (err e) h q = cc
  forked-Limited source id input now (ok l) h q =
      guarded-Limited json_bytes policy small (validate_size json_bytes source.messages l) _
        (λ v. unless-Limited json_bytes policy small _ _ (ok-Limited json_bytes policy small _ v)) h
        q

  fork_found-Sized :
      (live : Entries) (o : Option History) (id new_id : String) (input : ForkInput) (now : ℕ)
      → IsSized live
      → IsSized (fork_found json_bytes live o id new_id input policy now).0
  fork_found-Sized live none id new_id input now s = s
  fork_found-Sized live (some source) id new_id input now s =
      elim (Bool-cases (not (source.revision == input.revision))) [
        | inl e ↦ rw e s
        | inr e ↦ rw e (
            insert_capacity-Sized json_bytes policy small live new_id _
              (forked-Limited source id input now (fork_limits input.limits source policy)) s)
      ]

  pub fork-Sized :
      (es : Entries) (id new_id : String) (input : ForkInput) (now : ℕ)
      → IsSized es
      → IsSized (fork json_bytes es id new_id input policy now).0
  unfolding fork
  fork-Sized es id new_id input now s =
      fork_found-Sized (prune policy now es) _ id new_id input now
        (prune-Sized json_bytes policy small now es s)
