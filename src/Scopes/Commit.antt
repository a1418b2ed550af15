-- ===== src/Scopes/Commit.antt =====
-- The append that a lease owns and the end of the lease
-- (packages/rust-core/src/platform/scopes.rs, `ScopeLease::commit` and `drop`).
use free_llama.Base.{
  add_u64, ℕ, ◌+◌, ◌-◌, Bool, not, ◌&&◌, List, [], ◌∷◌, ◌++◌, Option, none, some, same_text, ltb,
  ◌==◌, is_some, is_some_and, if◌then◌else◌, lookup, insert,
}
use free_llama.Scopes.{ScopePolicy, ScopeError, Message, bounded, validate_messages, validate_size}
use free_llama.Scopes.Store.{History, Entries, prune, total_bytes}
use free_llama.Scopes.Lease.{ScopeLease}

-- What a commit is given: whether the response is done, its message, whether the result with its
-- receipt fits the job's budget, and whether the deadline has passed.
pub record Response : Type 0 where
  pub done : Bool
  pub message : Message
  pub fits_result : Bool
  pub late : Bool

abbrev pub assistant_error : Response → Option ScopeError
assistant_error r =
    if not r.done
    then some ScopeError.scope_response_invalid
    else if is_some (validate_messages (r.message ∷ []))
    then some ScopeError.scope_response_invalid
    else if not (is_some_and r.message.role (λ role. same_text role "assistant"))
    then some ScopeError.scope_response_invalid
    else none

-- The history after the append.
unfoldable pub candidate : History → List Message → ℕ → History
candidate h messages now = record {
  revision = h.revision + 1;
  messages = messages;
  defaults = h.defaults;
  limits = h.limits;
  touched = now;
  expires_at = add_u64 now h.limits.ttl_seconds;
  lease = none;
  forked_from = h.forked_from;
}

abbrev pub holds_lease : ScopeLease → History → Bool
holds_lease l h = h.revision == l.revision && is_some_and h.lease (λ id. id == l.lease_id)

abbrev pub result_error : Response → Option ScopeError
result_error r =
    if not r.fits_result
    then some ScopeError.task_job_result_too_large
    else if r.late
    then some ScopeError.commit_deadline_exceeded
    else none

abbrev pub first_error : Option ScopeError → Option ScopeError → Option ScopeError
first_error none later = later
first_error (some e) later = some e

abbrev pub append_unless :
    Option ScopeError
    → Entries
    → ScopeLease
    → History
    → List Message
    → ℕ
    → Entries × Option ScopeError
append_unless (some e) live l h messages now = (live, some e)
append_unless none live l h messages now = (insert l.id (candidate h messages now) live, none)

module _ (json_bytes : List Message → ℕ) where
  abbrev pub over_total : Entries → List Message → List Message → ScopePolicy → Option ScopeError
  over_total live old new policy =
      if ltb policy.total_max_bytes
        (add_u64 (total_bytes json_bytes live - json_bytes old) (json_bytes new))
      then some ScopeError.scope_capacity_exceeded
      else none

  abbrev pub append_checked :
      Entries
      → ScopeLease
      → History
      → List Message
      → Response
      → ScopePolicy
      → ℕ
      → Entries × Option ScopeError
  append_checked live l h messages r policy now =
      append_unless
        (first_error (validate_size json_bytes messages (bounded h.limits policy))
          (first_error (over_total live h.messages messages policy) (result_error r)))
        live l h messages now

  abbrev pub append_found :
      Entries
      → ScopeLease
      → Option History
      → Response
      → ScopePolicy
      → ℕ
      → Entries × Option ScopeError
  append_found live l none r policy now = (live, some ScopeError.scope_not_found)
  append_found live l (some h) r policy now =
      if not (holds_lease l h)
      then (live, some ScopeError.scope_revision_conflict)
      else append_checked live l h (l.messages ++ (r.message ∷ [])) r policy now

  abbrev pub append_valid :
      Option ScopeError
      → Entries
      → ScopeLease
      → Response
      → ScopePolicy
      → ℕ
      → Entries × Option ScopeError
  append_valid (some e) entries l r policy now = (entries, some e)
  append_valid none entries l r policy now =
      let live = prune policy now entries in append_found live l (lookup l.id live) r policy now

  -- The body of `commit`, before the lease is dropped.
  unfoldable pub append :
      Entries → ScopeLease → Response → ScopePolicy → ℕ → Entries × Option ScopeError
  append entries l r policy now = append_valid (assistant_error r) entries l r policy now

abbrev pub release_found : Entries → ScopeLease → Option History → Entries
release_found entries l none = entries
release_found entries l (some h) =
    if is_some_and h.lease (λ id. id == l.lease_id)
    then insert l.id (record h { lease = none }) entries
    else entries

-- `Drop` of a lease.
unfoldable pub release : Entries → ScopeLease → Entries
release entries l = release_found entries l (lookup l.id entries)

module _ (json_bytes : List Message → ℕ) where
  -- `commit` consumes the lease, so that it is dropped on every path.
  unfoldable pub commit :
      Entries → ScopeLease → Response → ScopePolicy → ℕ → Entries × Option ScopeError
  commit entries l r policy now =
      let appended = append json_bytes entries l r policy now in (release appended.0 l, appended.1)
