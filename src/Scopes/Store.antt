-- ===== src/Scopes/Store.antt =====
-- The store of histories (packages/rust-core/src/platform/scopes.rs, `ScopeStore`): `prune`, `capacity`, `create`,
-- `get`, `fork` and deletion. A new id is the caller's fresh UUID.
use free_llama.Base.{
  add_u64, ℕ, ◌+◌, ◌-◌, min, Bool, not, ◌||◌, List, [], ◌∷◌, retain, Option, none, some, String,
  ltb, leb, ◌==◌, length, is_some, is_some_and, if◌then◌else◌, Result, ok, err, lookup, insert,
  remove,
}
use free_llama.Scopes.{
  ScopePolicy, ScopeLimitsInput, ScopeLimits, ScopeError, Message, RouteDefaults, resolve, bounded,
  validate_messages, validate_size, is_embedding,
}

pub record History : Type 0 where
  pub revision : ℕ
  pub messages : List Message
  pub defaults : RouteDefaults
  pub limits : ScopeLimits
  pub touched : ℕ
  pub expires_at : ℕ
  pub lease : Option ℕ
  pub forked_from : Option (String × ℕ)

abbrev pub Entries : Type 0
Entries = List (String × History)

abbrev pub is_fresh : ScopePolicy → ℕ → String × History → Bool
is_fresh policy now (id, h) = ltb (now - h.touched) (min h.limits.ttl_seconds policy.ttl_seconds)

unfoldable pub prune : ScopePolicy → ℕ → Entries → Entries
prune policy now entries = retain (is_fresh policy now) entries

-- `?` on a check that answers an error or nothing.
abbrev pub unless : {A : Type 0} → Option ScopeError → Result A ScopeError → Result A ScopeError
unless (some e) r = err e
unless none r = r

pub record CreateInput : Type 0 where
  pub messages : List Message
  pub route_defaults : RouteDefaults
  pub limits : ScopeLimitsInput

pub record ForkInput : Type 0 where
  pub revision : ℕ
  pub route_defaults : Option RouteDefaults
  pub limits : Option ScopeLimitsInput

abbrev pub check_embedding : RouteDefaults → Option ScopeError
check_embedding d =
    if is_some_and d.task is_embedding then some ScopeError.scope_embedding_unsupported else none

-- What an operation answers, and the entries that it leaves.
abbrev pub Answer : Type 0 → Type 0
Answer A = Entries × Result A ScopeError

abbrev pub insert_new : Entries → String → Result History ScopeError → Answer History
insert_new entries id (ok h) = (insert id h entries, ok h)
insert_new entries id (err e) = (entries, err e)

abbrev pub fork_limits :
    Option ScopeLimitsInput → History → ScopePolicy → Result ScopeLimits ScopeError
fork_limits (some l) source policy = resolve l policy
fork_limits none source policy = ok (bounded source.limits policy)

abbrev pub fork_defaults : Option RouteDefaults → History → RouteDefaults
fork_defaults (some d) source = d
fork_defaults none source = source.defaults

module _ (json_bytes : List Message → ℕ) where
  unfoldable pub total_bytes : Entries → ℕ
  total_bytes [] = 0
  total_bytes ((id, h) ∷ entries) = json_bytes h.messages + total_bytes entries

  unfoldable pub capacity : Entries → ℕ → ScopePolicy → Option ScopeError
  capacity entries bytes policy =
      if leb policy.max_count (length entries)
        || ltb policy.total_max_bytes (add_u64 (total_bytes entries) bytes)
      then some ScopeError.scope_capacity_exceeded
      else none

  abbrev pub insert_capacity :
      Entries → String → ScopePolicy → Result History ScopeError → Answer History
  insert_capacity live id policy (err e) = (live, err e)
  insert_capacity live id policy (ok h) =
      insert_new live id (unless (capacity live (json_bytes h.messages) policy) (ok h))

  abbrev pub create_limits :
      Result ScopeLimits ScopeError → CreateInput → ℕ → Result History ScopeError
  create_limits (err e) input now = err e
  create_limits (ok l) input now = unless (validate_size json_bytes input.messages l) (
      ok (record {
        revision = 0;
        messages = input.messages;
        defaults = input.route_defaults;
        limits = l;
        touched = now;
        expires_at = add_u64 now l.ttl_seconds;
        lease = none;
        forked_from = none;
      }))

  -- The checks of `create` before the lock is taken.
  unfoldable pub new_history : CreateInput → ScopePolicy → ℕ → Result History ScopeError
  new_history input policy now = unless (validate_messages input.messages) (
      unless (check_embedding input.route_defaults)
        (create_limits (resolve input.limits policy) input now))

  abbrev pub create_checked :
      Entries → String → ScopePolicy → ℕ → Result History ScopeError → Answer History
  create_checked entries id policy now (err e) = (entries, err e)
  create_checked entries id policy now (ok h) =
      insert_capacity (prune policy now entries) id policy (ok h)

  unfoldable pub create : Entries → String → CreateInput → ScopePolicy → ℕ → Answer History
  create entries id input policy now =
      create_checked entries id policy now (new_history input policy now)

  abbrev pub forked :
      History → String → ForkInput → ℕ → Result ScopeLimits ScopeError → Result History ScopeError
  forked source id input now (err e) = err e
  forked source id input now (ok l) =
      let defaults = fork_defaults input.route_defaults source in
      unless (validate_size json_bytes source.messages l) (
        unless (check_embedding defaults) (
          ok (record {
            revision = 0;
            messages = source.messages;
            defaults = defaults;
            limits = l;
            touched = now;
            expires_at = add_u64 now l.ttl_seconds;
            lease = none;
            forked_from = some (id, input.revision);
          })))

  abbrev pub fork_found :
      Entries → Option History → String → String → ForkInput → ScopePolicy → ℕ → Answer History
  fork_found live none id new_id input policy now = (live, err ScopeError.scope_not_found)
  fork_found live (some source) id new_id input policy now =
      if not (source.revision == input.revision)
      then (live, err ScopeError.scope_revision_conflict)
      else insert_capacity live new_id policy
          (forked source id input now (fork_limits input.limits source policy))

  unfoldable pub fork : Entries → String → String → ForkInput → ScopePolicy → ℕ → Answer History
  fork entries id new_id input policy now =
      let live = prune policy now entries in
      fork_found live (lookup id live) id new_id input policy now

unfoldable pub get : Entries → String → ScopePolicy → ℕ → Entries × Option History
get entries id policy now = let live = prune policy now entries in (live, lookup id live)

-- The handler `delete`; whether it found the history.
unfoldable pub delete : Entries → String → ScopePolicy → ℕ → Entries × Bool
delete entries id policy now =
    let live = prune policy now entries in (remove id live, is_some (lookup id live))
