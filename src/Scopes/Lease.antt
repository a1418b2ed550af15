-- ===== src/Scopes/Lease.antt =====
-- A lease of a history's revision, which a task takes for the append that it owns
-- (packages/rust-core/src/platform/scopes.rs, `prepare`). Lease ids are numbers in the order of creation.
use free_llama.Base.{
  ℕ, ◌+◌, Bool, not, List, [], ◌∷◌, ◌++◌, Option, none, some, String, ◌==◌, is_some, if◌then◌else◌,
  Result, ok, err, lookup, insert,
}
use free_llama.Routing.{RouteInput}
use free_llama.Scopes.{
  ScopePolicy, ScopeError, Message, bounded, validate_messages, validate_size, apply,
}
use free_llama.Scopes.Store.{History, Entries, prune, unless}

-- The task's fields that `prepare` reads; `prompt` is the message that is made of the prompt.
pub record TaskInput : Type 0 where
  pub scope_id : Option String
  pub scope_revision : Option ℕ
  pub has_input : Bool
  pub messages : List Message
  pub prompt : Option Message
  pub route : RouteInput
  pub route_fields : String → Bool

pub record ScopeLease : Type 0 where
  pub id : String
  pub revision : ℕ
  pub lease_id : ℕ
  pub messages : List Message
  pub route : RouteInput

pub record Prepared : Type 0 where
  pub entries : Entries
  pub next_lease : ℕ
  pub lease : Result (Option ScopeLease) ScopeError

abbrev pub additions : List Message → Option Message → Result (List Message) ScopeError
additions (m ∷ messages) prompt = ok (m ∷ messages)
additions [] (some prompt) = ok (prompt ∷ [])
additions [] none = err ScopeError.bad_request

abbrev pub take_lease :
    Entries → ℕ → String → History → RouteInput → Result (List Message) ScopeError → Prepared
take_lease live next id h route (err e) = record {
  entries = live;
  next_lease = next;
  lease = err e;
}
take_lease live next id h route (ok messages) = record {
  entries = insert id (record h { lease = some next }) live;
  next_lease = next + 1;
  lease = ok (
      some (record {
        id = id;
        revision = h.revision;
        lease_id = next;
        messages = messages;
        route = route;
      }));
}

module _ (json_bytes : List Message → ℕ) where
  -- The new messages of a lease, where every check passes.
  abbrev pub lease_messages :
      History → ScopePolicy → Result (List Message) ScopeError → Result (List Message) ScopeError
  lease_messages h policy (err e) = err e
  lease_messages h policy (ok added) = unless (validate_messages added) (
      unless (validate_size json_bytes (h.messages ++ added) (bounded h.limits policy))
        (ok (h.messages ++ added)))

  abbrev pub prepare_route :
      Entries
      → ℕ
      → String
      → History
      → TaskInput
      → ScopePolicy
      → Result RouteInput ScopeError
      → Prepared
  prepare_route live next id h input policy (err e) = record {
    entries = live;
    next_lease = next;
    lease = err e;
  }
  prepare_route live next id h input policy (ok route) =
      take_lease live next id h route
        (lease_messages h policy (additions input.messages input.prompt))

  abbrev pub prepare_found :
      Entries → ℕ → String → ℕ → Option History → TaskInput → ScopePolicy → Prepared
  prepare_found live next id revision none input policy = record {
    entries = live;
    next_lease = next;
    lease = err ScopeError.scope_not_found;
  }
  prepare_found live next id revision (some h) input policy =
      if not (h.revision == revision)
      then record {
        entries = live;
        next_lease = next;
        lease = err ScopeError.scope_revision_conflict;
      }
      else if is_some h.lease
      then record { entries = live; next_lease = next; lease = err ScopeError.scope_busy }
      else prepare_route live next id h input policy
          (apply h.defaults input.route_fields input.route)

  abbrev pub prepare_named :
      Entries → ℕ → Option String → Option ℕ → TaskInput → ScopePolicy → ℕ → Prepared
  prepare_named entries next none none input policy now = record {
    entries = entries;
    next_lease = next;
    lease = ok none;
  }
  prepare_named entries next none (some revision) input policy now = record {
    entries = entries;
    next_lease = next;
    lease = err ScopeError.scope_reference_invalid;
  }
  prepare_named entries next (some id) none input policy now = record {
    entries = entries;
    next_lease = next;
    lease = err ScopeError.scope_reference_invalid;
  }
  prepare_named entries next (some id) (some revision) input policy now =
      if input.has_input
      then record {
        entries = entries;
        next_lease = next;
        lease = err ScopeError.scope_embedding_unsupported;
      }
      else let live = prune policy now entries in
        prepare_found live next id revision (lookup id live) input policy

  unfoldable pub prepare : Entries → ℕ → TaskInput → ScopePolicy → ℕ → Prepared
  prepare entries next input policy now =
      prepare_named entries next input.scope_id input.scope_revision input policy now
