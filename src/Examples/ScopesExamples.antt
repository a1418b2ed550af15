-- ===== src/Examples/ScopesExamples.antt =====
-- Histories over a small store (packages/rust-core/src/platform/scopes.rs).
use free_llama.Base.{
  ℕ, ◌*◌, ◌≡◌, refl, true, false, List, [], ◌∷◌, none, some, String, length, lookup, ok, insert,
  remove, arith,
}
use free_llama.Routing.{default_input}
use free_llama.Scopes.{
  Message, RouteDefaults, ScopeLimits, ScopeLimitsInput, default_policy, resolve, bounded,
  validate_messages, history_tokens, validate_size, with_defaults, apply,
}
use free_llama.Scopes.Store.{
  History, CreateInput, prune, total_bytes, capacity, new_history, create,
}
use free_llama.Scopes.Lease.{TaskInput, prepare}
use free_llama.Scopes.Commit.{Response, candidate, append, release, commit}
use free_llama.Scopes.Histories.{
  ScopeState, ScopeEvent, creates, prepares, commits, drops, no_scopes, scope_step, scope_run,
}
use free_llama.Scopes.Append.{Grows}
use free_llama.Scopes.Append.Runs.{Owned, scope_run-Grows}
use free_llama.Scopes.Bounds.{Sized}
use free_llama.Scopes.Bounds.Runs.{scope_run-Sized}

-- Ten bytes for each message.
abbrev ten_each : List Message → ℕ
ten_each messages = length messages * 10

abbrev say : String → Message
say role = record {
  role = some role;
  content_is_string = some true;
  tool_calls_is_array = none;
  body = "";
}

abbrev no_defaults : RouteDefaults
no_defaults = record {
  task = none;
  objective = none;
  model = none;
  required_capabilities = none;
  context_tokens = none;
  execution_preference = none;
  min_placement_evidence = none;
  min_confidence = none;
}

abbrev own_limits : ScopeLimitsInput
own_limits = record {
  max_messages = some 8;
  max_bytes = none;
  max_estimated_tokens = none;
  ttl_seconds = some 60;
}

abbrev first : CreateInput
first = record { messages = say "system" ∷ []; route_defaults = no_defaults; limits = own_limits }

abbrev ask : ℕ → TaskInput
ask revision = record {
  scope_id = some "a";
  scope_revision = some revision;
  has_input = false;
  messages = [];
  prompt = some (say "user");
  route = default_input;
  route_fields = λ key. false;
}

abbrev reply : Response
reply = record { done = true; message = say "assistant"; fits_result = true; late = false }

-- A task appends, another is refused, and a third is dropped.
abbrev turns : List ScopeEvent
turns =
    prepares (ask 0) 2
    ∷ prepares (ask 0) 3
    ∷ commits 0 reply 4
    ∷ prepares (ask 0) 5
    ∷ prepares (ask 1) 6
    ∷ drops 0
    ∷ []

abbrev limits : ScopeLimits
limits = record {
  max_messages = 8;
  max_bytes = 1048576;
  max_estimated_tokens = 32768;
  ttl_seconds = 60;
}

abbrev started : History
started = record {
  revision = 0;
  messages = say "system" ∷ [];
  defaults = no_defaults;
  limits = limits;
  touched = 1;
  expires_at = 61;
  lease = none;
  forked_from = none;
}

abbrev answered : History
answered = record {
  revision = 1;
  messages = say "system" ∷ say "user" ∷ say "assistant" ∷ [];
  defaults = no_defaults;
  limits = limits;
  touched = 4;
  expires_at = 64;
  lease = none;
  forked_from = none;
}

abbrev one_scope : ScopeState
one_scope = record { entries = ("a", started) ∷ []; next_lease = 0; leases = [] }

created_first : (create ten_each [] "a" first default_policy 1).1 ≡ ok started
unfolding create new_history resolve validate_messages validate_size history_tokens capacity
    total_bytes prune insert remove
created_first = refl

after_turns : lookup "a" (scope_run ten_each default_policy one_scope turns).entries ≡ some answered
unfolding scope_step prepare commit append release candidate with_defaults apply bounded
    validate_messages validate_size history_tokens total_bytes prune insert remove lookup
after_turns = refl

found_first : lookup "a" one_scope.entries ≡ some started
unfolding lookup
found_first = refl

one_scope-Owned : Owned one_scope
unfolding lookup
one_scope-Owned = record { unique = (refl, tt); older = tt; guards = tt }

scope_run-Grows_example : Grows started answered
scope_run-Grows_example =
    scope_run-Grows ten_each default_policy "a" turns one_scope started answered one_scope-Owned
      (tt, refl, (tt, refl, (tt, refl, (tt, refl, (tt, refl, (tt, refl, tt)))))) found_first
      after_turns

scope_run-Sized_example :
    Sized ten_each default_policy
      (omega arith)
      (scope_run ten_each default_policy no_scopes (creates "a" first 1 ∷ turns)).entries
scope_run-Sized_example =
    scope_run-Sized ten_each default_policy (omega arith) (creates "a" first 1 ∷ turns)
