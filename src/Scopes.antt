-- ===== src/Scopes.antt =====
-- Process-local histories (packages/rust-core/src/platform/scopes.rs): the policy, the limits, the
-- messages and the store. The length of the messages' JSON is the serializer's, a parameter of
-- what reads it. Instants are in seconds.
pub mod Store
pub mod Lease
pub mod Commit
pub mod Histories
pub mod Append
pub mod Bounds
use free_llama.Base.{
  ℕ, ◌+◌, ◌/◌, min, Bool, true, false, not, ◌&&◌, ◌||◌, List, [], ◌∷◌, Option, none, some, String,
  same_text, ltb, ◌==◌, length, is_some, is_some_and, if◌then◌else◌, Result, ok, err,
}
use free_llama.Task.{TaskKind}
use free_llama.Capability.{CapabilitySet}
use free_llama.Routing.{Objective, ExecutionPreference, PlacementEvidence, RouteInput}

pub record ScopePolicy : Type 0 where
  pub max_count : ℕ
  pub max_messages : ℕ
  pub max_bytes : ℕ
  pub max_estimated_tokens : ℕ
  pub total_max_bytes : ℕ
  pub ttl_seconds : ℕ

abbrev pub default_policy : ScopePolicy
default_policy = record {
  max_count = 128;
  max_messages = 256;
  max_bytes = 1048576;
  max_estimated_tokens = 32768;
  total_max_bytes = 16777216;
  ttl_seconds = 3600;
}

pub record ScopeLimitsInput : Type 0 where
  pub max_messages : Option ℕ
  pub max_bytes : Option ℕ
  pub max_estimated_tokens : Option ℕ
  pub ttl_seconds : Option ℕ

pub record ScopeLimits : Type 0 where
  pub max_messages : ℕ
  pub max_bytes : ℕ
  pub max_estimated_tokens : ℕ
  pub ttl_seconds : ℕ

-- The codes of the errors.
pub data ScopeError : Type 0 where
  scope_limit_invalid scope_embedding_unsupported scope_capacity_exceeded : ScopeError
  scope_reference_invalid scope_not_found scope_revision_conflict scope_busy : ScopeError
  scope_history_limit_exceeded scope_response_invalid task_job_result_too_large : ScopeError
  commit_deadline_exceeded bad_request : ScopeError

abbrev given_or : Option ℕ → ℕ → ℕ
given_or none d = d
given_or (some a) d = a

abbrev pub is_outside : ℕ → ℕ → Bool
is_outside value cap = value == 0 || ltb cap value

unfoldable pub resolve : ScopeLimitsInput → ScopePolicy → Result ScopeLimits ScopeError
resolve input policy =
    let result : ScopeLimits = record {
      max_messages = given_or input.max_messages policy.max_messages;
      max_bytes = given_or input.max_bytes policy.max_bytes;
      max_estimated_tokens = given_or input.max_estimated_tokens policy.max_estimated_tokens;
      ttl_seconds = given_or input.ttl_seconds policy.ttl_seconds;
    } in
    if is_outside result.max_messages policy.max_messages
      || is_outside result.max_bytes policy.max_bytes
      || is_outside result.max_estimated_tokens policy.max_estimated_tokens
      || is_outside result.ttl_seconds policy.ttl_seconds
    then err scope_limit_invalid
    else ok result

unfoldable pub bounded : ScopeLimits → ScopePolicy → ScopeLimits
bounded l policy = record {
  max_messages = min l.max_messages policy.max_messages;
  max_bytes = min l.max_bytes policy.max_bytes;
  max_estimated_tokens = min l.max_estimated_tokens policy.max_estimated_tokens;
  ttl_seconds = min l.ttl_seconds policy.ttl_seconds;
}

-- A message, as far as the store reads it: `content` and `tool_calls` say whether the field has the
-- type that is asked for, where it is there.
pub record Message : Type 0 where
  pub role : Option String
  pub content_is_string : Option Bool
  pub tool_calls_is_array : Option Bool
  pub body : String

abbrev pub supported_role : String → Bool
supported_role role =
    same_text role "system"
    || same_text role "user"
    || same_text role "assistant"
    || same_text role "tool"

abbrev pub is_false : Option Bool → Bool
is_false none = false
is_false (some b) = not b

abbrev pub is_valid : Message → Bool
is_valid m =
    is_some_and m.role supported_role
    && not (is_false m.content_is_string)
    && not (is_false m.tool_calls_is_array)

unfoldable pub validate_messages : List Message → Option ScopeError
validate_messages [] = none
validate_messages (m ∷ messages) =
    let rest = validate_messages messages in if is_valid m then rest else some bad_request

module _ (json_bytes : List Message → ℕ) where
  -- `history_size` and `estimated_text_tokens`, a third of the bytes, rounded up.
  unfoldable pub history_tokens : List Message → ℕ
  history_tokens messages = (json_bytes messages + 2) / 3

  unfoldable pub validate_size : List Message → ScopeLimits → Option ScopeError
  validate_size messages l =
      if ltb l.max_messages (length messages)
        || ltb l.max_bytes (json_bytes messages)
        || ltb l.max_estimated_tokens (history_tokens messages)
      then some scope_history_limit_exceeded
      else none

-- Route defaults; a field that the caller leaves out is `none`.
pub record RouteDefaults : Type 0 where
  pub task : Option TaskKind
  pub objective : Option Objective
  pub model : Option String
  pub required_capabilities : Option CapabilitySet
  pub context_tokens : Option ℕ
  pub execution_preference : Option ExecutionPreference
  pub min_placement_evidence : Option PlacementEvidence
  pub min_confidence : Option String

abbrev pub override {ℓ} : {A : Type ℓ} → Bool → Option A → A → A
override supplied none value = value
override true (some d) value = value
override false (some d) value = d

abbrev pub override_option {ℓ} : {A : Type ℓ} → Bool → Option A → Option A → Option A
override_option supplied none value = value
override_option true (some d) value = value
override_option false (some d) value = some d

abbrev pub is_embedding : TaskKind → Bool
is_embedding TaskKind.embedding = true
is_embedding task = false

-- The route with the defaults of the fields that the caller did not supply.
unfoldable pub with_defaults : RouteDefaults → (String → Bool) → RouteInput → RouteInput
with_defaults d supplied route = record route {
  task = override (supplied "task") d.task route.task;
  objective = override (supplied "objective") d.objective route.objective;
  model = override_option (supplied "model") d.model route.model;
  required_capabilities =
      override (supplied "required_capabilities") d.required_capabilities
        route.required_capabilities;
  context_tokens =
      override_option (supplied "context_tokens") d.context_tokens route.context_tokens;
  execution_preference =
      override (supplied "execution_preference") d.execution_preference route.execution_preference;
  min_placement_evidence =
      override (supplied "min_placement_evidence") d.min_placement_evidence
        route.min_placement_evidence;
  min_confidence =
      override_option (supplied "min_confidence") d.min_confidence route.min_confidence;
}

unfoldable pub apply : RouteDefaults → (String → Bool) → RouteInput → Result RouteInput ScopeError
apply d supplied route =
    let applied = with_defaults d supplied route in
    if is_embedding applied.task then err scope_embedding_unsupported else ok applied
