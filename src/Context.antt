-- ===== src/Context.antt =====
-- The context window that a routed task is sent with (packages/rust-core/src/platform/context.rs and
-- the steps that execution/pipeline.rs takes with it). The length of the messages' JSON is the
-- serializer's, a parameter; a schema stands as its JSON text.

pub mod Steps
pub mod Covers
pub mod Sent
use Prim.Native.String.{len}
use free_llama.Base.{
  add_u64, ℕ, ◌+◌, ◌-◌, ◌/◌, ◌^◌, min, Bool, true, false, not, ◌&&◌, ◌||◌, List, [], ◌∷◌, ◌++◌,
  retain, any, find, Option, none, some, String, same_text, ltb, leb, ◌==◌, is_some, is_some_and,
  is_none_or, if◌then◌else◌, Result, ok, err, lookup,
}
use free_llama.Task.{TaskKind}
use free_llama.Routing.{RouteInput, CatalogModel, Options, RouteDecision}

abbrev pub auto_context_limit : ℕ
auto_context_limit = 32768

abbrev pub template_margin : ℕ
template_margin = 512

unfoldable pub estimated_text_tokens : ℕ → ℕ
estimated_text_tokens bytes = (bytes + 2) / 3

-- The value of a message's field: whether it is a string, and its JSON.
pub record Field : Type 0 where
  pub is_string : Bool
  pub text : String

abbrev pub ContextMessage : Type 0
ContextMessage = List (String × Field)

-- The fields of the task that sizing reads; `warms` is the operation Warm.
pub record ContextInput : Type 0 where
  pub warms : Bool
  pub scope_id : Option String
  pub route : RouteInput
  pub images : Option (List String)
  pub messages : List ContextMessage
  pub prompt : Option String
  pub tools : Option String
  pub format : Option String

-- The receipt of the sizing, by its mode.
pub data ContextReceipt : Type 0 where
  warm_profile : ℕ → ContextReceipt
  explicit : ℕ → ContextReceipt
  profile : String → ContextReceipt
  -- Tokens, estimated text tokens and output reserve.
  scope_explicit_multimodal : ℕ → ℕ → ℕ → ContextReceipt
  -- Tokens, estimated tokens and output reserve.
  scope_explicit_estimate : ℕ → ℕ → ℕ → ContextReceipt
  -- Tokens, estimated tokens, output reserve and automatic cap.
  prompt_estimate : ℕ → ℕ → ℕ → ℕ → ContextReceipt

-- What a bad request says of the context: `required` tokens above an available number of them.
pub data ContextError : Type 0 where
  output_budget_required context_tokens_required : ContextError
  above_context above_cap : ℕ → ℕ → ContextError

-- Whether a task is an embedding or vision.
abbrev pub is_unestimated_task : TaskKind → Bool
is_unestimated_task TaskKind.embedding = true
is_unestimated_task TaskKind.vision = true
is_unestimated_task task = false

abbrev pub is_nonempty : List String → Bool
is_nonempty [] = false
is_nonempty (x ∷ xs) = true

abbrev pub has_media : ContextMessage → Bool
has_media message =
    is_some (lookup "images" message)
    || is_some (lookup "audio" message)
    || is_some_and (lookup "content" message) (λ content. not content.is_string)

unfoldable pub has_unestimated_modality : ContextInput → Bool
has_unestimated_modality input =
    is_unestimated_task input.route.task
    || is_some_and input.images is_nonempty
    || any has_media input.messages

abbrev pub is_text_field : String × Field → Bool
is_text_field (key, value) =
    not (same_text key "images" || same_text key "audio")
    && (not (same_text key "content") || value.is_string)

abbrev pub text_fields : List ContextMessage → List ContextMessage
text_fields [] = []
text_fields (message ∷ messages) = retain is_text_field message ∷ text_fields messages

-- The estimate with that of a schema, where there is one.
abbrev pub add_schema : ℕ → Option String → ℕ
add_schema estimated none = estimated
add_schema estimated (some schema) = add_u64 estimated (estimated_text_tokens (len schema))

abbrev pub with_schemas : ContextInput → ℕ → ℕ
with_schemas input bytes =
    add_schema (add_schema (estimated_text_tokens bytes) input.tools) input.format

unfoldable pub required_tokens : ℕ → ℕ → ℕ
required_tokens estimated output = add_u64 (add_u64 estimated output) template_margin

-- What sizing answers: the receipt and the decision that it leaves.
abbrev pub Sizing : Type 0
Sizing = Result (ContextReceipt × RouteDecision) ContextError

abbrev pub prompt_bytes : Option String → ℕ
prompt_bytes none = 0
prompt_bytes (some prompt) = len prompt

abbrev pub buckets : List ℕ
buckets = 2048 ∷ 4096 ∷ 8192 ∷ 16384 ∷ auto_context_limit ∷ []

abbrev pub found_or : Option ℕ → ℕ → ℕ
found_or none d = d
found_or (some a) d = a

-- The least bucket that is large enough, and at most the cap.
unfoldable pub select_bucket : ℕ → ℕ → ℕ
select_bucket required cap = min (found_or (find (leb required) buckets) cap) cap

unfoldable pub automatic_cap : CatalogModel → ℕ → ℕ
automatic_cap model num_ctx = min (found_or model.advertised_context num_ctx) auto_context_limit

abbrev pub set_num_ctx : RouteDecision → ℕ → List String → RouteDecision
set_num_ctx d n reasons = record d {
  options = record { num_ctx = n; num_predict = d.options.num_predict };
  reasons = reasons;
}

-- The automatic size, given the estimate and the output budget.
unfoldable pub size_automatic : RouteDecision → CatalogModel → ℕ → ℕ → Sizing
size_automatic d model estimated output =
    let required = required_tokens estimated output in
    let cap = automatic_cap model d.options.num_ctx in
    let selected = select_bucket required cap in
    if ltb cap required
    then err (ContextError.above_cap required cap)
    else ok (
      ContextReceipt.prompt_estimate selected estimated output cap,
      set_num_ctx d selected (
          retain (λ reason. not (same_text reason "context_clamped_to_advertised")) d.reasons
          ++ ("context_sized_from_execution_payload" ∷ [])),
    )

abbrev pub explicit_receipt : Bool → ℕ → ℕ → ℕ → ContextReceipt
explicit_receipt true = ContextReceipt.scope_explicit_multimodal
explicit_receipt false = ContextReceipt.scope_explicit_estimate

module _ (json_bytes : List ContextMessage → ℕ) where
  abbrev pub scoped_bytes : Bool → ContextInput → ℕ
  scoped_bytes true input = json_bytes (text_fields input.messages)
  scoped_bytes false input = json_bytes input.messages

  abbrev pub check_scoped : ContextInput → RouteDecision → Bool → ℕ → Sizing
  check_scoped input d modality output =
      let estimated = with_schemas input (scoped_bytes modality input) in
      let required = required_tokens estimated output in
      if ltb d.options.num_ctx required
      then err (ContextError.above_context required d.options.num_ctx)
      else ok (explicit_receipt modality d.options.num_ctx estimated output, d)

  unfoldable pub size_scoped_explicit_context :
      ContextInput → RouteDecision → Bool → Option ℕ → Sizing
  size_scoped_explicit_context input d modality none = err ContextError.output_budget_required
  size_scoped_explicit_context input d modality (some output) = check_scoped input d modality output

  abbrev pub payload_bytes : ContextInput → List ContextMessage → ℕ
  payload_bytes input [] = prompt_bytes input.prompt
  payload_bytes input (m ∷ messages) = json_bytes (m ∷ messages)

  abbrev pub size_bounded : ContextInput → RouteDecision → CatalogModel → Option ℕ → Sizing
  size_bounded input d model none =
      if is_some input.scope_id
      then err ContextError.output_budget_required
      else ok (ContextReceipt.profile "output_budget_not_bounded", d)
  size_bounded input d model (some output) =
      size_automatic d model (with_schemas input (payload_bytes input input.messages)) output

  abbrev pub size_checked : ContextInput → RouteDecision → CatalogModel → Bool → Sizing
  size_checked input d model modality =
      if is_some input.scope_id && is_some input.route.context_tokens
      then size_scoped_explicit_context input d modality d.options.num_predict
      else if is_some input.route.context_tokens
      then ok (ContextReceipt.explicit d.options.num_ctx, d)
      else if not (is_some input.scope_id) && modality
      then ok (ContextReceipt.profile "modality_requires_model_specific_estimator", d)
      else size_bounded input d model d.options.num_predict

  unfoldable pub size_context : ContextInput → RouteDecision → CatalogModel → Sizing
  size_context input d model =
      let modality = has_unestimated_modality input in
      if input.warms
      then ok (ContextReceipt.warm_profile d.options.num_ctx, d)
      else if is_some input.scope_id && is_none_or d.options.num_predict (λ output. output == 0)
      then err ContextError.output_budget_required
      else if is_some input.scope_id && modality && not (is_some input.route.context_tokens)
      then err ContextError.context_tokens_required
      else size_checked input d model modality
