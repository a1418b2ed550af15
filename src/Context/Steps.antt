-- ===== src/Context/Steps.antt =====
-- The steps that the pipeline takes with the context after it is sized: the window of a resident
-- runner and Ollama's own default (packages/rust-core/src/platform/context.rs,
-- `reuse_resident_context`, and execution/pipeline.rs). What the backend answers is an input.
use free_llama.Base.{
  ℕ, Bool, true, false, not, ◌&&◌, ◌||◌, List, [], ◌∷◌, ◌++◌, Option, none, some, String, same_text,
  ltb, leb, ◌==◌, is_some, is_some_and, is_none_or, if◌then◌else◌, Result, ok, err,
}
use free_llama.Routing.{CatalogModel, RouteDecision}
use free_llama.Context.{
  ContextInput, ContextMessage, ContextReceipt, ContextError, Sizing, set_num_ctx, size_context,
}

-- A runner that the backend reports as loaded.
pub record Loaded : Type 0 where
  pub context_length : Option ℕ
  pub digest : Option String

abbrev pub same_revision : Option String → Option String → Bool
same_revision (some expected) (some actual) = same_text expected actual
same_revision none actual = false
same_revision (some expected) none = false

abbrev pub push_reason : RouteDecision → ℕ → String → RouteDecision
push_reason d n reason = set_num_ctx d n (d.reasons ++ (reason ∷ []))

abbrev pub reuse_context :
    RouteDecision → CatalogModel → Loaded → Option ℕ → RouteDecision × Option ℕ
reuse_context d model loaded none = (d, none)
reuse_context d model loaded (some context) =
    if not (same_revision model.digest loaded.digest)
      || ltb context d.options.num_ctx
      || context == d.options.num_ctx
    then (d, none)
    else (push_reason d context "context_reused_from_resident_runner", some context)

-- The decision and the reused size.
unfoldable pub reuse_resident_context :
    RouteDecision → CatalogModel → Option Loaded → RouteDecision × Option ℕ
reuse_resident_context d model none = (d, none)
reuse_resident_context d model (some loaded) = reuse_context d model loaded loaded.context_length

pub data ContextMode : Type 0 where
  explicit ollama_default : ContextMode

pub record Tunables : Type 0 where
  pub context_mode : ContextMode
  pub auto_context_max : ℕ

abbrev pub is_ollama_default : ContextMode → Bool
is_ollama_default ContextMode.explicit = false
is_ollama_default ContextMode.ollama_default = true

abbrev pub is_prompt_estimate : ContextReceipt → Bool
is_prompt_estimate (ContextReceipt.prompt_estimate tokens estimated output cap) = true
is_prompt_estimate (ContextReceipt.warm_profile tokens) = false
is_prompt_estimate (ContextReceipt.explicit tokens) = false
is_prompt_estimate (ContextReceipt.profile reason) = false
is_prompt_estimate (ContextReceipt.scope_explicit_multimodal tokens estimated output) = false
is_prompt_estimate (ContextReceipt.scope_explicit_estimate tokens estimated output) = false

abbrev pub loaded_otherwise : Option Loaded → ℕ → Bool
loaded_otherwise none default = false
loaded_otherwise (some loaded) default =
    is_some_and loaded.context_length (λ context. not (context == default))

abbrev pub leave_default :
    Tunables → RouteDecision → CatalogModel → Option Loaded → Option ℕ → RouteDecision × Option ℕ
leave_default t d model loaded none = (d, none)
leave_default t d model loaded (some default) =
    if ltb default d.options.num_ctx
      || ltb t.auto_context_max default
      || not (is_none_or model.advertised_context (λ window. leb default window))
    then (d, none)
    else if d.resident && loaded_otherwise loaded default
    then (d, none)
    else (push_reason d default "context_left_to_ollama_default", some default)

-- The decision and the default that the context is left to, given the one that Ollama is known to
-- use and the runner that it reports as loaded then.
unfoldable pub context_left_to_ollama :
    Tunables
    → RouteDecision
    → CatalogModel
    → ContextReceipt
    → Option ℕ
    → Option Loaded
    → Option ℕ
    → RouteDecision × Option ℕ
context_left_to_ollama t d model receipt reused loaded default =
    if not (is_ollama_default t.context_mode) || not (is_prompt_estimate receipt) || is_some reused
    then (d, none)
    else leave_default t d model loaded default

abbrev pub reuse_if_resident :
    RouteDecision → CatalogModel → ContextReceipt → Option Loaded → RouteDecision × Option ℕ
reuse_if_resident d model receipt loaded =
    if d.resident && is_prompt_estimate receipt
    then reuse_resident_context d model loaded
    else (d, none)

-- What the backend answers on the way: the loaded runner, twice, and its default context.
pub record Answers : Type 0 where
  pub loaded : Option Loaded
  pub default : Option ℕ
  pub loaded_later : Option Loaded

-- The receipt, the sizes reused and left to Ollama, and the decision that is sent.
pub record SettledContext : Type 0 where
  pub receipt : ContextReceipt
  pub reused : Option ℕ
  pub left : Option ℕ
  pub decision : RouteDecision

abbrev pub settle_sized :
    Tunables → CatalogModel → Answers → Sizing → Result SettledContext ContextError
settle_sized t model answers (err e) = err e
settle_sized t model answers (ok (receipt, d)) =
    let reuse = reuse_if_resident d model receipt answers.loaded in
    let left =
      context_left_to_ollama t reuse.0 model receipt reuse.1 answers.loaded_later answers.default in
    ok (record { receipt = receipt; reused = reuse.1; left = left.1; decision = left.0 })

module _ (json_bytes : List ContextMessage → ℕ) where
  -- The pipeline's steps from `size_context` to `context_left_to_ollama`.
  unfoldable pub settle_context :
      Tunables
      → ContextInput
      → RouteDecision
      → CatalogModel
      → Answers
      → Result SettledContext ContextError
  settle_context t input d model answers =
      settle_sized t model answers (size_context json_bytes input d model)
