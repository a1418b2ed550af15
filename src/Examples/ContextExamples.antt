-- ===== src/Examples/ContextExamples.antt =====
-- Contexts of small tasks (packages/rust-core/src/platform/context.rs and execution/pipeline.rs).
use free_llama.Base.{
  ℕ, ◌*◌, ◌≡◌, refl, true, false, List, [], ◌∷◌, none, some, length, ok, err, arith, lookup,
}
use free_llama.Task.{TaskKind}
use free_llama.Capability.{no_capabilities}
use free_llama.Routing.{Objective, RouteDecision, Think, default_input}
use free_llama.Context.{
  ContextInput, ContextMessage, ContextReceipt, ContextError, estimated_text_tokens,
  has_unestimated_modality, required_tokens, select_bucket, automatic_cap, size_automatic,
  size_scoped_explicit_context, size_context,
}
use free_llama.Context.Steps.{
  ContextMode, Tunables, Answers, reuse_resident_context, context_left_to_ollama, settle_context,
}
use free_llama.Context.Sent.{IsSent, settle_context-IsSent}
use free_llama.Examples.RoutingExamples.{small}

-- A hundred bytes for each message.
abbrev hundred_each : List ContextMessage → ℕ
hundred_each messages = length messages * 100

abbrev greeting : ContextInput
greeting = record {
  warms = false;
  scope_id = none;
  route = default_input;
  images = none;
  messages = [];
  prompt = some "hello";
  tools = none;
  format = none;
}

abbrev routed : RouteDecision
routed = record {
  selected_model = "llama:1b";
  task = TaskKind.completion;
  objective = Objective.fastest;
  profile = "completion";
  required_capabilities = no_capabilities;
  options = record { num_ctx = 4096; num_predict = some 512 };
  think = Think.null;
  strict_tool_validation = false;
  resident = true;
  session_id = none;
  confidence = "low";
  evidence = "";
  quality_evidence = "";
  task_evidence = "";
  context_window_fit = "";
  hardware_fit = "";
  rejected = [];
  reasons = [];
}

abbrev tunables : Tunables
tunables = record { context_mode = ContextMode.ollama_default; auto_context_max = 32768 }

-- The backend holds the model with a window of 4096 tokens.
abbrev answers : Answers
answers = record {
  loaded = some (record { context_length = some 4096; digest = some "sha256:llama:1b" });
  default = some 4096;
  loaded_later = none;
}

reused_window :
    settle_context hundred_each tunables greeting routed small answers
    ≡ ok (record {
      receipt = ContextReceipt.prompt_estimate 2048 2 512 4096;
      reused = some 4096;
      left = none;
      decision = record routed {
        options = record { num_ctx = 4096; num_predict = some 512 };
        reasons =
            "context_sized_from_execution_payload" ∷ "context_reused_from_resident_runner" ∷ [];
      };
    })
unfolding settle_context size_context has_unestimated_modality size_automatic required_tokens
    automatic_cap select_bucket estimated_text_tokens reuse_resident_context context_left_to_ollama
reused_window = refl

-- Three messages in a scope do not fit its explicit window beside the output.
abbrev scoped : ContextInput
scoped = record greeting {
  scope_id = some "a";
  route = record default_input { context_tokens = some 1100 };
  messages = [] ∷ [] ∷ [] ∷ [];
  prompt = none;
}

abbrev narrow : RouteDecision
narrow = record routed { options = record { num_ctx = 1100; num_predict = some 512 } }

scope_too_long :
    size_context hundred_each scoped narrow small ≡ err (ContextError.above_context 1124 1100)
unfolding size_context has_unestimated_modality size_scoped_explicit_context required_tokens
    estimated_text_tokens lookup
scope_too_long = refl

settle_context-IsSent_example :
    IsSent hundred_each greeting routed
      (omega arith)
      (settle_context hundred_each tunables greeting routed small answers)
settle_context-IsSent_example =
    settle_context-IsSent hundred_each greeting routed (omega arith) tunables small answers
