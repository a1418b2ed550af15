-- ===== src/Routing/Profile.antt =====
-- The request profile of a routed model (packages/rust-core/src/platform/routing.rs, `profile`).
use free_llama.Base.{
  ℕ, ◌-◌, ◌^◌, min, Bool, true, false, not, ◌&&◌, ◌||◌, Option, none, some, String, is_some, ltb,
  if◌then◌else◌,
}
use free_llama.Task.{TaskKind}
use free_llama.Capability.{Capability}
use free_llama.Routing.{RouteInput, CatalogModel, ModelRequestDefaults, Think, Options}
use free_llama.Routing.Compare.{unwrap_or}

pub record TaskProfile : Type 0 where
  pub name : String
  pub options : Options
  pub think : Think
  pub strict_tool_validation : Bool
  pub policy_model_options : Bool
  pub policy_think_dropped : Bool

abbrev pub default_context : TaskKind → ℕ
default_context TaskKind.browser = 8192
default_context TaskKind.tools = 8192
default_context TaskKind.code_repair = 8192
default_context TaskKind.long_context = 32768
default_context TaskKind.embedding = 2048
default_context TaskKind.completion = 16384
default_context TaskKind.coding = 16384
default_context TaskKind.vision = 16384

unfoldable pub requested_context : RouteInput → ℕ
requested_context input = unwrap_or input.context_tokens (default_context input.task)

unfoldable pub thinking_or_off : CatalogModel → Think → Think
thinking_or_off m level = if m.capabilities Capability.thinking then level else Think.flag false

-- The name, `num_predict`, `think` and strictness of a task.
unfoldable pub task_defaults : TaskKind → CatalogModel → String × ℕ × Think × Bool
task_defaults TaskKind.browser m = ("browser_action", 64, Think.flag false, true)
task_defaults TaskKind.tools m = ("tools", 256, Think.flag false, true)
task_defaults TaskKind.code_repair m =
    ("code_repair", 2048, thinking_or_off m (Think.effort "medium"), true)
task_defaults TaskKind.coding m = ("coding", 2048, thinking_or_off m (Think.effort "medium"), false)
task_defaults TaskKind.long_context m =
    ("long_context", 2048, thinking_or_off m (Think.effort "medium"), false)
task_defaults TaskKind.vision m = ("vision", 512, Think.flag false, false)
task_defaults TaskKind.embedding m = ("embedding", 0, Think.null, false)
task_defaults TaskKind.completion m = ("completion", 512, Think.flag false, false)

abbrev pub policy_num_predict : Option ModelRequestDefaults → Option ℕ
policy_num_predict none = none
policy_num_predict (some entry) = entry.num_predict

abbrev pub policy_think : Option ModelRequestDefaults → Option Bool
policy_think none = none
policy_think (some entry) = entry.think

abbrev pub is_not_default : Option ModelRequestDefaults → Bool
is_not_default none = false
is_not_default (some entry) = is_some entry.think || is_some entry.num_predict

abbrev pub is_true : Option Bool → Bool
is_true none = false
is_true (some b) = b

abbrev pub choose_think : Option Bool → CatalogModel → Think → Think
choose_think none m think = think
choose_think (some true) m think = thinking_or_off m (Think.flag true)
choose_think (some false) m think = Think.flag false

unfoldable pub num_ctx : RouteInput → CatalogModel → ℕ
num_ctx input m =
    min (min (requested_context input) (unwrap_or m.advertised_context (requested_context input)))
      (2 ^ 32 - 1)

unfoldable pub profile : RouteInput → CatalogModel → TaskProfile
profile input m =
    let policy = m.policy_options input.task in
    let defaults = task_defaults input.task m in
    let predict = unwrap_or (policy_num_predict policy) defaults.1 in
    record {
      name = defaults.0;
      options = record {
        num_ctx = num_ctx input m;
        num_predict = if ltb 0 predict then some predict else none;
      };
      think = choose_think (policy_think policy) m defaults.2;
      strict_tool_validation = defaults.3;
      policy_model_options = is_not_default policy;
      policy_think_dropped =
          is_true (policy_think policy) && not (m.capabilities Capability.thinking);
    }
