-- ===== src/Routing.antt =====
-- The data of routing (packages/rust-core/src/platform/routing.rs): what a route is asked for, what
-- the catalog knows of a model, and the decision. The children are the parts of `select_route`.
-- A map from an enum is a function; a benchmark score is the bit pattern of its `f64`.

pub mod Names
pub mod Compare
pub mod Profile
pub mod Grade
pub mod Select
use free_llama.Base.{
  ℕ, zero, suc, ◌+◌, ◌-◌, ◌*◌, ◌^◌, min, Bool, true, false, not, ◌&&◌, ◌||◌, List, Option, none,
  some, String, ltb, leb, is_some, is_some_and, if◌then◌else◌,
}
use free_llama.Task.{TaskKind}
use free_llama.Capability.{Capability, CapabilitySet, no_capabilities}

pub data Objective : Type 0 where
  fastest balanced quality : Objective

pub data ExecutionPreference : Type 0 where
  auto prefer_cpu prefer_gpu : ExecutionPreference

pub data Backend : Type 0 where
  cpu gpu : Backend

unfoldable pub as_str : Backend → String
as_str cpu = "cpu"
as_str gpu = "gpu"

pub data PlacementEvidence : Type 0 where
  configured observed : PlacementEvidence

pub record RouteInput : Type 0 where
  pub task : TaskKind
  pub objective : Objective
  pub model : Option String
  pub session_id : Option String
  pub required_capabilities : CapabilitySet
  pub context_tokens : Option ℕ
  pub execution_preference : ExecutionPreference
  pub min_placement_evidence : PlacementEvidence
  pub min_confidence : Option String

abbrev pub default_input : RouteInput
default_input = record {
  task = TaskKind.completion;
  objective = balanced;
  model = none;
  session_id = none;
  required_capabilities = no_capabilities;
  context_tokens = none;
  execution_preference = auto;
  min_placement_evidence = configured;
  min_confidence = none;
}

pub record LoopRecord : Type 0 where
  pub runs : ℕ
  pub loops : ℕ

-- `u32::saturating_mul`.
abbrev pub saturating_mul : ℕ → ℕ → ℕ
saturating_mul a b = min (a * b) (2 ^ 32 - 1)

unfoldable pub keeps_looping : LoopRecord → Bool
keeps_looping r = leb 2 r.loops && leb r.runs (saturating_mul r.loops 2)

-- A model's request defaults for a task (`ModelRequestDefaults`).
pub record ModelRequestDefaults : Type 0 where
  pub think : Option Bool
  pub num_predict : Option ℕ

-- The fields that routing and the estimates read.
pub record CatalogModel : Type 0 where
  pub name : String
  pub digest : Option String
  pub size : ℕ
  pub capabilities : CapabilitySet
  pub advertised_context : Option ℕ
  pub kv_cache_bytes_per_token_f16 : Option ℕ
  pub modelfile_num_ctx : Option ℕ
  pub resident : Bool
  pub resident_context : Option ℕ
  pub benchmark : Capability → Option ℕ
  pub observed_loops : TaskKind → Option LoopRecord
  pub policy_rank : TaskKind → Option ℕ
  pub policy_options : TaskKind → Option ModelRequestDefaults

-- `think`: a JSON value that is null, a Boolean or an effort.
pub data Think : Type 0 where
  null : Think
  flag : Bool → Think
  effort : String → Think

-- The request options: `num_ctx`, and `num_predict` where it is positive.
pub record Options : Type 0 where
  pub num_ctx : ℕ
  pub num_predict : Option ℕ

pub record Rejected : Type 0 where
  pub model : String
  pub reason : String
  pub resident : Bool

pub record RouteDecision : Type 0 where
  pub selected_model : String
  pub task : TaskKind
  pub objective : Objective
  pub profile : String
  pub required_capabilities : CapabilitySet
  pub options : Options
  pub think : Think
  pub strict_tool_validation : Bool
  pub resident : Bool
  pub session_id : Option String
  pub confidence : String
  pub evidence : String
  pub quality_evidence : String
  pub task_evidence : String
  pub context_window_fit : String
  pub hardware_fit : String
  pub rejected : List Rejected
  pub reasons : List String

pub data RouteError : Type 0 where
  not_installed : String → List String → RouteError
  ambiguous : String → List String → RouteError
  not_eligible : String → RouteError
  none_eligible : RouteError
  none_qualified : RouteError
  unknown_min_confidence : String → RouteError
  below_min_confidence : String → String → String → String → RouteError
