-- ===== src/Runtime/Profile.antt =====
-- The state of the adaptive limiter and what it learns of a completion
-- (platform/runtime/adaptive.rs). Instants are in nanoseconds.
use free_llama.Base.{ℕ, ◌*◌, Bool, true, false, ◌&&◌, Option, String, leb}
use text.Mathlib.Text.{◌==◌}
use free_llama.Task.{
  TaskKind, completion, coding, code_repair, tools, browser, vision, embedding, long_context,
}

-- The operations of `f64` on rates that the limiter uses.
pub record Rates : Type 1 where
  pub F : Type 0
  pub zero_rate : F
  pub is_finite : F → Bool
  pub less : F → F → Bool
  pub dropped : F → F  -- `rate * THROUGHPUT_DROP_RATIO`
  pub blended : F → F → F  -- `rate * (1.0 - BASELINE_ALPHA) + tps * BASELINE_ALPHA`

pub data ThroughputMetricKind : Type 0 where
  output_tokens_per_second : ThroughputMetricKind
  input_tokens_per_second : ThroughputMetricKind

abbrev pub for_task : TaskKind → ThroughputMetricKind
for_task embedding = input_tokens_per_second
for_task _ = output_tokens_per_second

abbrev pub same_kind : ThroughputMetricKind → ThroughputMetricKind → Bool
same_kind output_tokens_per_second output_tokens_per_second = true
same_kind input_tokens_per_second input_tokens_per_second = true
same_kind _ _ = false

abbrev pub same_task : TaskKind → TaskKind → Bool
same_task completion completion = true
same_task coding coding = true
same_task code_repair code_repair = true
same_task tools tools = true
same_task browser browser = true
same_task vision vision = true
same_task embedding embedding = true
same_task long_context long_context = true
same_task _ _ = false

pub record ExecutionProfile : Type 0 where
  pub id : String
  pub task : TaskKind
  pub model : String
  pub digest : String
  pub context_tokens : ℕ
  pub processor : String
  pub metric_kind : ThroughputMetricKind

abbrev pub same_profile : ExecutionProfile → ExecutionProfile → Bool
same_profile p q =
    p.id == q.id
    && same_task p.task q.task
    && p.model == q.model
    && p.digest == q.digest
    && leb p.context_tokens q.context_tokens
    && leb q.context_tokens p.context_tokens
    && p.processor == q.processor
    && same_kind p.metric_kind q.metric_kind

abbrev pub decrease_spacing : ℕ
decrease_spacing = 10 * 1000000000

abbrev pub healthy_streak_for_increase : ℕ
healthy_streak_for_increase = 5

abbrev pub baseline_min_samples : ℕ
baseline_min_samples = 3

module _ (rates : Rates) where
  pub record ProfileBaseline : Type 0 where
    pub profile : ExecutionProfile
    pub rate : rates.F
    pub samples : ℕ

  pub data Reason : Type 0 where
    upstream_failure : Reason
    host_memory_pressure : Reason
    throughput : rates.F → rates.F → Reason

  pub record AdaptiveState : Type 0 where
    pub baseline_tps : TaskKind → Option ProfileBaseline
    pub healthy_streak : ℕ
    pub last_profile : Option String
    pub last_decrease : Option ℕ
    pub last_reason : Option Reason

  pub record ThroughputMetric : Type 0 where
    pub kind : ThroughputMetricKind
    pub tokens_per_second : rates.F

  pub record Completion : Type 0 where
    pub profile : Option ExecutionProfile
    pub failed : Bool
    pub memory_pressure : Bool
    pub metric : Option ThroughputMetric
