-- ===== src/Readiness.antt =====
-- How many tasks could start now (packages/rust-core/src/platform/readiness.rs, `assess`): a preview
-- from the estimate of the model's memory, a sample of the host and the state of the backend's pool.
pub mod Capacity
pub mod Runnable
use free_llama.Base.{
  ℕ, ◌-◌, ◌/◌, ◌^◌, min, max, Bool, true, false, not, ◌&&◌, Option, none, some, String, same_text,
  ltb, ◌==◌, if◌then◌else◌,
}
use free_llama.Task.{TaskKind}
use free_llama.Admission.State.{AdmissionState, free}
use free_llama.Resources.{Floats}
use free_llama.Resources.Demand.{
  ResourceDemand, load, resident, on_cpu, ResourceSnapshot, ResourceCapacityAssessment,
  assess_demand,
}

-- What `assess` is given: the estimate, whether a resident context matches, the task and its cost,
-- and where the backend runs.
pub record Preview : Type 0 where
  pub required : ℕ
  pub matching_resident : Bool
  pub task : TaskKind
  pub task_cost : ℕ
  pub runner_resident : Bool
  pub on_cpu_backend : Bool
  pub loopback : Bool

pub record AgentPlan : Type 0 where
  pub queue_readiness : String
  pub resource_readiness : String
  pub dispatch_readiness : String
  pub task_cost_units : ℕ
  pub independent_tasks_admissible_now : ℕ
  pub additional_independent_tasks_same_backend : ℕ
  pub warm_runner_reuse_likely : Bool
  pub keep_alive_guidance : String

abbrev pub preview_demand : Preview → ResourceDemand
preview_demand p =
    on_cpu (if p.required == 0 && p.matching_resident then resident else load p.required)
      p.on_cpu_backend

-- The cost in units of the pool; `u32::try_from` of its limit saturates.
unfoldable pub cost_units : Preview → AdmissionState → ℕ
cost_units p pool = max (min p.task_cost (min pool.limit (2 ^ 32 - 1))) 1

unfoldable pub queue_capacity : Preview → AdmissionState → ℕ
queue_capacity p pool = free pool / cost_units p pool

abbrev pub queue_word : ℕ → String
queue_word capacity = if ltb 0 capacity then "runnable_now" else "queue_likely"

abbrev pub resource_word : Option ResourceCapacityAssessment → String
resource_word none = "not_applicable_remote"
resource_word (some v) = v.status

abbrev pub dispatch_word : Option ResourceCapacityAssessment → ℕ → String
dispatch_word none queue = queue_word queue
dispatch_word (some v) queue =
    if not v.admissible
    then v.status
    else if same_text v.status "ready_telemetry_unknown" && ltb 0 queue
    then "runnable_telemetry_unknown"
    else if v.memory_advisory && ltb 0 queue
    then "runnable_low_memory_estimate"
    else queue_word queue

abbrev pub by_memory : Option ℕ → ℕ → ℕ → ℕ → ℕ
by_memory none reserve required queue = queue
by_memory (some available) reserve required queue = min queue ((available - reserve) / required)

unfoldable pub admissible_now : Option ResourceCapacityAssessment → ℕ → ℕ → ℕ
admissible_now none required queue = queue
admissible_now (some v) required queue =
    if not v.admissible
    then 0
    else if v.memory_advisory
    then min queue 1
    else if ltb 0 required
    then by_memory v.effective_available_bytes v.reserve_bytes required queue
    else queue

abbrev pub is_embedding_task : TaskKind → Bool
is_embedding_task TaskKind.embedding = true
is_embedding_task task = false

abbrev pub guidance : Preview → String
guidance p =
    if is_embedding_task p.task
    then "use_keep_alive_0_for_one_off_embedding; keep_warm_only_for_a_related_batch"
    else if p.runner_resident
    then "selected_runner_is_resident; preserve_prompt_prefix_and_keep_related_work_on_this_model"
    else "selected_runner_is_cold; expect_a_load_transition_before_reusing_it"

module _ (floats : Floats) where
  unfoldable pub assessed : Preview → ResourceSnapshot floats → Option ResourceCapacityAssessment
  assessed p snapshot =
      if p.loopback then some (assess_demand floats snapshot (preview_demand p) false) else none

  unfoldable pub assess : Preview → ResourceSnapshot floats → AdmissionState → AgentPlan
  assess p snapshot pool =
      let assessment = assessed p snapshot in
      let queue = queue_capacity p pool in
      let capacity = admissible_now assessment p.required queue in
      record {
        queue_readiness = queue_word queue;
        resource_readiness = resource_word assessment;
        dispatch_readiness = dispatch_word assessment queue;
        task_cost_units = cost_units p pool;
        independent_tasks_admissible_now = capacity;
        additional_independent_tasks_same_backend = capacity - 1;
        warm_runner_reuse_likely = p.runner_resident;
        keep_alive_guidance = guidance p;
      }
