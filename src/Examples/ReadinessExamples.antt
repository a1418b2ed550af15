-- ===== src/Examples/ReadinessExamples.antt =====
-- Previews over a pool of eight units (packages/rust-core/src/platform/readiness.rs).
use free_llama.Base.{◌*◌, ◌≤◌, ◌≡◌, refl, true, false}
use free_llama.Task.{TaskKind}
use free_llama.Admission.State.{AdmissionState, new, free}
use free_llama.Resources.{reserve_for, reserve}
use free_llama.Resources.Pressure.{missing_required}
use free_llama.Resources.Demand.{assess_demand, conclude, denial}
use free_llama.Readiness.{Preview, assess, assessed, cost_units, queue_capacity, admissible_now}
use free_llama.Readiness.Capacity.{FitMemory, assess-fits}
use free_llama.Readiness.Runnable.{assess-runnable}
use free_llama.Examples.ResourcesExamples.{tenths, calm, gib}

abbrev pool : AdmissionState
pool = new 8 16

abbrev two_units : Preview
two_units = record {
  required = 3 * gib;
  matching_resident = false;
  task = TaskKind.completion;
  task_cost = 2;
  runner_resident = false;
  on_cpu_backend = false;
  loopback = true;
}

runs_now : (assess tenths two_units calm pool).dispatch_readiness ≡ "runnable_now"
unfolding assess assessed queue_capacity cost_units new assess_demand conclude denial reserve_for
    reserve missing_required
runs_now = refl

admits_four : (assess tenths two_units calm pool).independent_tasks_admissible_now ≡ 4
unfolding assess assessed queue_capacity cost_units new admissible_now assess_demand conclude denial
    reserve_for reserve missing_required
admits_four = refl

assess-fits_example :
    ((assess tenths two_units calm pool).independent_tasks_admissible_now
        * (assess tenths two_units calm pool).task_cost_units
      ≤ free pool)
    × FitMemory calm.policy.low_memory
        (assessed tenths two_units calm)
        (3 * gib)
        (assess tenths two_units calm pool).independent_tasks_admissible_now
assess-fits_example = assess-fits tenths two_units calm pool

assess-runnable_example : 1 ≤ (assess tenths two_units calm pool).independent_tasks_admissible_now
unfolding assess assessed queue_capacity cost_units new assess_demand conclude denial reserve_for
    reserve missing_required
assess-runnable_example = assess-runnable tenths two_units calm pool refl
