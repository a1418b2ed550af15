-- ===== src/Admission/State.antt =====
-- The state of an admission pool (platform/admission.rs, `AdmissionState`), and the operations that
-- configure or read it. A critical section of the pool's lock is a function on this record; the
-- clock is an argument, in milliseconds.
use free_llama.Base.{
  ℕ, ◌-◌, ◌+◌, min, max, List, [], Option, none, length, leb, ltb, ◌==◌, not, ◌||◌, if◌then◌else◌,
  u64_max, saturating_add, wrapping_add,
}
use free_llama.Task.{TaskPriority, interactive, normal, background}

pub record Waiter : Type 0 where
  pub ticket : ℕ
  pub cost : ℕ
  pub priority : TaskPriority
  pub enqueued_at : ℕ
  pub bypasses : ℕ  -- u8

-- `[u8; 3]`, ordered interactive, normal, background: a field is the entry of its class.
pub record Credits : Type 0 where
  pub interactive_left : ℕ
  pub normal_left : ℕ
  pub background_left : ℕ

pub record AdmissionState : Type 0 where
  pub active : ℕ
  pub limit : ℕ
  pub ceiling : ℕ
  pub max_waiters : ℕ
  pub next_ticket : ℕ
  pub waiting : List Waiter
  pub resource_waiting : List (ℕ × ℕ)
  pub credits : Credits
  pub granted : Option ℕ
  pub in_flight : ℕ
  pub admitted : ℕ
  pub released : ℕ
  pub policy_epoch : ℕ
  pub queue_full_rejections : ℕ
  pub queue_timeouts : ℕ
  pub queue_cancellations : ℕ
  pub transition_timeouts : ℕ

abbrev pub priority_weights : Credits
priority_weights = record { interactive_left = 3; normal_left = 2; background_left = 1 }

abbrev pub max_capacity_bypasses : ℕ
max_capacity_bypasses = 6

abbrev pub priority_index : TaskPriority → ℕ
priority_index interactive = 0
priority_index normal = 1
priority_index background = 2

-- `credits[class]`, and the array with that entry one lower (stopping at 0).
abbrev pub credit : Credits → TaskPriority → ℕ
credit c interactive = c.interactive_left
credit c normal = c.normal_left
credit c background = c.background_left

abbrev pub spend : Credits → TaskPriority → Credits
spend c interactive = record c { interactive_left = c.interactive_left - 1 }
spend c normal = record c { normal_left = c.normal_left - 1 }
spend c background = record c { background_left = c.background_left - 1 }

abbrev pub queue_depth : AdmissionState → ℕ
queue_depth s = length s.waiting + length s.resource_waiting

abbrev pub free : AdmissionState → ℕ
free s = s.limit - s.active

abbrev pub charge : AdmissionState → ℕ → ℕ
charge s cost = max (min cost s.limit) 1

unfoldable pub new : ℕ → ℕ → AdmissionState
new total max_waiters = record {
  active = 0;
  limit = max total 1;
  ceiling = max total 1;
  max_waiters = max max_waiters 1;
  next_ticket = 0;
  waiting = [];
  resource_waiting = [];
  credits = priority_weights;
  granted = none;
  in_flight = 0;
  admitted = 0;
  released = 0;
  policy_epoch = 0;
  queue_full_rejections = 0;
  queue_timeouts = 0;
  queue_cancellations = 0;
  transition_timeouts = 0;
}

-- The limit follows the ceiling down, and up only from the old ceiling.
follow_ceiling : AdmissionState → ℕ → AdmissionState
follow_ceiling s ceiling =
    if leb s.ceiling s.limit || ltb ceiling s.limit
    then record s { limit = ceiling; ceiling = ceiling }
    else record s { ceiling = ceiling }

-- `policy_epoch` counts the changes of the pair of limit and ceiling.
count_change : AdmissionState → AdmissionState → AdmissionState
count_change before s =
    if not (before.limit == s.limit) || not (before.ceiling == s.ceiling)
    then record s { policy_epoch = wrapping_add u64_max s.policy_epoch 1 }
    else s

unfoldable pub set_ceiling : AdmissionState → ℕ → AdmissionState
unfolding follow_ceiling count_change wrapping_add
set_ceiling s ceiling = count_change s (follow_ceiling s (max ceiling 1))

-- `limit.clamp(1, ceiling)`.
abbrev pub clamp_limit : AdmissionState → ℕ → ℕ
clamp_limit s limit = if ltb limit 1 then 1 else if ltb s.ceiling limit then s.ceiling else limit

unfoldable pub set_limit : AdmissionState → ℕ → AdmissionState × ℕ
unfolding wrapping_add
set_limit s limit =
    let next = clamp_limit s limit in
    if next == s.limit
    then (s, s.limit)
    else (record s { policy_epoch = wrapping_add u64_max s.policy_epoch 1; limit = next }, next)

unfoldable pub set_max_waiters : AdmissionState → ℕ → AdmissionState
set_max_waiters s max_waiters = record s { max_waiters = max max_waiters 1 }

unfoldable pub record_transition_timeout : AdmissionState → AdmissionState
unfolding saturating_add
record_transition_timeout s = record s {
  transition_timeouts = saturating_add u64_max s.transition_timeouts 1;
}
