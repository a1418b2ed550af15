-- ===== src/Admission/Pool.antt =====
-- A pool with the permits that it has handed out, under every event that can reach its lock
-- (platform/admission.rs). Tokio may interleave the critical sections in any order, so a history of
-- the pool is a list of events in the order in which they took the lock.
pub mod Invariant
pub mod Rounds
pub mod Safety
pub mod Bounds
pub mod Depth
use free_llama.Base.{
  ℕ, ◌+◌, ◌≤◌, Bool, true, false, List, [], ◌∷◌, Option, none, some, get_elem?, remove_at, any,
  ◌==◌, if◌then◌else◌,
}
use free_llama.Task.{TaskPriority}
use free_llama.Admission.State.{
  AdmissionState, set_ceiling, set_limit, set_max_waiters, record_transition_timeout,
}
use free_llama.Admission.Queue.{
  Attempt, acquired, expired, pending, panicked, enqueue, attempt, drop_wait_guard, wait_timed_out,
  release, register_resource_waiter, drop_resource_guard, hand_off,
}

-- `permits` holds the charge of each `AdmissionPermit` that is alive.
pub record Pool : Type 0 where
  pub state : AdmissionState
  pub permits : List ℕ

pub data Event : Type 0 where
  -- `acquire` takes a place in the queue: now, deadline, cost, priority.
  arrives : ℕ → ℕ → ℕ → TaskPriority → Event
  -- A round of `acquire_registered`: now, deadline, ticket.
  tries : ℕ → ℕ → ℕ → Event
  -- The wait of a round ends at its deadline; the future of a waiter is dropped.
  times_out cancels : ℕ → Event
  -- The permit at an index is dropped.
  finishes : ℕ → Event
  -- A resource waiter registers, moves to the slot queue (ticket, cost, priority, now), or leaves
  -- (ticket, counted as a cancellation).
  registers : ℕ → Event
  hands_off : ℕ → ℕ → TaskPriority → ℕ → Event
  leaves : ℕ → Bool → Event
  limits ceilings allows : ℕ → Event
  transition_times_out : Event

-- The end of a round: the guard goes with the future that returns.
unfoldable pub after_attempt : List ℕ → ℕ → AdmissionState × Attempt → Pool
after_attempt permits ticket (s, acquired units) = record {
  state = drop_wait_guard s ticket false;
  permits = units ∷ permits;
}
after_attempt permits ticket (s, expired) = record {
  state = drop_wait_guard s ticket false;
  permits = permits;
}
after_attempt permits ticket (s, pending _) = record { state = s; permits = permits }
after_attempt permits ticket (s, panicked) = record { state = s; permits = permits }

unfoldable pub drop_permit : Pool → ℕ → Option ℕ → Pool
drop_permit p index none = p
drop_permit p index (some units) = record {
  state = release p.state units;
  permits = remove_at p.permits index;
}

abbrev pub is_resource_ticket : ℕ → ℕ × ℕ → Bool
is_resource_ticket ticket (t, at) = t == ticket

unfoldable pub step : Pool → Event → Pool
step p (arrives now deadline cost priority) = record p {
  state = (enqueue p.state now deadline cost priority).0;
}
step p (tries now deadline ticket) =
    after_attempt p.permits ticket (attempt p.state now deadline ticket)
step p (times_out ticket) = record p { state = wait_timed_out p.state ticket }
step p (cancels ticket) = record p { state = drop_wait_guard p.state ticket true }
step p (finishes index) = drop_permit p index (get_elem? p.permits index)
step p (registers now) = record p { state = (register_resource_waiter p.state now).0 }
step p (hands_off ticket cost priority now) =
    if any (is_resource_ticket ticket) p.state.resource_waiting
    then record p { state = hand_off p.state ticket cost priority now }
    else p
step p (leaves ticket counted) = record p { state = drop_resource_guard p.state ticket counted }
step p (limits limit) = record p { state = (set_limit p.state limit).0 }
step p (ceilings ceiling) = record p { state = set_ceiling p.state ceiling }
step p (allows max_waiters) = record p { state = set_max_waiters p.state max_waiters }
step p transition_times_out = record p { state = record_transition_timeout p.state }

unfoldable pub run : Pool → List Event → Pool
run p [] = p
run p (e ∷ es) = run (step p e) es
