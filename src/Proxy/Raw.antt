-- ===== src/Proxy/Raw.antt =====
-- Admission of raw requests (proxy/admission.rs): a plain count with a bounded wait. A critical
-- section of the lock is a function on the state; times are in milliseconds.
pub mod Estimate
pub mod History
pub mod Abandoned
use free_llama.Base.{
  ℕ, ◌+◌, ◌-◌, ◌*◌, ◌/◌, max, Bool, true, false, Option, none, some, ltb, leb, ◌||◌, if◌then◌else◌,
  u64_max, saturating_add, saturating_mul, wrapping_add,
}
use free_llama.Runtime.RetryAfter.{unwrap_or, to_seconds}

pub record RawState : Type 0 where
  pub active : ℕ
  pub limit : ℕ
  pub wait : ℕ
  pub waiting : ℕ
  pub admitted : ℕ
  pub rejected : ℕ
  pub average_ms : Option ℕ

unfoldable pub new : ℕ → ℕ → RawState
new limit wait = record {
  active = 0;
  limit = max limit 1;
  wait = wait;
  waiting = 0;
  admitted = 0;
  rejected = 0;
  average_ms = none;
}

-- `set`.
unfoldable pub configure : RawState → ℕ → ℕ → RawState
configure s limit wait = record s { limit = max limit 1; wait = wait }

unfoldable pub retry_after : RawState → ℕ
unfolding to_seconds
retry_after s =
    let per_request = max (unwrap_or s.average_ms 5000) 250 in
    let ahead = saturating_add u64_max s.waiting 1 in
    let lanes = max s.limit 1 in to_seconds (saturating_mul u64_max ahead per_request / lanes)

-- What a critical section of `acquire` leads to: a permit, a `RawRejection` with its estimate, or
-- another wait.
pub data Outcome : Type 0 where
  admitted : Outcome
  rejected : ℕ → Outcome
  waits : Outcome

abbrev admit : RawState → RawState
admit s = record s { active = s.active + 1; admitted = wrapping_add u64_max s.admitted 1 }

abbrev reject : RawState → RawState
reject s = record s { rejected = wrapping_add u64_max s.rejected 1 }

-- The first critical section of `acquire`.
unfoldable pub arrive : RawState → ℕ → ℕ → RawState × Outcome
arrive s now deadline =
    if ltb s.active s.limit
    then (admit s, Outcome.admitted)
    else if leb deadline now || leb (s.limit * 8) s.waiting
    then (reject s, Outcome.rejected (retry_after (reject s)))
    else (record s { waiting = s.waiting + 1 }, waits)

-- A round of the loop of `acquire`.
unfoldable pub retry : RawState → RawState × Outcome
retry s = if ltb s.active s.limit then (admit s, Outcome.admitted) else (s, waits)

-- The deadline of a round passes.
unfoldable pub time_out : RawState → RawState × Outcome
time_out s = (reject s, Outcome.rejected (retry_after (reject s)))

-- `self.lock().waiting -= 1`, behind the loop.
unfoldable pub leave : RawState → RawState
leave s = record s { waiting = s.waiting - 1 }

blend : ℕ → Option ℕ → ℕ
unfolding saturating_add saturating_mul
blend elapsed none = elapsed
blend elapsed (some average) = saturating_add u64_max (saturating_mul u64_max average 4) elapsed / 5

-- `RawPermit::drop`, after `elapsed` milliseconds.
unfoldable pub release : RawState → ℕ → RawState
unfolding blend
release s elapsed = record s {
  active = s.active - 1;
  average_ms = some (blend elapsed s.average_ms);
}
