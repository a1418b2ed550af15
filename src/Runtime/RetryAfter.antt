-- ===== src/Runtime/RetryAfter.antt =====
-- The `Retry-After` estimate of managed tasks (platform/runtime/adaptive.rs).
pub mod Estimate
use free_llama.Base.{
  ℕ, ◌+◌, ◌/◌, max, Option, none, some, ltb, if◌then◌else◌, u64_max, saturating_add, saturating_mul,
}

abbrev pub unwrap_or : Option ℕ → ℕ → ℕ
unwrap_or none d = d
unwrap_or (some n) d = n

-- `n.div_ceil(1000).clamp(1, 120)`.
unfoldable pub to_seconds : ℕ → ℕ
to_seconds n =
    let seconds = (n + 999) / 1000 in
    if ltb seconds 1 then 1 else if ltb 120 seconds then 120 else seconds

-- A `usize` is a `u64` here, so the two conversions of the source keep their values.
unfoldable pub retry_after_seconds : ℕ → ℕ → Option ℕ → ℕ
unfolding to_seconds
retry_after_seconds queue_depth limit average_task_ms =
    let per_task = max (unwrap_or average_task_ms 5000) 250 in
    let ahead = saturating_add u64_max queue_depth 1 in
    let lanes = max limit 1 in to_seconds (saturating_mul u64_max ahead per_task / lanes)
