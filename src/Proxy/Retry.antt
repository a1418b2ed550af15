-- ===== src/Proxy/Retry.antt =====
-- Retries of a proxied request, and the restart of Ollama (proxy/retry.rs). Times and durations are
-- in nanoseconds. What the upstream does at each attempt, and the clock, are arguments.
pub mod Replays
pub mod Restarts
use free_llama.Base.{
  ℕ, zero, suc, ◌+◌, ◌-◌, ◌*◌, ◌/◌, ◌%◌, ◌^◌, Bool, true, false, not, List, [], ◌∷◌, ◌++◌, Option,
  none, some, ltb, ◌==◌, ◌&&◌, ◌||◌, if◌then◌else◌,
}

abbrev pub max_attempts : ℕ
max_attempts = 3

abbrev pub millisecond : ℕ
millisecond = 1000000

abbrev pub retry_base_delay : ℕ
retry_base_delay = 200 * millisecond

abbrev pub retry_jitter_max : ℕ
retry_jitter_max = 100 * millisecond

abbrev pub restart_cooldown : ℕ
restart_cooldown = 300 * 1000 * millisecond

-- From the sub-second nanoseconds of the clock.
unfoldable pub jitter : ℕ → ℕ
jitter nanos = retry_jitter_max * (nanos % 1000) / 1000

unfoldable pub retry_delay : ℕ → ℕ → ℕ
unfolding jitter
retry_delay nanos attempt = retry_base_delay * 2 ^ (attempt - 1) + jitter nanos

-- What `send` gives: a response with its status, or an error with what `reqwest` says of it.
pub data Reply : Type 0 where
  response : ℕ → Reply
  failure : Bool → Bool → Reply  -- is_connect, is_timeout

abbrev pub retryable_upstream_status : ℕ → Bool
retryable_upstream_status status = status == 500 || status == 502

-- The guards of the two arms that retry, without their bound on the attempts.
abbrev pub is_retryable : Reply → Bool
is_retryable (response status) = retryable_upstream_status status
is_retryable (failure is_connect is_timeout) = is_connect && not is_timeout

-- The reply that is returned, the number of attempts, and the sleeps between them.
pub record Sent : Type 0 where
  pub reply : Reply
  pub attempts : ℕ
  pub sleeps : List ℕ

-- The loop after `attempt` attempts; `none` means that the fuel ran out. `clock` gives the
-- nanoseconds that the jitter of a retry reads.
unfoldable pub send_from : (ℕ → Reply) → (ℕ → ℕ) → ℕ → ℕ → List ℕ → Option Sent
send_from upstream clock zero attempt sleeps = none
send_from upstream clock (suc fuel) attempt sleeps =
    let n = attempt + 1 in
    let again = send_from upstream clock fuel n (sleeps ++ retry_delay (clock n) n ∷ []) in
    if is_retryable (upstream n) && ltb n max_attempts
    then again
    else some (record { reply = upstream n; attempts = n; sleeps = sleeps })

unfoldable pub send_with_retries : (ℕ → Reply) → (ℕ → ℕ) → Option Sent
unfolding send_from
send_with_retries upstream clock = send_from upstream clock max_attempts 0 []

-- `try_restart_ollama`: the time of the last attempt, and whether a restart is made.
unfoldable pub try_restart : Option ℕ → ℕ → Option ℕ × Bool
try_restart none now = (some now, true)
try_restart (some previous) now =
    if ltb (now - previous) restart_cooldown then (some previous, false) else (some now, true)
