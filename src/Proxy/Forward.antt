-- ===== src/Proxy/Forward.antt =====
-- How a proxied request is forwarded (packages/rust-core/src/proxy/mod.rs, `forward_inner`): the retry
-- loop, and once more behind a restart of Ollama.
pub mod Sends
use free_llama.Base.{ℕ, ◌+◌, Bool, true, false, ◌&&◌, Option, none, some, if◌then◌else◌}
use free_llama.Proxy.Retry.{Reply, response, failure, Sent, send_with_retries, try_restart}

-- `is_connection_refused`: some error of the chain is one of connecting.
abbrev pub is_connection_refused : Reply → Bool
is_connection_refused (response status) = false
is_connection_refused (failure is_connect is_timeout) = is_connect

-- The reply that the caller gets, how often the request was sent in all, after how many sends
-- Ollama was restarted, and the time of the last restart.
pub record Forwarded : Type 0 where
  pub reply : Reply
  pub sends : ℕ
  pub restarted_after : Option ℕ
  pub last_restart : Option ℕ

abbrev pub forward_again : Sent → Option ℕ → Option Sent → Option Forwarded
forward_again first last none = none
forward_again first last (some second) = some (record {
  reply = second.reply;
  sends = first.attempts + second.attempts;
  restarted_after = some first.attempts;
  last_restart = last;
})

abbrev pub not_restarted : Sent → Option ℕ → Option Forwarded
not_restarted first last = some (record {
  reply = first.reply;
  sends = first.attempts;
  restarted_after = none;
  last_restart = last;
})

module _ (auto_restart : Bool) (last : Option ℕ) (now : ℕ) (upstream : ℕ → Reply)
    (clock : ℕ → ℕ) where
  -- What follows the first loop. The upstream's next replies are those of the second.
  abbrev pub forward_first : Sent → Option Forwarded
  forward_first first =
      if auto_restart && is_connection_refused first.reply
      then (if (try_restart last now).1
          then forward_again first (try_restart last now).0 (
              send_with_retries (λ n. upstream (first.attempts + n))
                (λ n. clock (first.attempts + n)))
          else not_restarted first (try_restart last now).0)
      else not_restarted first last

  abbrev pub forward_sent : Option Sent → Option Forwarded
  forward_sent none = none
  forward_sent (some first) = forward_first first

  -- The part of `forward_inner` that sends; a restart is asked for at `now`.
  unfoldable pub forward_inner : Option Forwarded
  forward_inner = forward_sent (send_with_retries upstream clock)
