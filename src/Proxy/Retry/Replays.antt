-- ===== src/Proxy/Retry/Replays.antt =====
-- Which requests are replayed, how often, and after how long.
use free_llama.Base.{
  ℕ, suc, ◌+◌, ◌-◌, ◌*◌, ◌^◌, ◌≤◌, ◌<◌, ◌≡◌, ◌≢◌, refl, ap, subst, zero, ◌⊎◌, inl, inr, true, false,
  [], ◌∷◌, some, arith, length, ◌==◌, Bool-cases,
}
use free_llama.Proxy.Retry.{
  Reply, response, failure, Sent, retry_base_delay, retry_jitter_max, retry_delay, is_retryable,
  send_with_retries,
}

-- A reply to which a request is sent again: a 500, a 502, or a connection that was never established,
-- and not for a timeout.
abbrev pub Transient : Reply → Type 0
Transient r = (r ≡ response 500) ⊎ (r ≡ response 502) ⊎ (r ≡ failure true false)

abbrev pub NotTransient : Reply → Type 0
NotTransient r = (r ≢ response 500) × (r ≢ response 502) × (r ≢ failure true false)

is_retryable-Transient : (r : Reply) → is_retryable r ≡ true → Transient r
is_retryable-Transient (response status) h = elim (Bool-cases (status == 500)) [
  | inl e ↦ inl (ap response (ground (arith, e)))
  | inr e ↦ inr (inl (ap response (ground (arith, e))))
]
is_retryable-Transient (failure true true) h = cc
is_retryable-Transient (failure true false) h = inr (inr refl)
is_retryable-Transient (failure false t) h = cc

is_retryable-NotTransient : (r : Reply) → is_retryable r ≡ false → NotTransient r
is_retryable-NotTransient r h = (
  λ e. cc (subst (λ x. is_retryable x ≡ false) e h),
  λ e. cc (subst (λ x. is_retryable x ≡ false) e h),
  λ e. cc (subst (λ x. is_retryable x ≡ false) e h),
)

-- The property holds for the sends from the first to the `n`th.
abbrev pub FirstSends : (ℕ → Type 0) → ℕ → Type 0
FirstSends P zero = Unit
FirstSends P (suc n) = FirstSends P n × P (suc n)

-- What a run of the loop has done: the reply is that of the last attempt, of at most three; every
-- earlier one got a transient reply, and the last one did not unless it was the third; between two
-- attempts there is one sleep.
pub record Runs (upstream : ℕ → Reply) (sent : Sent) : Type 0 where
  pub reply : sent.reply ≡ upstream sent.attempts
  pub some_attempt : 1 ≤ sent.attempts
  pub at_most : sent.attempts ≤ 3
  pub earlier : FirstSends (λ i. Transient (upstream i)) (sent.attempts - 1)
  pub last : (sent.attempts ≡ 3) ⊎ NotTransient (upstream sent.attempts)
  pub sleeps : suc (length sent.sleeps) ≡ sent.attempts

pub send_with_retries-Runs :
    (upstream : ℕ → Reply) (clock : ℕ → ℕ)
    → (sent : Sent) × (send_with_retries upstream clock ≡ some sent) × Runs upstream sent
unfolding send_with_retries
send_with_retries-Runs upstream clock = elim (Bool-cases (is_retryable (upstream 1))) [
  | inr stop ↦ (
    record { reply = upstream 1; attempts = 1; sleeps = [] },
    rw stop refl,
    record {
      reply = refl;
      some_attempt = omega arith;
      at_most = omega arith;
      earlier = tt;
      last = inr (is_retryable-NotTransient (upstream 1) stop);
      sleeps = refl;
    },
  )
  | inl again ↦ elim (Bool-cases (is_retryable (upstream 2))) [
    | inr stop ↦ (
      record { reply = upstream 2; attempts = 2; sleeps = retry_delay (clock 1) 1 ∷ [] },
      rw (again, stop) refl,
      record {
        reply = refl;
        some_attempt = omega arith;
        at_most = omega arith;
        earlier = (tt, is_retryable-Transient (upstream 1) again);
        last = inr (is_retryable-NotTransient (upstream 2) stop);
        sleeps = refl;
      },
    )
    | inl twice ↦ (
      record {
        reply = upstream 3;
        attempts = 3;
        sleeps = retry_delay (clock 1) 1 ∷ retry_delay (clock 2) 2 ∷ [];
      },
      ground arith,
      record {
        reply = refl;
        some_attempt = omega arith;
        at_most = omega arith;
        earlier = (
          (tt, is_retryable-Transient (upstream 1) again),
          is_retryable-Transient (upstream 2) twice,
        );
        last = inl refl;
        sleeps = refl;
      },
    )
  ]
]

-- A retry waits its exponential base and at most a tenth of a second more.
pub retry_delay_bounds :
    (nanos attempt : ℕ)
    → (retry_base_delay * 2 ^ (attempt - 1) ≤ retry_delay nanos attempt)
      × (retry_delay nanos attempt < retry_base_delay * 2 ^ (attempt - 1) + retry_jitter_max)
unfolding retry_delay
retry_delay_bounds nanos attempt = omega arith
