-- ===== src/Proxy/Forward/Sends.antt =====
-- How often a proxied request is sent, and behind which replies it is sent again
-- (packages/rust-core/src/proxy/mod.rs, `forward_inner`).
use free_llama.Base.{
  ℕ, zero, suc, ◌+◌, ◌-◌, ◌≤◌, ◌<◌, ◌≡◌, refl, sym, subst, ◌⊎◌, inl, inr, Bool, true, false, ◌&&◌,
  Option, none, some, arith, Bool-cases,
}
use free_llama.Proxy.Retry.{Reply, response, failure, Sent, try_restart}
use free_llama.Proxy.Retry.Replays.{
  Transient, NotTransient, FirstSends, Runs, send_with_retries-Runs,
}
use free_llama.Proxy.Forward.{
  is_connection_refused, Forwarded, forward_again, not_restarted, forward_first, forward_inner,
}

FirstSends-imp :
    (P Q : ℕ → Type 0) → ((i : ℕ) → P i → Q i) → (n : ℕ) → FirstSends P n → FirstSends Q n
FirstSends-imp P Q k zero h = tt
FirstSends-imp P Q k (suc n) h = (FirstSends-imp P Q k n h.0, k (suc n) h.1)

FirstSends-append :
    (P : ℕ → Type 0) (a n : ℕ)
    → FirstSends P a
    → FirstSends (λ i. P (a + i)) n
    → FirstSends P (a + n)
FirstSends-append P a zero h k = let e : a + 0 ≡ a = omega arith in rw e h
FirstSends-append P a (suc n) h k =
    let e : a + suc n ≡ suc (a + n) = omega arith in
    rw e (FirstSends-append P a n h k.0, subst P e k.1)

FirstSends-last : (P : ℕ → Type 0) (a : ℕ) → 1 ≤ a → FirstSends P (a - 1) → P a → FirstSends P a
FirstSends-last P zero h k p = tt
FirstSends-last P (suc a) h k p =
    let e : suc a - 1 ≡ a = omega arith in (subst (FirstSends P) e k, p)

module _ (auto_restart : Bool) (last : Option ℕ) (now : ℕ) (upstream : ℕ → Reply) where
  -- A send that is followed by another: its reply was transient, or it timed out while it connected
  -- and Ollama was restarted behind it.
  abbrev pub Replayed : Option ℕ → ℕ → Type 0
  Replayed restarted_after i =
      Transient (upstream i) ⊎ ((restarted_after ≡ some i) × (upstream i ≡ failure true true))

  -- Without a restart there are at most three sends. A restart is configured, outside the cooldown,
  -- and made behind at most three sends of which the last did not connect; then at least one and at
  -- most three more follow.
  abbrev pub Bounded : ℕ → Option ℕ → Type 0
  Bounded sends none = sends ≤ 3
  Bounded sends (some first) =
      (auto_restart ≡ true)
      × ((try_restart last now).1 ≡ true)
      × (is_connection_refused (upstream first) ≡ true)
      × (1 ≤ first)
      × (first ≤ 3)
      × (first < sends)
      × (sends ≤ first + 3)

  abbrev pub sends_before : Option ℕ → ℕ
  sends_before none = 0
  sends_before (some first) = first

  pub record Forwards (f : Forwarded) : Type 0 where
    pub reply : f.reply ≡ upstream f.sends
    pub some_send : 1 ≤ f.sends
    pub bounded : Bounded f.sends f.restarted_after
    pub earlier : FirstSends (Replayed f.restarted_after) (f.sends - 1)
    pub final : (f.sends ≡ sends_before f.restarted_after + 3) ⊎ NotTransient (upstream f.sends)

  -- What forwarding answers.
  abbrev pub ForwardedWell : Option Forwarded → Type 0
  ForwardedWell o = (f : Forwarded) × (o ≡ some f) × Forwards f

  not_restarted-Forwards :
      (first : Sent) (restart : Option ℕ)
      → Runs upstream first
      → ForwardedWell (not_restarted first restart)
  not_restarted-Forwards first restart r = (
    _,
    refl,
    record {
      reply = r.reply;
      some_send = r.some_attempt;
      bounded = r.at_most;
      earlier =
          FirstSends-imp (λ i. Transient (upstream i)) (Replayed none) (λ i h. inl h)
            (first.attempts - 1) r.earlier;
      final = r.last;
    },
  )

  refused-Replayed :
      (i : ℕ) (r : Reply) → upstream i ≡ r → is_connection_refused r ≡ true → Replayed (some i) i
  refused-Replayed i (response status) e h = cc
  refused-Replayed i (failure false t) e h = cc
  refused-Replayed i (failure true true) e h = inr (refl, e)
  refused-Replayed i (failure true false) e h = inl (inr (inr e))

  last_send :
      (a b : ℕ)
      → (b ≡ 3) ⊎ NotTransient (upstream (a + b))
      → (a + b ≡ a + 3) ⊎ NotTransient (upstream (a + b))
  last_send a b (inl e) = inl (omega (arith, e))
  last_send a b (inr h) = inr h

  again-Forwards :
      (first second : Sent) (restart : Option ℕ)
      → Runs upstream first
      → Runs (λ n. upstream (first.attempts + n)) second
      → auto_restart ≡ true
      → (try_restart last now).1 ≡ true
      → is_connection_refused first.reply ≡ true
      → ForwardedWell (forward_again first restart (some second))
  again-Forwards first second restart r s a t refused =
      let k = first.attempts in
      let P = Replayed (some k) in
      let e : k + second.attempts - 1 ≡ k + (second.attempts - 1) = omega (arith, s.some_attempt) in
      let first_run =
        FirstSends-last P k r.some_attempt
          (FirstSends-imp (λ i. Transient (upstream i)) P (λ i h. inl h) (k - 1) r.earlier)
          (refused-Replayed k first.reply (sym r.reply) refused) in
      let second_run =
        FirstSends-imp (λ i. Transient (upstream (k + i))) (λ i. P (k + i)) (λ i h. inl h)
          (second.attempts - 1) s.earlier in
      (
        _,
        refl,
        record {
          reply = s.reply;
          some_send = omega (arith, r.some_attempt);
          bounded = (
            a,
            t,
            subst (λ x. is_connection_refused x ≡ true) r.reply refused,
            r.some_attempt,
            r.at_most,
            omega (arith, s.some_attempt),
            omega (arith, s.at_most),
          );
          earlier = rw e (FirstSends-append P k (second.attempts - 1) first_run second_run);
          final = last_send k second.attempts s.last;
        },
      )

  forward_first-Forwards :
      (clock : ℕ → ℕ) (first : Sent)
      → Runs upstream first
      → ForwardedWell (forward_first auto_restart last now upstream clock first)
  forward_first-Forwards clock first r =
      elim (Bool-cases (auto_restart && is_connection_refused first.reply)) [
        | inr other ↦ rw other (not_restarted-Forwards first last r)
        | inl asked ↦ elim (Bool-cases (try_restart last now).1) [
          | inr other ↦ rw (asked, other) (not_restarted-Forwards first (try_restart last now).0 r)
          | inl t ↦
              let (second, e, s) =
                send_with_retries-Runs (λ n. upstream (first.attempts + n))
                  (λ n. clock (first.attempts + n)) in
              rw (asked, t, e)
                (again-Forwards first second (try_restart last now).0 r s (ground (arith, asked)) t
                  (ground (arith, asked)))
        ]
      ]

  -- A proxied request is always answered, by the reply to its last send. Without a restart of Ollama
  -- it is sent at most three times; a restart is made only where it is configured, outside the
  -- cooldown and behind a send that did not connect, and at most three sends follow it. It is sent
  -- again only behind a 500, a 502, a connection that was never established, or a time-out of
  -- connecting that led to the restart; and the last reply is transient only where it ends three
  -- attempts.
  pub forward_inner-Forwards :
      (clock : ℕ → ℕ) → ForwardedWell (forward_inner auto_restart last now upstream clock)
  unfolding forward_inner
  forward_inner-Forwards clock =
      let (first, e, r) = send_with_retries-Runs upstream clock in
      rw e (forward_first-Forwards clock first r)
