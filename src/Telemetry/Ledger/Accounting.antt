-- ===== src/Telemetry/Ledger/Accounting.antt =====
-- The counters of the ledger in the interleavings of tasks, flushes and the worker
-- (packages/rust-core/src/platform/telemetry).
use free_llama.Base.{
  ℕ, ◌+◌, ◌≤◌, ◌≡◌, refl, ap, subst, Bool, true, false, List, [], ◌∷◌, ◌++◌, Option, none, some,
  length, arith, length-append,
}
use free_llama.Telemetry.Ledger.{
  LedgerCommand, record_task_line, flush_mark, Ledger, fresh, enqueue, try_flush, receive,
  receive_from, complete, complete_with, Event, records, flushes, receives, completes, step, run,
}

module _ {R : Type 0} where
  -- The records among commands.
  abbrev pub lines : List (LedgerCommand R) → ℕ
  lines [] = 0
  lines (record_task_line line ∷ rest) = 1 + lines rest
  lines (flush_mark waiter ∷ rest) = lines rest

  abbrev pub line_in_hand : Option (LedgerCommand R) → ℕ
  line_in_hand none = 0
  line_in_hand (some (record_task_line line)) = 1
  line_in_hand (some (flush_mark waiter)) = 0

  lines-append : (xs ys : List (LedgerCommand R)) → lines (xs ++ ys) ≡ lines xs + lines ys
  lines-append [] ys = omega arith
  lines-append (record_task_line line ∷ rest) ys = omega (arith, lines-append rest ys)
  lines-append (flush_mark waiter ∷ rest) ys = lines-append rest ys

  abbrev pub recorded : List (Event R) → ℕ
  recorded [] = 0
  recorded (records line ∷ events) = 1 + recorded events
  recorded (flushes waiter ∷ events) = recorded events
  recorded (receives ∷ events) = recorded events
  recorded (completes written ∷ events) = recorded events

  -- The counters after `total` records, those of earlier runs included.
  pub record Balanced (capacity replayed total : ℕ) (s : Ledger R) : Type 0 where
    pub kept : s.inner.ledger_records ≡ replayed + length s.written
    pub pending : s.inner.ledger_pending ≡ lines s.queue + line_in_hand s.in_hand
    pub balance :
        s.inner.ledger_records + s.inner.ledger_failed + s.inner.ledger_dropped
          + s.inner.ledger_pending
        ≡ total
    pub room : length s.queue ≤ capacity

module _ {R : Type 0} (capacity replayed : ℕ) where
  enqueue-Balanced :
      (total : ℕ) (s : Ledger R) (line : R)
      → Balanced capacity replayed total s
      → Balanced capacity replayed (total + 1) (enqueue capacity s line)
  unfolding enqueue
  enqueue-Balanced total s line h = ground (
    arith,
    h.kept,
    h.pending,
    h.balance,
    h.room,
    lines-append s.queue (record_task_line line ∷ []),
    length-append s.queue (record_task_line line ∷ []),
  )

  try_flush-Balanced :
      (total : ℕ) (s : Ledger R) (waiter : ℕ)
      → Balanced capacity replayed total s
      → Balanced capacity replayed total (try_flush capacity s waiter)
  unfolding try_flush
  try_flush-Balanced total s waiter h = ground (
    arith,
    h.kept,
    h.pending,
    h.balance,
    h.room,
    lines-append s.queue (flush_mark waiter ∷ []),
    length-append s.queue (flush_mark waiter ∷ []),
  )

  receive_from-Balanced :
      (total : ℕ) (s : Ledger R) (queue : List (LedgerCommand R)) (hand : Option (LedgerCommand R))
      → s.queue ≡ queue
      → s.in_hand ≡ hand
      → Balanced capacity replayed total s
      → Balanced capacity replayed total (receive_from s queue hand)
  receive_from-Balanced total s [] hand e f h = h
  receive_from-Balanced total s (record_task_line line ∷ rest) none e f h = record {
    kept = h.kept;
    pending = omega (arith, h.pending, ap lines e, ap line_in_hand f);
    balance = h.balance;
    room = omega (arith, h.room, ap length e);
  }
  receive_from-Balanced total s (flush_mark waiter ∷ rest) none e f h = record {
    kept = h.kept;
    pending = omega (arith, h.pending, ap lines e, ap line_in_hand f);
    balance = h.balance;
    room = omega (arith, h.room, ap length e);
  }
  receive_from-Balanced total s (command ∷ rest) (some busy) e f h = h

  complete_with-Balanced :
      (total : ℕ) (s : Ledger R) (hand : Option (LedgerCommand R)) (written : Bool)
      → s.in_hand ≡ hand
      → Balanced capacity replayed total s
      → Balanced capacity replayed total (complete_with s hand written)
  complete_with-Balanced total s none written f h = h
  complete_with-Balanced total s (some (flush_mark waiter)) written f h = record {
    kept = h.kept;
    pending = omega (arith, h.pending, ap line_in_hand f);
    balance = h.balance;
    room = h.room;
  }
  complete_with-Balanced total s (some (record_task_line line)) true f h = record {
    kept = omega (arith, h.kept);
    pending = omega (arith, h.pending, ap line_in_hand f);
    balance = omega (arith, h.pending, h.balance, ap line_in_hand f);
    room = h.room;
  }
  complete_with-Balanced total s (some (record_task_line line)) false f h = record {
    kept = h.kept;
    pending = omega (arith, h.pending, ap line_in_hand f);
    balance = omega (arith, h.pending, h.balance, ap line_in_hand f);
    room = h.room;
  }

  abbrev one_record : Event R → ℕ
  one_record e = recorded (e ∷ [])

  step-Balanced :
      (total : ℕ) (s : Ledger R) (e : Event R)
      → Balanced capacity replayed total s
      → Balanced capacity replayed (total + one_record e) (step capacity s e)
  unfolding step receive complete
  step-Balanced total s (records line) h = enqueue-Balanced total s line h
  step-Balanced total s (flushes waiter) h =
      let same : total + 0 ≡ total = omega arith in rw same (try_flush-Balanced total s waiter h)
  step-Balanced total s receives h =
      let same : total + 0 ≡ total = omega arith in
      rw same (receive_from-Balanced total s s.queue s.in_hand refl refl h)
  step-Balanced total s (completes written) h =
      let same : total + 0 ≡ total = omega arith in
      rw same (complete_with-Balanced total s s.in_hand written refl h)

  recorded-cons :
      (e : Event R) (events : List (Event R))
      → recorded (e ∷ events) ≡ one_record e + recorded events
  recorded-cons (records line) events = omega arith
  recorded-cons (flushes waiter) events = omega arith
  recorded-cons receives events = omega arith
  recorded-cons (completes written) events = omega arith

  run-from :
      (total : ℕ) (s : Ledger R) (events : List (Event R))
      → Balanced capacity replayed total s
      → Balanced capacity replayed (total + recorded events) (run capacity s events)
  run-from total s [] h = let same : total + 0 ≡ total = omega arith in rw same h
  run-from total s (e ∷ events) h =
      let same : total + one_record e + recorded events ≡ total + recorded (e ∷ events) =
        omega (arith, recorded-cons e events) in
      subst (λ n. Balanced capacity replayed n (run capacity (step capacity s e) events)) same
        (run-from (total + one_record e) (step capacity s e) events (step-Balanced total s e h))

  -- In every interleaving of tasks, flushes and the worker, from a start that replayed some
  -- records, `ledger_records` counts the replayed tasks and the lines that were written; the replayed
  -- and the recorded tasks are those it counts and those failed, dropped and pending;
  -- the pending ones are those in the queue and in the worker's hands, so that the counter never
  -- wraps around; and the queue holds no more commands than its capacity.
  pub run-Balanced :
      (events : List (Event R))
      → Balanced capacity replayed
          (replayed + recorded events)
          (run capacity (fresh replayed) events)
  run-Balanced events = run-from replayed (fresh replayed) events (record {
    kept = omega arith;
    pending = omega arith;
    balance = omega arith;
    room = omega arith;
  })
