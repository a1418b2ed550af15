-- ===== src/Telemetry/Ledger.antt =====
-- The usage ledger's queue, its worker and their counters
-- (packages/rust-core/src/platform/telemetry: `record_task`, `flush_ledger`, `ledger_worker`). Whether an append
-- succeeds is the file system's answer, an argument of the worker's step.
pub mod Accounting
use free_llama.Base.{
  ℕ, ◌+◌, ◌-◌, Bool, true, false, List, [], ◌∷◌, ◌++◌, Option, none, some, ltb, length,
  if◌then◌else◌,
}

-- The counters are `u64`.
pub record Inner : Type 0 where
  pub ledger_records : ℕ
  pub ledger_pending : ℕ
  pub ledger_failed : ℕ
  pub ledger_dropped : ℕ
  pub ledger_error : Bool

pub data LedgerCommand (R : Type 0) : Type 0 where
  record_task_line : R → LedgerCommand R
  flush_mark : ℕ → LedgerCommand R

-- The channel to the worker, the command that the worker works on, and the flushes it answered.
pub record Ledger (R : Type 0) : Type 0 where
  pub inner : Inner
  pub queue : List (LedgerCommand R)
  pub in_hand : Option (LedgerCommand R)
  pub written : List R
  pub flushed : List ℕ

abbrev pub fresh : {R : Type 0} → ℕ → Ledger R
fresh replayed = record {
  inner = record {
    ledger_records = replayed;
    ledger_pending = 0;
    ledger_failed = 0;
    ledger_dropped = 0;
    ledger_error = false;
  };
  queue = [];
  in_hand = none;
  written = [];
  flushed = [];
}

abbrev pub count_queued : Bool → Inner → Inner
count_queued true inner = record inner { ledger_pending = inner.ledger_pending + 1 }
count_queued false inner = record inner {
  ledger_pending = inner.ledger_pending + 1 - 1;
  ledger_dropped = inner.ledger_dropped + 1;
  ledger_error = true;
}

abbrev pub count_written : Bool → Inner → Inner
count_written true inner = record inner {
  ledger_pending = inner.ledger_pending - 1;
  ledger_records = inner.ledger_records + 1;
}
count_written false inner = record inner {
  ledger_pending = inner.ledger_pending - 1;
  ledger_failed = inner.ledger_failed + 1;
  ledger_error = true;
}

module _ {R : Type 0} (capacity : ℕ) where
  -- `try_send`: whether the channel had room, and the channel.
  abbrev pub try_send : LedgerCommand R → List (LedgerCommand R) → Bool × List (LedgerCommand R)
  try_send command queue =
      if ltb (length queue) capacity then (true, queue ++ (command ∷ [])) else (false, queue)

  -- The part of `record_task` behind the daily totals, with a worker that runs.
  unfoldable pub enqueue : Ledger R → R → Ledger R
  enqueue s line =
      let sent = try_send (record_task_line line) s.queue in
      record s { inner = count_queued sent.0 s.inner; queue = sent.1 }

  -- One attempt of `flush_ledger` to queue its mark.
  unfoldable pub try_flush : Ledger R → ℕ → Ledger R
  try_flush s waiter = record s { queue = (try_send (flush_mark waiter) s.queue).1 }

module _ {R : Type 0} where
  abbrev pub receive_from : Ledger R → List (LedgerCommand R) → Option (LedgerCommand R) → Ledger R
  receive_from s [] hand = s
  receive_from s (command ∷ rest) none = record s { queue = rest; in_hand = some command }
  receive_from s (command ∷ rest) (some busy) = s

  -- The worker takes the next command.
  unfoldable pub receive : Ledger R → Ledger R
  receive s = receive_from s s.queue s.in_hand

  abbrev pub complete_with : Ledger R → Option (LedgerCommand R) → Bool → Ledger R
  complete_with s none written = s
  complete_with s (some (flush_mark waiter)) written = record s {
    in_hand = none;
    flushed = waiter ∷ s.flushed;
  }
  complete_with s (some (record_task_line line)) written = record s {
    inner = count_written written s.inner;
    in_hand = none;
    written = if written then line ∷ s.written else s.written;
  }

  -- The worker is done with its command; an append was `written` or failed.
  unfoldable pub complete : Ledger R → Bool → Ledger R
  complete s written = complete_with s s.in_hand written

-- What happens to a ledger.
pub data Event (R : Type 0) : Type 0 where
  records : R → Event R
  flushes : ℕ → Event R
  receives : Event R
  completes : Bool → Event R

module _ {R : Type 0} (capacity : ℕ) where
  unfoldable pub step : Ledger R → Event R → Ledger R
  step s (records line) = enqueue capacity s line
  step s (flushes waiter) = try_flush capacity s waiter
  step s receives = receive s
  step s (completes written) = complete s written

  abbrev pub run : Ledger R → List (Event R) → Ledger R
  run s [] = s
  run s (e ∷ events) = run (step s e) events
