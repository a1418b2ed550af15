-- ===== src/Footprint/Saves.antt =====
-- Snapshots of the history are written outside its lock, in any order
-- (packages/rust-core/src/platform/footprint.rs, `snapshot` and `FootprintSave::write`). Whether a write succeeds is
-- the file system's answer; the file is known by the generation that it holds.
use free_llama.Base.{ℕ, ◌+◌, ◌≤◌, ◌≡◌, Bool, true, List, [], ◌∷◌, leb, arith, if◌then◌else◌}

pub record SaveState : Type 0 where
  pub generation : ℕ
  pub persisted : ℕ
  pub file : ℕ

-- No snapshot was taken or written; generation 0 is the file before the process.
abbrev pub unsaved : SaveState
unsaved = record { generation = 0; persisted = 0; file = 0 }

-- `snapshot`: the next generation.
unfoldable pub snapshot : SaveState → SaveState
snapshot s = record s { generation = s.generation + 1 }

-- `write` of a snapshot; the rename is atomic, so that the file changes only with success.
unfoldable pub write : SaveState → ℕ → Bool → SaveState
write s generation succeeds =
    if leb generation s.persisted
    then s
    else if succeeds
    then record s { persisted = generation; file = generation }
    else s

pub data SaveEvent : Type 0 where
  takes : SaveEvent
  writes : ℕ → Bool → SaveEvent

unfoldable pub save_step : SaveState → SaveEvent → SaveState
save_step s takes = snapshot s
save_step s (writes generation succeeds) = write s generation succeeds

abbrev pub saves : SaveState → List SaveEvent → SaveState
saves s [] = s
saves s (e ∷ events) = saves (save_step s e) events

abbrev pub IsPersisted : SaveState → Type 0
IsPersisted s = s.file ≡ s.persisted

save_step-IsPersisted :
    (s : SaveState) (e : SaveEvent)
    → IsPersisted s
    → IsPersisted (save_step s e) × (s.file ≤ (save_step s e).file)
unfolding save_step snapshot write
save_step-IsPersisted s takes h = (h, omega arith)
save_step-IsPersisted s (writes generation succeeds) h = ground arith

saves-IsPersisted :
    (events : List SaveEvent) (s : SaveState)
    → IsPersisted s
    → IsPersisted (saves s events) × (s.file ≤ (saves s events).file)
saves-IsPersisted [] s h = (h, omega arith)
saves-IsPersisted (e ∷ events) s h =
    let (k, le) = save_step-IsPersisted s e h in
    let (l, le₁) = saves-IsPersisted events (save_step s e) k in (l, omega arith)

written-le :
    (s : SaveState) (generation : ℕ) → IsPersisted s → generation ≤ (write s generation true).file
unfolding write
written-le s generation h = ground arith

-- Whatever the order of the snapshots and writes, from a state whose file is the persisted one: after
-- a successful write of a snapshot the file never holds an older one.
saves-write :
    (before after : List SaveEvent) (s : SaveState) (generation : ℕ)
    → IsPersisted s
    → generation ≤ (saves (write (saves s before) generation true) after).file
unfolding save_step
saves-write before after s generation h =
    let (k, le) = saves-IsPersisted before s h in
    let (l, le₁) = save_step-IsPersisted (saves s before) (writes generation true) k in
    let (m, le₂) = saves-IsPersisted after (write (saves s before) generation true) l in
    omega (arith, written-le (saves s before) generation k, le₂)
