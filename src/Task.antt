-- ===== src/Task.antt =====
-- The kinds and service classes of a task (packages/rust-core/src/platform/routing.rs).

pub data TaskKind : Type 0 where
  completion coding code_repair tools browser vision embedding long_context : TaskKind

pub data TaskPriority : Type 0 where
  interactive normal background : TaskPriority

pub TaskKind-discrete : Discrete TaskKind
TaskKind-discrete = hlevel

pub TaskPriority-discrete : Discrete TaskPriority
TaskPriority-discrete = hlevel
