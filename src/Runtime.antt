-- ===== src/Runtime.antt =====
-- Per-backend control of execution (packages/rust-core/src/platform/runtime).
pub mod Breaker
pub mod Profile
pub mod Adaptive
pub mod RetryAfter
