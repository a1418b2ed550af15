-- ===== src/Telemetry.antt =====
-- Monitoring (packages/rust-core/src/platform/telemetry).
pub mod Days
pub mod Ledger
