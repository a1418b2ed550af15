-- ===== src/Proxy.antt =====
-- The raw Ollama-compatible proxy (packages/rust-core/src/proxy).
pub mod Raw
pub mod Retry
pub mod Forward
