-- ===== src/Admission.antt =====
-- Weighted admission (packages/rust-core/src/platform/admission.rs): the state, the choice of the
-- next waiter, the critical sections, and what is proved of them.
pub mod State
pub mod Select
pub mod Queue
pub mod Pool
