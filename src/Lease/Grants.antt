-- ===== src/Lease/Grants.antt =====
-- What `grant` of crates/bellows-lease/src/scheduler.rs grants.
pub mod Turn
pub mod Exact
pub mod Settled
