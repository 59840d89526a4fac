-- ===== src/Lease.antt =====
-- The lease scheduler for shared build machines: crates/bellows-lease.
pub mod Protocol
pub mod Token
pub mod State
pub mod Scheduler
pub mod Ids
pub mod Calls
pub mod Valid
pub mod Grants
pub mod Facts
pub mod Daemon
pub mod Duration
mod Tests
