-- ===== src/Lease/Scheduler.antt =====
-- The operations of crates/bellows-lease/src/scheduler.rs, `impl Scheduler`. A method that changes
-- the scheduler returns the new one, with its result.
pub mod Admit
pub mod Order
pub mod Grant
pub mod Release
pub mod Admin
pub mod Status
