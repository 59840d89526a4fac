-- ===== src/Lease/Facts.antt =====
-- What the daemon relies on: theorems about single operations of
-- crates/bellows-lease/src/scheduler.rs.
pub mod Ending
pub mod Claiming
pub mod Ranking
pub mod Moving
pub mod Overruns
pub mod Sessions
