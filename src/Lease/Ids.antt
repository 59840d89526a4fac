-- ===== src/Lease/Ids.antt =====
-- The ids of a scheduler, and how each operation moves them: an id waits, holds a machine or runs
-- nested. crates/bellows-lease/src/scheduler.rs.
pub mod Uses
pub mod Queue
pub mod Moves
pub mod Release
