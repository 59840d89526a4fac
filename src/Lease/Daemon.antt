-- ===== src/Lease/Daemon.antt =====
-- The daemon around the scheduler: crates/bellows-lease/src/server.rs.
pub mod State
pub mod Command
pub mod Connection
pub mod Owners
pub mod Moves
pub mod History
pub mod Run
pub mod Kill
pub mod Leak
mod Tests
