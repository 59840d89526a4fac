-- ===== src/Relay.antt =====
-- The session relay between a build's compiler wrappers and the server:
-- crates/bellows-cli/src/relay.rs.
pub mod Order
pub mod Ordered
pub mod State
pub mod Route
pub mod Upload
pub mod Tasks
pub mod Valid
pub mod Kept
pub mod Steps
pub mod Runs
pub mod Causal
pub mod After
pub mod Drained
pub mod Finish
pub mod Guarded
pub mod Requests
mod Tests
