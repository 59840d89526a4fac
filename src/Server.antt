-- ===== src/Server.antt =====
-- The HTTP server over the store: crates/bellows-server/src/main.rs.
pub mod Api
pub mod Leases
pub mod Exclusive
pub mod Blobs
pub mod Publish
pub mod Complete
pub mod Received
pub mod Collect
pub mod Execution
pub mod SingleFlight
mod Tests
