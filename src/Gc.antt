-- ===== src/Gc.antt =====
-- The collection of a store: crates/bellows-core/src/gc.rs.
pub mod State
pub mod Index
pub mod Plan
pub mod Counts
pub mod Unreference
pub mod Tracks
pub mod Executables
pub mod Order
pub mod Budget
pub mod Empty
pub mod Oldest
pub mod Recent
pub mod Start
pub mod Naming
pub mod Reading
pub mod Outcome
pub mod Journal
pub mod Journaled
pub mod Compacted
pub mod Report
pub mod Totals
pub mod Apply
pub mod Applied
mod Tests
