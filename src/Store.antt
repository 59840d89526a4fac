-- ===== src/Store.antt =====
-- The content store: crates/bellows-core/src/lib.rs.
pub mod Records
pub mod Error
pub mod Keys
pub mod Paths
pub mod Contained
pub mod Manifest
pub mod Declared
pub mod Sound
pub mod Accepted
pub mod Contents
pub mod Published
pub mod Front
pub mod Indexed
pub mod Archived
pub mod Declarations
pub mod Normalizer
pub mod Replaced
pub mod Restored
pub mod Words
mod Tests
mod Examples
