-- ===== src/Wrapper.antt =====
-- The compiler wrapper: crates/bellows-cli/src/main.rs.
pub mod Options
pub mod Naming
pub mod Agree
pub mod Native
pub mod Invocation
pub mod Analyze
pub mod Owned
mod Tests
