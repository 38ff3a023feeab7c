-- ===== src/Domain.antt =====
-- crates/domain: the types that every other crate stands on.
pub mod Privacy
pub mod Signal
pub mod Pattern
