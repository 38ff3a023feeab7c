-- ===== src/Patterns.antt =====
-- crates/patterns: the identity of an event, repeated sequences and the graph of transitions.
pub mod Key
pub mod Select
pub mod Groups
pub mod Detector
pub mod Graph
mod Tests
