-- ===== src/Pipeline.antt =====
-- crates/pipeline: from a captured signal to a summary that may be stored.
pub mod Classify
pub mod Process
mod Tests
