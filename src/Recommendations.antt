-- ===== src/Recommendations.antt =====
-- crates/recommendations: from a detected pattern to a recommendation, by way of a language model.
pub mod Extract
pub mod Counts
pub mod Synthesizer
mod Tests
