-- ===== src/Analysis.antt =====
-- The opportunity analysis (src/gapforge/analysis and src/gapforge/scoring).
pub mod Lifecycle
pub mod Transitions
pub mod Gates
pub mod Verdicts
mod Examples
