-- ===== src/Retrieval.antt =====
-- scopeproof_core/retrieval/engine.py: candidate lines for each criterion, and what was searched.
pub mod Terms
pub mod Paths
pub mod Matches
pub mod Search
pub mod Bounds
pub mod Levels
