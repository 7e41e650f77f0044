-- ===== src/Audits.antt =====
-- The audited changes of saved context: JUnit imports (scopeproof_core/reviews/junit_audit.py and
-- junit_correction.py) and selected references (scopeproof_core/reviews/reference_audit.py).
pub mod Projections
pub mod Junit
pub mod References
pub mod Recorded
pub mod Retained
pub mod Effective
pub mod Outcomes
pub mod Replays
