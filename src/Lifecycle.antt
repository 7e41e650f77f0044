-- ===== src/Lifecycle.antt =====
-- scopeproof_core/reviews/lifecycle.py: the operations on a review's state. Copies of models are the
-- values themselves, and a time that the code reads from the clock is an argument.
pub mod Revisions
pub mod Decisions
pub mod Context
pub mod Numbers
pub mod Carried
pub mod Revising
pub mod Appending
pub mod Current
pub mod Finality
pub mod Extending
pub mod Runs
