-- ===== src/Retrieval/Bounds.antt =====
-- The retrieval of scopeproof_core/retrieval/engine.py returns on every input, with at most eight
-- candidates for each criterion, and its counts are consistent.
use scope_proof.Base.{nat_eq}
use scope_proof.Schema.{evidence_type_eq}
use scope_proof.Records as Parts
use scope_proof.Retrieval.Matches.{match_eq}
