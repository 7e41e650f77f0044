-- ===== src/Bundle.antt =====
-- `ReviewBundle.model_validate` of scopeproof_core/schemas/models.py: the validators of the records
-- inside, then `validate_cross_references`. The children hold its parts, in the source's order.
pub mod Audit
pub mod Selected
pub mod Candidates
pub mod Records
use scope_proof.Base.{Result, ok, err, ◌>>=◌, ◌>>◌, raise_if, each, is_blank, length, ltb}
use scope_proof.Schema.{Platform, ReviewBundle}
use scope_proof.Events.{validate_resolution}
use scope_proof.Records as Parts
use scope_proof.Records.Imports.{validate_import, validate_import_event}
use scope_proof.Gate.{criterion_ids}
use scope_proof.Bundle.Selected.{check_criteria, check_references}
use scope_proof.Bundle.Candidates.{
  check_file_scope_decisions, check_evidence, check_diagnostics, check_findings,
}
use scope_proof.Bundle.Records.{check_runtime, check_imports, check_resolutions, check_gate}

-- The validators of the fields.
unfoldable pub validate_parts : ReviewBundle → Result (Unit {0})
unfolding is_blank
validate_parts b = do
  Parts.validate_review b.review
  raise_if (is_blank b.source_text) "requirements source must contain non-whitespace text"
  each Parts.validate_evidence_item b.evidence
  each Parts.validate_diagnostic b.retrieval_diagnostics
  each Parts.validate_runtime_evidence b.runtime_evidence
  raise_if (ltb 20 (length b.junit_evidence_imports)) "too many JUnit imports"
  each validate_import b.junit_evidence_imports
  raise_if (ltb 40 (length b.junit_import_events)) "too many JUnit import events"
  each validate_import_event b.junit_import_events
  each validate_resolution b.resolutions
  each Parts.validate_file_scope_decision b.file_scope_decisions
  raise_if (ltb 128 (length b.reviewer_selected_references)) "too many selected references"
  raise_if (ltb 128 (length b.selected_reference_events)) "too many selected reference events"
  each Parts.validate_reference_event b.selected_reference_events

unfoldable pub validate_cross_references : Platform → ReviewBundle → Result (Unit {0})
validate_cross_references P b = do
  check_criteria P b
  check_references P b
  check_file_scope_decisions P b
  check_evidence P b
  check_diagnostics b
  check_findings b
  check_runtime b
  check_imports P b
  check_resolutions b
  check_gate (criterion_ids b.criteria) b.gate

unfoldable pub validate_bundle : Platform → ReviewBundle → Result (Unit {0})
validate_bundle P b = do validate_parts b; validate_cross_references P b
