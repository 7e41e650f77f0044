-- ===== src/Lifecycle/Context.antt =====
-- The operations of scopeproof_core/reviews/lifecycle.py that add context to the active analysis:
-- file scope decisions, runtime evidence and JUnit imports.
use scope_proof.Base.{
  not, ◌&&◌, Option, none, some, [], ◌∷◌, ◌++◌, Result, err, ◌>>=◌, ◌>>◌, raise_if, any, contains,
  is_none, length, leb, ◌==◌, string_eq, nat_eq, option_eq,
}
use scope_proof.Schema.{
  Platform, ReviewBundle, ReviewState, RuntimeEvidence, FileScopeDecision, JunitEvidenceImport,
  provenance_eq,
}
use scope_proof.Records.{validate_runtime_evidence, validate_file_scope_decision}
use scope_proof.Records.Imports.{validate_import, mapped_criteria}
use scope_proof.FileScope.{has_digest}
use scope_proof.Gate.{criterion_ids}
use scope_proof.Bundle.Selected.{inventory_paths}
use scope_proof.Bundle.Records.{is_of_review}
use scope_proof.Validation.{validated_review_state}
use scope_proof.Lifecycle.Decisions.{with_gate}

-- The checks of `append_file_scope_decision` against the active analysis.
abbrev pub guard_scope : ReviewState → FileScopeDecision → ReviewBundle → Result (Unit {0})
guard_scope s d b = do
  raise_if (not s.criteria_revision.confirmed)
      "Run a confirmed analysis before recording file scope"
  raise_if s.review.final_acceptance "Revoke final acceptance before changing file scope"
  validate_file_scope_decision d
  raise_if (not (d.head_sha == s.review.head_sha)) "file scope decision must match the active head"
  raise_if (not (d.review_id == s.review.review_id))
      "file scope decision must match the active review"
  raise_if (not (has_digest s.review.criteria_source_provenance d.normalized_criteria_sha256))
      "file scope decision must match the confirmed criteria"
  raise_if (not (d.criteria_revision_number == s.criteria_revision.number))
      "file scope decision must match the active criteria revision"
  raise_if (not (contains (inventory_paths s.review.changed_file_inventory) d.path))
      "file scope decision requires an inventoried changed path"
  raise_if (any (λ x. x.event_id == d.event_id) b.file_scope_decisions)
      "file scope decision event ID must be unique"

abbrev pub scope_on :
    Platform → ReviewState → FileScopeDecision → Option ReviewBundle → Result ReviewState
scope_on P s d none = err "Run a confirmed analysis before recording file scope"
scope_on P s d (some b) = do
  guard_scope s d b
  validated_review_state P (record s {
    bundle =
        some (with_gate P (record b { file_scope_decisions = b.file_scope_decisions ++ d ∷ [] }));
  })

unfoldable pub append_file_scope_decision :
    Platform → ReviewState → FileScopeDecision → Result ReviewState
append_file_scope_decision P state decision = do
  s ← validated_review_state P state
  scope_on P s decision s.bundle

-- Those of `append_runtime_evidence`.
abbrev pub guard_runtime : ReviewState → RuntimeEvidence → ReviewBundle → Result (Unit {0})
guard_runtime s e b = do
  raise_if (not (contains (criterion_ids b.criteria) e.criterion_id))
      "runtime evidence must reference a criterion in the active review"
  raise_if (is_none e.runtime_evidence_id)
      "runtime evidence must include the active review identity"
  raise_if (not (is_of_review s.review e)) "runtime evidence must match the active review identity"
  raise_if (any (λ x. x.runtime_evidence_id == e.runtime_evidence_id) b.runtime_evidence)
      "runtime evidence ID must be unique"

abbrev pub runtime_on :
    Platform → ReviewState → RuntimeEvidence → Option ReviewBundle → Result ReviewState
runtime_on P s e none = err "Run a confirmed analysis before recording runtime evidence"
runtime_on P s e (some b) = do
  guard_runtime s e b
  validated_review_state P
      (record s { bundle = some (record b { runtime_evidence = b.runtime_evidence ++ e ∷ [] }) })

unfoldable pub append_runtime_evidence :
    Platform → ReviewState → RuntimeEvidence → Result ReviewState
append_runtime_evidence P state evidence = do
  s ← validated_review_state P state
  validate_runtime_evidence evidence
  runtime_on P s evidence s.bundle

-- Those of `append_junit_evidence_import`.
abbrev pub guard_import :
    Platform → ReviewState → JunitEvidenceImport → ReviewBundle → Result (Unit {0})
guard_import P s i b = do
  raise_if (leb 20 (length b.junit_evidence_imports)) "review may contain at most 20 JUnit imports"
  validate_import i
  raise_if
      (not (
        i.repository == s.review.repository
        && i.pr_number == s.review.pr_number
        && i.head_sha == s.review.head_sha))
      "JUnit import must match the active review identity"
  raise_if (not (i.criteria_revision_number == s.criteria_revision.number))
      "JUnit import criteria revision must match the active revision"
  raise_if (not (i.confirmed_criteria_sha256 == P.criteria_sha256 s.criteria_revision.criteria))
      "JUnit import criteria digest must match the active revision"
  raise_if (not (some i.criteria_source_provenance == s.criteria_revision.source_provenance))
      "JUnit import criteria provenance must match the active revision"
  raise_if
      (any (λ c. not (contains (criterion_ids s.criteria_revision.criteria) c))
        (mapped_criteria i.criterion_mappings))
      "JUnit import mappings must reference active criteria"
  raise_if (any (λ x. x.artifact_sha256 == i.artifact_sha256) b.junit_evidence_imports)
      "JUnit artifact is already imported"
  raise_if (any (λ x. x.import_id == i.import_id) b.junit_evidence_imports)
      "JUnit import ID is already recorded"

-- The last test, that nothing but the imports has changed, compares the updated state with what it
-- was built from; the values are equal here, so that it does not raise.
abbrev pub import_on :
    Platform → ReviewState → JunitEvidenceImport → Option ReviewBundle → Result ReviewState
import_on P s i none = err "JUnit import requires an active analysis"
import_on P s i (some b) = do
  guard_import P s i b
  validated_review_state P (record s {
    bundle = some (record b { junit_evidence_imports = b.junit_evidence_imports ++ i ∷ [] });
  })

unfoldable pub append_junit_evidence_import :
    Platform → ReviewState → JunitEvidenceImport → Result ReviewState
append_junit_evidence_import P state evidence_import = do
  s ← validated_review_state P state
  import_on P s evidence_import s.bundle
