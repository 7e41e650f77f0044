-- ===== src/Records.antt =====
-- The model validators of the records inside a bundle, of scopeproof_core/schemas/models.py. Each
-- gives the message of the ValueError that it raises.
pub mod Checks
pub mod Counts
pub mod Imports
use scope_proof.Base.{
  ℕ, ◌+◌, ◌-◌, String, Bool, true, false, not, ◌&&◌, ◌||◌, Option, none, some, List, [], ◌∷◌, map,
  Result, ok, err, ◌>>=◌, ◌>>◌, raise_if, each, is_empty, is_some, is_none, is_blank, ◌==◌,
  string_eq, option_eq, nat_eq, bool_eq, nodup, ltb, length,
}
use Prim.Native.Nat.{min}
use scope_proof.Schema.{
  Platform, Review, ChangedFileInventory, EvidenceItem, RuntimeEvidence, FileScopeDecision,
  Disposition, CriterionRetrievalDiagnostic, SelectedReferenceEvent, ReferenceAction,
  CriteriaRevision, CriteriaSourceProvenance, is_complete, is_runtime_level, check_state_eq,
}
use scope_proof.Records.Checks.{validate_ci}

-- `ChangedFileInventory.unique_paths`
unfoldable pub validate_inventory : Option ChangedFileInventory → Result (Unit {0})
validate_inventory none = ok tt
validate_inventory (some inventory) =
    raise_if (not (nodup (map (λ f. f.path) inventory.files)))
      "changed-file inventory paths must be unique"

-- The inventory is for another head.
abbrev pub head_differs : Option ChangedFileInventory → String → Bool
head_differs none head = false
head_differs (some inventory) head = not (inventory.head_sha == head)

-- `Review.limitations_require_noncomplete_ingestion`, behind the validators of its parts.
unfoldable pub validate_review : Review → Result (Unit {0})
unfolding is_blank validate_inventory
validate_review r = do
  validate_ci r.ci_observation
  validate_inventory r.changed_file_inventory
  raise_if (is_blank r.base_sha || is_blank r.head_sha)
      "review identity must contain non-whitespace text"
  raise_if (not (r.check_state == r.ci_observation.state))
      "check_state must agree with ci_observation.state"
  raise_if
      (is_complete r.ingestion_state
        && (not (is_empty r.ingestion_warnings) || not (is_empty r.skipped_files)))
      "complete ingestion cannot include limitations"
  raise_if (head_differs r.changed_file_inventory r.head_sha)
      "changed-file inventory head must match review head"

-- `EvidenceItem.validate_line_range`
unfoldable pub validate_evidence_item : EvidenceItem → Result (Unit {0})
validate_evidence_item e =
    raise_if (ltb e.line_end e.line_start) "line_end must be greater than or equal to line_start"

abbrev pub one_if : Bool → ℕ
one_if true = 1
one_if false = 0

-- How many of the identity fields are present.
abbrev pub populated : RuntimeEvidence → ℕ
populated e =
    one_if (is_some e.runtime_evidence_id)
    + one_if (is_some e.repository)
    + one_if (is_some e.pr_number)
    + one_if (is_some e.head_sha)

-- `RuntimeEvidence.validate_runtime_identity_scope` and `validate_manual_level`
unfoldable pub validate_runtime_evidence : RuntimeEvidence → Result (Unit {0})
validate_runtime_evidence e = do
  raise_if (not (populated e == 0 || populated e == 4))
      "runtime identity fields must all be present or all be absent"
  raise_if (not (is_runtime_level e.evidence_level)) "runtime evidence requires E3 or E4"

-- `FileScopeDecision.validate_disposition`
unfoldable pub validate_file_scope_decision : FileScopeDecision → Result (Unit {0})
unfolding is_blank
validate_file_scope_decision d = do
  raise_if (is_blank d.note || is_blank d.reviewer)
      "file scope decision requires a reviewer and explanation"
  elim d.disposition [
    | Disposition.within_confirmed_criteria ↦
        raise_if (is_none d.criterion_id) "within-criteria decision requires a criterion ID"
    | Disposition.outside_confirmed_criteria ↦
        raise_if (is_some d.criterion_id) "outside-criteria decision cannot cite a criterion ID"
  ]

-- `CriterionRetrievalDiagnostic.validate_selection_completeness`
selection : ℕ → ℕ → Option ℕ → Option ℕ → Option ℕ → Result (Unit {0})
selection inspectable accepted none none none = ok tt
selection inspectable accepted (some eligible) (some limit) (some omitted) = do
  raise_if (ltb inspectable eligible) "eligible candidates cannot exceed inspectable lines"
  raise_if (ltb (min eligible limit) accepted)
      "selected candidates cannot exceed eligible count or limit"
  raise_if (not (omitted == eligible - accepted))
      "omitted candidates must equal eligible minus selected"
selection inspectable accepted _ _ _ = err "candidate selection counters must be recorded together"

unfoldable pub validate_diagnostic : CriterionRetrievalDiagnostic → Result (Unit {0})
unfolding selection
validate_diagnostic d =
    selection d.inspectable_line_count d.accepted_candidate_count d.eligible_candidate_count
      d.candidate_limit d.omitted_candidate_count

abbrev pub is_correction : ReferenceAction → Bool
is_correction ReferenceAction.corrected = true
is_correction ReferenceAction.withdrawn = false

-- `SelectedReferenceEvent.action_payload`
unfoldable pub validate_reference_event : SelectedReferenceEvent → Result (Unit {0})
validate_reference_event e =
    raise_if (not (is_correction e.action == is_some e.replacement_reference_id))
      "only a correction requires a replacement reference"

-- `CriteriaRevision.validate_source_provenance`
abbrev provenance_faults :
    Platform → CriteriaRevision → Option CriteriaSourceProvenance → Result (Unit {0})
provenance_faults P r none = ok tt
provenance_faults P r (some p) = do
  raise_if (not r.confirmed) "criteria source provenance requires confirmed criteria"
  raise_if (not (r.confirmed_at == some p.confirmed_at))
      "criteria confirmation timestamp must match source provenance"
  raise_if (not (p.source_text_sha256 == P.text_sha256 r.source_text))
      "criteria source provenance does not match source text"
  raise_if (not (p.normalized_criteria_sha256 == P.criteria_sha256 r.criteria))
      "criteria source provenance does not match criteria"

unfoldable pub validate_revision : Platform → CriteriaRevision → Result (Unit {0})
unfolding is_blank
validate_revision P r = do
  raise_if (is_blank r.source_text) "requirements source must contain non-whitespace text"
  provenance_faults P r r.source_provenance
