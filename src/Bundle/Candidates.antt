-- ===== src/Bundle/Candidates.antt =====
-- The part of `ReviewBundle.validate_cross_references` about file scope decisions, evidence,
-- diagnostics and findings.
use scope_proof.Base.{
  ℕ, String, Bool, true, false, not, ◌&&◌, Option, none, some, List, map, Result, ok, ◌>>◌,
  raise_if, each, any, filter, contains, nodup, same_members, last_by, is_empty, is_none, is_some,
  length, filter_map, if◌then◌else◌, ◌==◌, string_eq, nat_eq, option_eq,
}
use scope_proof.Schema.{
  Platform, ReviewBundle, FileScopeDecision, EvidenceItem, EvidenceType, EvidenceLevel, Finding,
  FindingStatus, CriterionRetrievalDiagnostic, is_changed_file, is_live, evidence_level_eq, e1, e2,
  Review,
}
use scope_proof.Findings.{best_level}
use scope_proof.Gate.{criterion_ids, finding_ids}
use scope_proof.Permalink.{candidate_permalink_matches}
use scope_proof.Bundle.Selected.{inventory_paths}

abbrev pub known : ReviewBundle → String → Bool
known b = contains (criterion_ids b.criteria)

-- `criterion_id is not None and criterion_id not in known_criteria`
abbrev is_unknown : ReviewBundle → Option String → Bool
is_unknown b none = false
is_unknown b (some c) = not (known b c)

unfoldable pub check_file_scope_decision :
    Platform → ReviewBundle → FileScopeDecision → Result (Unit {0})
check_file_scope_decision P b d = do
  raise_if (is_none b.criteria_revision_number)
      "file scope decision requires known criteria revision"
  raise_if (not (d.review_id == b.review.review_id))
      "file scope decision review must match owning review"
  raise_if (not (d.normalized_criteria_sha256 == P.criteria_sha256 b.criteria))
      "file scope decision must match confirmed criteria digest"
  raise_if (not (d.head_sha == b.review.head_sha)) "file scope decision head must match review head"
  raise_if (not (contains (inventory_paths b.review.changed_file_inventory) d.path))
      "file scope decision path must be in changed-file inventory"
  raise_if (is_unknown b d.criterion_id) "file scope decision criterion must be confirmed"
  raise_if (not (some d.criteria_revision_number == b.criteria_revision_number))
      "file scope decision must match criteria revision"

unfoldable pub check_file_scope_decisions : Platform → ReviewBundle → Result (Unit {0})
unfolding check_file_scope_decision
check_file_scope_decisions P b = do
  raise_if (not (nodup (map (λ d. d.event_id) b.file_scope_decisions)))
      "file scope decision event IDs must be unique"
  each (check_file_scope_decision P b) b.file_scope_decisions

-- `expected_level`
abbrev pub expected_level : EvidenceType → Option EvidenceLevel
expected_level EvidenceType.implementation = some e1
expected_level EvidenceType.documentation = some e1
expected_level EvidenceType.contract = some e1
expected_level EvidenceType.test = some e2
expected_level _ = none

abbrev permalink_matches : Platform → Review → EvidenceItem → Bool
permalink_matches P review e =
    candidate_permalink_matches P e.permalink review.repository e.commit_sha e.file_path
      e.line_start e.line_end

unfoldable pub check_evidence_item : Platform → ReviewBundle → EvidenceItem → Result (Unit {0})
unfolding candidate_permalink_matches
check_evidence_item P b e = do
  raise_if
      (is_some b.review.changed_file_inventory
        && is_changed_file e.source_scope
        && not (contains (inventory_paths b.review.changed_file_inventory) e.file_path))
      "changed-file evidence path must be in inventory"
  raise_if (not (some e.evidence_level == expected_level e.evidence_type))
      "candidate evidence type and level must agree"
  raise_if (not (e.commit_sha == b.review.head_sha)) "candidate head must match review head"
  raise_if (is_live b.review.input_origin && not (permalink_matches P b.review e))
      "candidate permalink must match review identity and location"

abbrev pub evidence_ids : List EvidenceItem → List String
evidence_ids = map (λ e. e.evidence_id)

unfoldable pub check_evidence : Platform → ReviewBundle → Result (Unit {0})
unfolding check_evidence_item
check_evidence P b = do
  raise_if (not (nodup (evidence_ids b.evidence))) "evidence IDs must be unique"
  raise_if (any (λ e. not (known b e.criterion_id)) b.evidence)
      "evidence criterion IDs must reference known criteria"
  each (check_evidence_item P b) b.evidence

-- The number of candidates of a criterion.
abbrev evidence_count : ReviewBundle → String → ℕ
evidence_count b c = length (filter (λ e. e.criterion_id == c) b.evidence)

abbrev diagnostic_ids : List CriterionRetrievalDiagnostic → List String
diagnostic_ids = map (λ d. d.criterion_id)

unfoldable pub check_diagnostics : ReviewBundle → Result (Unit {0})
check_diagnostics b = if is_empty b.retrieval_diagnostics then ok tt else do
  raise_if (not (nodup (diagnostic_ids b.retrieval_diagnostics)))
      "diagnostic criterion IDs must be unique"
  raise_if (not (same_members (diagnostic_ids b.retrieval_diagnostics) (criterion_ids b.criteria)))
      "diagnostics must match criteria exactly"
  raise_if
      (any (λ d. not (d.accepted_candidate_count == evidence_count b d.criterion_id))
        b.retrieval_diagnostics)
      "diagnostic candidate count must match evidence"

-- `evidence_by_id.get(id)`
abbrev pub evidence_by_id : List EvidenceItem → String → Option EvidenceItem
evidence_by_id evidence id = last_by (λ e. e.evidence_id) id evidence

-- The item is missing, or belongs to another criterion.
abbrev pub is_foreign : String → Option EvidenceItem → Bool
is_foreign criterion none = true
is_foreign criterion (some e) = not (e.criterion_id == criterion)

abbrev pub cited_items : List EvidenceItem → Finding → List EvidenceItem
cited_items evidence f = filter_map (evidence_by_id evidence) f.evidence_ids

abbrev pub is_evidence_found : FindingStatus → Bool
is_evidence_found FindingStatus.evidence_found = true
is_evidence_found _ = false

unfoldable pub check_finding : List EvidenceItem → Finding → Result (Unit {0})
check_finding evidence f = do
  raise_if (is_evidence_found f.status && is_empty f.evidence_ids)
      "evidence_found requires cited candidates"
  raise_if (is_empty f.evidence_ids && is_empty f.missing_evidence)
      "findings require cited support or missing evidence"
  raise_if (not (nodup f.evidence_ids)) "finding evidence references must be unique"
  raise_if (any (λ id. is_none (evidence_by_id evidence id)) f.evidence_ids)
      "finding evidence references must resolve"
  raise_if (any (λ id. is_foreign f.criterion_id (evidence_by_id evidence id)) f.evidence_ids)
      "finding evidence must belong to the same criterion"
  raise_if (not (f.evidence_level == best_level (cited_items evidence f)))
      "finding level must match cited candidates"

unfoldable pub check_findings : ReviewBundle → Result (Unit {0})
unfolding check_finding
check_findings b = do
  raise_if (not (nodup (finding_ids b.findings))) "finding criterion IDs must be unique"
  raise_if (not (same_members (finding_ids b.findings) (criterion_ids b.criteria)))
      "findings must match criteria exactly"
  each (check_finding b.evidence) b.findings
