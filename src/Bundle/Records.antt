-- ===== src/Bundle/Records.antt =====
-- The part of `ReviewBundle.validate_cross_references` about runtime evidence, JUnit imports,
-- resolutions and the gate.
use scope_proof.Base.{
  String, Bool, true, false, not, ◌&&◌, Option, none, some, List, [], ◌∷◌, map, Result, ok, err,
  ◌>>=◌, ◌>>◌, raise_if, each, any, filter, contains, nodup, subset, find_last, last_by, is_none,
  length, ltb, filter_map, ◌==◌, string_eq, nat_eq, option_eq,
}
use scope_proof.Schema.{
  Platform, ReviewBundle, Review, RuntimeEvidence, HumanResolution, JunitEvidenceImport,
  JunitImportEvent, JunitAction, GateDecision, is_live, evidence_level_eq, provenance_eq,
}
use scope_proof.Records.Imports.{replay_junit_mapping_events, mapped_criteria, case_ids}
use scope_proof.Gate.{criterion_ids, resolution_ids}
use scope_proof.Bundle.Candidates.{known}

-- The runtime IDs that are present.
abbrev pub runtime_ids : List RuntimeEvidence → List String
runtime_ids = filter_map (λ e. e.runtime_evidence_id)

-- `runtime_by_id.get(id)`
abbrev pub runtime_by_id : List RuntimeEvidence → String → Option RuntimeEvidence
runtime_by_id items id = find_last (λ e. e.runtime_evidence_id == some id) items

-- `(repository, pr_number, head_sha)` are the review's.
abbrev pub is_of_review : Review → RuntimeEvidence → Bool
is_of_review review e =
    e.repository == some review.repository
    && e.pr_number == some review.pr_number
    && e.head_sha == some review.head_sha

unfoldable pub check_runtime_item : Review → RuntimeEvidence → Result (Unit {0})
check_runtime_item review e = do
  raise_if (is_live review.input_origin && is_none e.runtime_evidence_id)
      "live runtime evidence requires review identity"
  raise_if (not (is_none e.runtime_evidence_id) && not (is_of_review review e))
      "runtime evidence identity must match the owning review"

unfoldable pub check_runtime : ReviewBundle → Result (Unit {0})
unfolding check_runtime_item
check_runtime b = do
  raise_if (any (λ e. not (known b e.criterion_id)) b.runtime_evidence)
      "runtime evidence criterion IDs must reference known criteria"
  raise_if (not (nodup (runtime_ids b.runtime_evidence))) "runtime evidence IDs must be unique"
  each (check_runtime_item b.review) b.runtime_evidence

abbrev pub is_mapping_correction : JunitImportEvent → Bool
is_mapping_correction e = elim e.action [
  | JunitAction.withdrawn ↦ false
  | JunitAction.mapping_corrected _ _ _ ↦ true
]

abbrev pub import_ids : List JunitEvidenceImport → List String
import_ids = map (λ i. i.import_id)

abbrev owns_event : ReviewBundle → JunitImportEvent → JunitEvidenceImport → Bool
owns_event b e target =
    e.review_id == b.review.review_id
    && e.artifact_sha256 == target.artifact_sha256
    && e.repository == target.repository
    && e.pr_number == target.pr_number
    && e.head_sha == target.head_sha
    && e.criteria_revision_number == target.criteria_revision_number
    && e.confirmed_criteria_sha256 == target.confirmed_criteria_sha256
    && e.criteria_source_provenance == target.criteria_source_provenance

abbrev check_event_target :
    ReviewBundle → JunitImportEvent → Option JunitEvidenceImport → Result (Unit {0})
check_event_target b e none = err "JUnit audit target must reference a retained import"
check_event_target b e (some target) =
    raise_if (not (owns_event b e target))
      "JUnit audit identity must match its owning retained import"

-- The loop over the audit events, with the event IDs that it has met.
unfoldable pub check_import_events :
    ReviewBundle → List String → List JunitImportEvent → Result (Unit {0})
check_import_events b seen [] = ok tt
check_import_events b seen (e ∷ es) = do
  raise_if (contains seen e.event_id) "JUnit audit event IDs must be unique"
  check_event_target b e (last_by (λ i. i.import_id) e.import_id b.junit_evidence_imports)
  check_import_events b (e.event_id ∷ seen) es

unfoldable pub check_replay : Platform → ReviewBundle → JunitEvidenceImport → Result (Unit {0})
unfolding replay_junit_mapping_events
check_replay P b target = do
  mappings ←
      replay_junit_mapping_events P (case_ids target) (criterion_ids b.criteria)
        target.criterion_mappings
        (filter (λ e. e.import_id == target.import_id) b.junit_import_events)
  ok tt

unfoldable pub check_import : Platform → ReviewBundle → JunitEvidenceImport → Result (Unit {0})
check_import P b i = do
  raise_if
      (not (
        i.repository == b.review.repository
        && i.pr_number == b.review.pr_number
        && i.head_sha == b.review.head_sha))
      "JUnit import identity must match the owning review"
  raise_if (not (some i.criteria_revision_number == b.criteria_revision_number))
      "JUnit import criteria revision must match the bundle"
  raise_if (not (i.confirmed_criteria_sha256 == P.criteria_sha256 b.criteria))
      "JUnit import criteria digest must match the bundle"
  raise_if (not (some i.criteria_source_provenance == b.review.criteria_source_provenance))
      "JUnit import criteria provenance must match the review"
  raise_if (any (λ c. not (known b c)) (mapped_criteria i.criterion_mappings))
      "JUnit import mappings must reference known criteria"

unfoldable pub check_imports : Platform → ReviewBundle → Result (Unit {0})
unfolding check_import_events check_replay check_import
check_imports P b = do
  raise_if (not (nodup (import_ids b.junit_evidence_imports))) "JUnit import IDs must be unique"
  raise_if (ltb 20 (length (filter is_mapping_correction b.junit_import_events)))
      "JUnit correction history limit reached; withdrawal remains available"
  check_import_events b [] b.junit_import_events
  each (check_replay P b) b.junit_evidence_imports
  raise_if (not (nodup (map (λ i. i.artifact_sha256) b.junit_evidence_imports)))
      "JUnit artifact digests must be unique"
  each (check_import P b) b.junit_evidence_imports

abbrev pub is_backed : HumanResolution → RuntimeEvidence → Bool
is_backed r e =
    r.criterion_id == e.criterion_id
    && r.reviewer == e.reviewer
    && r.claimed_evidence_level == some e.evidence_level

abbrev check_link : HumanResolution → Option RuntimeEvidence → Result (Unit {0})
check_link r none = err "resolution runtime evidence ID must resolve"
check_link r (some e) =
    raise_if (not (is_backed r e))
      "linked resolution must match runtime evidence criterion, reviewer, and level"

abbrev check_optional_link :
    List RuntimeEvidence → HumanResolution → Option String → Result (Unit {0})
check_optional_link runtime r none = ok tt
check_optional_link runtime r (some id) = check_link r (runtime_by_id runtime id)

unfoldable pub check_resolutions : ReviewBundle → Result (Unit {0})
check_resolutions b = do
  raise_if (not (nodup (resolution_ids b.resolutions))) "resolution criterion IDs must be unique"
  raise_if (any (λ c. not (known b c)) (resolution_ids b.resolutions))
      "resolution criterion IDs must reference known criteria"
  each (λ r. check_optional_link b.runtime_evidence r r.runtime_evidence_id) b.resolutions

abbrev pub check_gate_list : List String → List String → Result (Unit {0})
check_gate_list ids ks = do
  raise_if (not (nodup ks)) "gate criteria must contain unique criterion IDs"
  raise_if (not (subset ks ids)) "gate criteria must reference known criteria"

unfoldable pub check_gate : List String → GateDecision → Result (Unit {0})
check_gate ids g = do
  check_gate_list ids g.blocking_criteria
  check_gate_list ids g.conditional_criteria
  check_gate_list ids g.unresolved_criteria
  check_gate_list ids g.resolved_exceptions
