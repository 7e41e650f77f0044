-- ===== src/Trials/Audits.antt =====
-- Runs of the audits of JUnit imports and selected references, and their theorems applied there.
use scope_proof.Base.{
  ◌≡◌, refl, String, true, not, none, some, List, [], ◌∷◌, filter, All, ok, contains, lookup,
  if◌then◌else◌, ◌==◌, nat_eq, string_eq,
}
use scope_proof.Schema.{
  EvidenceType, ReviewBundle, ReviewState, JunitEvidenceImport, JunitCaseStatus,
  JunitCriterionMapping, JunitCaseResult, JunitAction, ReviewerSelectedReference,
  EvidenceSourceScope, e1, criterion_eq,
}
use scope_proof.Gate.{criterion_ids}
use scope_proof.Records.Imports.{replay_junit_mapping_events, case_ids}
use scope_proof.Validation.{check_review_bundle, check_review_state}
use scope_proof.Audits.Projections.{
  apply_event, apply_events, original_mappings, all_effective_mappings, effective_junit_mappings,
  junit_mapping_correction_events, active_junit_import_ids,
}
use scope_proof.Audits.Junit.{
  Request, event_on, with_import_event, state_fingerprint, last_event_id, validated_target,
  withdraw_junit_evidence_import, correct_junit_mappings,
}
use scope_proof.Audits.Outcomes.{withdraw-active, withdraw-final, correct-effective}
use scope_proof.Audits.Replays.{effective-replay}
use scope_proof.Audits.References.{
  AuditRequest, IsWithdrawn, active_reviewer_selected_reference_ids, active_references,
  withdrawal_event, with_reference_event, withdraw_reviewer_selected_reference,
  withdraw_reference-IsWithdrawn,
}
use scope_proof.Samples.{platform, provenance, analysis, opened}
use scope_proof.Trials.{trial}

-- A JUnit import of two passed cases, one of which is mapped to the criterion.
abbrev case : String → JunitCaseResult
case test_case_id = record {
  test_case_id = test_case_id;
  suite_id = "suite-0001";
  suite_name = "totals";
  class_name = none;
  test_name = "rounds";
  status = JunitCaseStatus.passed;
}

abbrev mapping : String → List JunitCriterionMapping
mapping test_case_id = record { criterion_id = "AC-1"; test_case_ids = test_case_id ∷ [] } ∷ []

abbrev junit : JunitEvidenceImport
junit = record {
  import_id = "i1";
  repository = "o/p";
  pr_number = 7;
  head_sha = "h1";
  criteria_revision_number = 1;
  confirmed_criteria_sha256 = "c1";
  criteria_source_provenance = provenance;
  artifact_sha256 = "a1";
  imported_by = "ada";
  imported_at = 6;
  totals = record { total = 2; passed = 2; failures = 0; errors = 0; skipped = 0 };
  test_cases = case "suite-0001-case-0001" ∷ case "suite-0001-case-0002" ∷ [];
  criterion_mappings = mapping "suite-0001-case-0001";
  parser_warnings = [];
  limitations = [];
}

abbrev with_junit : ReviewBundle
with_junit = record analysis { junit_evidence_imports = junit ∷ [] }

abbrev imported : ReviewState
imported = record opened { bundle = some with_junit }

abbrev request : Request
request = record {
  import_id = "i1";
  reviewer = "ada";
  reason = "The run was of another branch.";
  expected_state_fingerprint = "f1";
  event_id = "j1";
  occurred_at = 12;
}

abbrev fingerprint : ReviewState → String
fingerprint state = "f1"

abbrev withdrawn_import : ReviewState
withdrawn_import = record imported {
  bundle =
      some (with_import_event (event_on imported junit request JunitAction.withdrawn) with_junit);
}

abbrev corrected_import : ReviewState
corrected_import = record imported {
  bundle = some (
      with_import_event
        (event_on imported junit request
          (JunitAction.mapping_corrected "m1" none (mapping "suite-0001-case-0002")))
        with_junit);
}

audit : Unit {0}
unfolding trial apply_event apply_events original_mappings all_effective_mappings
    effective_junit_mappings junit_mapping_correction_events active_junit_import_ids
    state_fingerprint last_event_id validated_target withdraw_junit_evidence_import
    correct_junit_mappings active_reviewer_selected_reference_ids active_references
    withdraw_reviewer_selected_reference
audit = tt

withdraws :
    withdraw_junit_evidence_import platform fingerprint imported request ≡ ok withdrawn_import
unfolding audit
withdraws = refl

withdraw-active_example :
    (before after : ReviewBundle) × (imported.bundle ≡ some before)
    × (withdrawn_import.bundle ≡ some after)
    × (check_review_state platform withdrawn_import ≡ ok tt)
    × (contains (active_junit_import_ids before) "i1" ≡ true)
    × (active_junit_import_ids after
        ≡ filter (λ i. not (i == "i1")) (active_junit_import_ids before))
    × (all_effective_mappings after ≡ all_effective_mappings before)
withdraw-active_example = withdraw-active platform fingerprint imported request withdraws

withdraw-final_example :
    ((u : ReviewState)
      → ¬ (withdraw_junit_evidence_import platform fingerprint withdrawn_import request ≡ ok u))
    × ((u : ReviewState)
        → ¬ (
            correct_junit_mappings platform fingerprint withdrawn_import request
              (mapping "suite-0001-case-0002")
              true
            ≡ ok u))
withdraw-final_example =
    withdraw-final platform fingerprint imported withdrawn_import request request
      (mapping "suite-0001-case-0002") true withdraws refl

corrects :
    correct_junit_mappings platform fingerprint imported request
      (mapping "suite-0001-case-0002")
      true
    ≡ ok corrected_import
unfolding audit
corrects = refl

correct-effective_example :
    (before after : ReviewBundle) × (imported.bundle ≡ some before)
    × (corrected_import.bundle ≡ some after)
    × (check_review_state platform corrected_import ≡ ok tt)
    × (active_junit_import_ids after ≡ active_junit_import_ids before)
    × ((j : String)
        → lookup j (all_effective_mappings after) ≡ (
            if j == "i1"
            then some (mapping "suite-0001-case-0002")
            else lookup j (all_effective_mappings before)))
correct-effective_example =
    correct-effective platform fingerprint imported request (mapping "suite-0001-case-0002") true
      corrects

valid_import : check_review_bundle platform with_junit ≡ ok tt
unfolding audit
valid_import = refl

effective-replay_example :
    All
      (λ i.
        (mappings : List JunitCriterionMapping) × (replay_junit_mapping_events platform
            (case_ids i)
            (criterion_ids with_junit.criteria)
            i.criterion_mappings
            (filter (λ e. e.import_id == i.import_id) with_junit.junit_import_events)
          ≡ ok mappings)
        × (lookup i.import_id (all_effective_mappings with_junit) ≡ some mappings))
      with_junit.junit_evidence_imports
effective-replay_example = effective-replay platform with_junit valid_import

-- A selected reference to the changed file.
abbrev reference : ReviewerSelectedReference
reference = record {
  source_scope = EvidenceSourceScope.changed_file;
  file_path = "a.py";
  line_number = 3;
  excerpt = "round(total)";
  evidence_type = EvidenceType.implementation;
  evidence_level = e1;
  reference_id = "s1";
  review_id = "r1";
  repository = "o/p";
  pr_number = 7;
  head_sha = "h1";
  criteria_revision_number = 1;
  confirmed_criteria_sha256 = "c1";
  criteria_source_provenance = provenance;
  criterion_id = "AC-1";
  excerpt_sha256 = "x1";
  permalink = "https://github.com/o/p/blob/h1/a.py#L3-L3";
  reviewer = "ada";
  rationale = "Rounds the total.";
  selected_at = 8;
}

abbrev with_reference : ReviewBundle
with_reference = record analysis { reviewer_selected_references = reference ∷ [] }

abbrev referenced : ReviewState
referenced = record opened { bundle = some with_reference }

abbrev audit_request : AuditRequest
audit_request = record {
  reference_id = "s1";
  reviewer = "ada";
  reason = "Another line is meant.";
  expected_state_fingerprint = "f1";
  event_id = "v1";
  occurred_at = 12;
}

abbrev unreferenced : ReviewState
unreferenced = record referenced {
  bundle = some (with_reference_event (withdrawal_event reference audit_request) with_reference);
}

withdraws_reference :
    withdraw_reviewer_selected_reference platform fingerprint referenced audit_request
    ≡ ok unreferenced
unfolding audit
withdraws_reference = refl

withdraw_reference-IsWithdrawn_example :
    IsWithdrawn platform fingerprint audit_request referenced unreferenced
withdraw_reference-IsWithdrawn_example =
    withdraw_reference-IsWithdrawn platform fingerprint referenced audit_request withdraws_reference
