-- ===== src/Examples.antt =====
-- What the code does on the samples, and the theorems applied to them.
use scope_proof.Base.{
  is_space, lookup, insert, sorted_items, String_discrete, Option_discrete, List_discrete,
  insert_sorted, sorted, is_blank,
}
use scope_proof.Bundle.{validate_parts, validate_cross_references, validate_bundle}
use scope_proof.Bundle.Audit.{
  position, refuses_replacement, audit_event, audit_events, validate_reference_audit,
}
use scope_proof.Bundle.Candidates.{
  evidence_ids, check_file_scope_decision, check_file_scope_decisions, check_evidence_item,
  check_evidence, check_diagnostics, check_finding, check_findings,
}
use scope_proof.Bundle.Records.{
  check_runtime_item, check_runtime, check_import_events, check_replay, check_import, check_imports,
  check_resolutions, check_gate,
}
use scope_proof.Bundle.Selected.{check_criteria, is_exact_head, check_reference, check_references}
use scope_proof.Events.{
  validate_resolution, to_resolution, selected_revision, fill_latest, current_resolutions, flag,
  final_acceptance, validate_event,
}
use scope_proof.Events.Status.{index_targets, classify, resolution_event_statuses}
use scope_proof.FileScope.{unresolved_changed_file_paths}
use scope_proof.Gate.{
  input_faults, invalid_gate_input, tally_criterion, tally_criteria, is_blocked, requires_review,
  judge, decide_gate, evaluate_gate,
}
use scope_proof.Lifecycle.Context.{
  append_file_scope_decision, append_runtime_evidence, append_junit_evidence_import,
}
use scope_proof.Lifecycle.Decisions.{
  recalculate, can_record_final_acceptance, append_resolution, append_external_verification,
}
use scope_proof.Lifecycle.Revisions.{
  require_bare_analysis, new_review_state, revise_criteria, confirm_criteria, attach_analysis,
}
use scope_proof.Records.{
  validate_inventory, validate_review, validate_evidence_item, validate_runtime_evidence,
  validate_file_scope_decision, validate_diagnostic, validate_reference_event, validate_revision,
}
use scope_proof.Records.Checks.{expected_state, validate_ci, reason_code_of}
use scope_proof.Records.Imports as ImportsPart
use scope_proof.Records.Imports.{
  validate_import, validate_mapping_snapshot, validate_import_event, junit_mapping_sha256,
  replay_junit_mapping_events,
}
use scope_proof.Schema.{
  Criterion-discrete, CriteriaSourceProvenance-discrete, Priority-discrete, CriterionType-discrete,
  CriterionSource-discrete, EvidenceType-discrete, EvidenceLevel-discrete, HumanDecision-discrete,
  GateVerdict-discrete, EvidenceSourceScope-discrete, HumanResolution-discrete,
  JunitCriterionMapping-discrete, CheckState-discrete, CiObservation-discrete,
  ChangedFileInventory-discrete, CoreSourceIdentity-discrete, Review-discrete,
  GateDecision-discrete,
}
use scope_proof.Validation.{
  require_deterministic_gate, require_manual_verification_evidence, acceptance_requires_comment,
  require_low_evidence_acceptance_comments, require_final_acceptance_prerequisites,
  require_evidence_integrity, check_review_bundle, validated_review_bundle, require_history_match,
  require_historical_bundle, require_active_gate, require_active_match, require_active_integrity,
  check_review_state, validated_review_state,
}
use scope_proof.Validation.Histories as HistoriesPart
use scope_proof.Validation.Histories.{check_revision_events, require_event_history_integrity}
use scope_proof.Validation.States.{
  validate_active_bundle, validate_state_parts, check_bundle_identity, check_bundle_provenance,
  check_lineage, validate_active_review_identity, validate_identity,
}
use scope_proof.Base.{each, List, is_empty, ◌≤◌}
use native.Mathlib.Decide.{ℕ_discrete}
use scope_proof.Base.{
  ◌≡◌, refl, ◌↔◌, ◌⊎◌, ◌<◌, ok, true, false, some, [], ◌∷◌, map, nodup, string_eq,
}
use scope_proof.Schema.{
  ReviewBundle, HumanResolution, FindingStatus, IngestionState, rank, e1, GateVerdict, CheckState,
  CiReasonCode,
}
use scope_proof.Events.Laws.{
  StandsFor, resolution_for, latest_event, current_resolutions-latest, current_resolutions-nodup,
}
use scope_proof.Events.Status.{status_reference, statuses-status_reference}
use scope_proof.Gate.{criterion_ids}
use scope_proof.Gate.Rounds.{unresolved}
use scope_proof.Gate.Verdicts.{verdict_reference, verdict-evaluate_gate}
use scope_proof.Gate.Settled.{IsReady}
use scope_proof.Gate.Ready.{evaluate_gate-IsReady}
use scope_proof.Gate.Wellformed.{IsListing, gate_list, evaluate_gate-IsListing}
use scope_proof.Records.Checks.{
  failing_observations, pending_observations, successful_observations, validate_ci-state,
  reason_code_of-passing,
}
use scope_proof.Validation.Laws.{check_review_bundle-IsReady}
use scope_proof.Lifecycle.Revisions.{revised_state}
use scope_proof.Lifecycle.Revising.{revise_criteria-valid}
use scope_proof.Lifecycle.Appending.{
  IsAppended, append_resolution-IsAppended, append_external_verification-IsAppended,
}
use scope_proof.Lifecycle.Current.{IsAppended-current}
use scope_proof.Lifecycle.Finality.{
  IsAcceptable, append_resolution-final, can_record_final_acceptance-IsAcceptable,
}
use scope_proof.Lifecycle.Runs.{stay, then, scopes, resolves, revises, Grows, Run-Grows}
use scope_proof.Events.Totality.{current_resolutions-total}
use scope_proof.Findings.{build_finding, candidates, best_score, best_level}
use scope_proof.Findings.Laws.{build_finding-evidence_found}
use scope_proof.Findings.Fitting.{build_finding-fits}
use scope_proof.Samples.{
  candidate, platform, review, final_review, finding, opened, scoped, accepted_state, final_state,
  verified, revised, acceptance, final_event, scope_decision, runtime, verification, criterion,
  accepted_resolution, accepted_analysis, passing_checks,
}

unfoldable pub program : Unit {0}
unfolding ℕ_discrete is_space lookup insert sorted_items String_discrete Option_discrete
    List_discrete insert_sorted sorted is_blank validate_parts validate_cross_references
    validate_bundle position refuses_replacement audit_event audit_events validate_reference_audit
    check_file_scope_decision check_file_scope_decisions check_evidence_item check_evidence
    check_diagnostics check_finding check_findings check_runtime_item check_runtime
    check_import_events check_replay check_import check_imports check_resolutions check_gate
    check_criteria is_exact_head check_reference check_references validate_resolution to_resolution
    selected_revision fill_latest current_resolutions flag final_acceptance validate_event
    index_targets classify resolution_event_statuses unresolved_changed_file_paths input_faults
    invalid_gate_input tally_criterion tally_criteria is_blocked requires_review judge decide_gate
    evaluate_gate append_file_scope_decision append_runtime_evidence append_junit_evidence_import
    recalculate can_record_final_acceptance append_resolution append_external_verification
    require_bare_analysis new_review_state revise_criteria confirm_criteria attach_analysis
    validate_inventory validate_review validate_evidence_item validate_runtime_evidence
    validate_file_scope_decision validate_diagnostic validate_reference_event validate_revision
    expected_state validate_ci reason_code_of validate_import validate_mapping_snapshot
    validate_import_event junit_mapping_sha256 ImportsPart.replay_event ImportsPart.replay_events
    replay_junit_mapping_events Criterion-discrete CriteriaSourceProvenance-discrete
    Priority-discrete CriterionType-discrete CriterionSource-discrete EvidenceType-discrete
    EvidenceLevel-discrete HumanDecision-discrete GateVerdict-discrete EvidenceSourceScope-discrete
    HumanResolution-discrete JunitCriterionMapping-discrete CheckState-discrete
    CiObservation-discrete ChangedFileInventory-discrete CoreSourceIdentity-discrete Review-discrete
    GateDecision-discrete require_deterministic_gate require_manual_verification_evidence
    acceptance_requires_comment require_low_evidence_acceptance_comments
    require_final_acceptance_prerequisites require_evidence_integrity check_review_bundle
    validated_review_bundle require_history_match require_historical_bundle require_active_gate
    require_active_match require_active_integrity check_review_state validated_review_state
    HistoriesPart.replay_event HistoriesPart.replay_events check_revision_events
    require_event_history_integrity validate_active_bundle validate_state_parts
    check_bundle_identity check_bundle_provenance check_lineage validate_active_review_identity
    validate_identity
program = tt

opened-valid : check_review_state platform opened ≡ ok tt
unfolding program
opened-valid = refl

scopes_file : append_file_scope_decision platform opened scope_decision ≡ ok scoped
unfolding program
scopes_file = refl

accepts : append_resolution platform scoped acceptance ≡ ok accepted_state
unfolding program
accepts = refl

records_final : append_resolution platform accepted_state final_event ≡ ok final_state
unfolding program
records_final = refl

verifies_runtime : append_external_verification platform opened runtime verification ≡ ok verified
unfolding program
verifies_runtime = refl

revises_criteria :
    revise_criteria platform 20 final_state (criterion ∷ []) "Totals are rounded up." ≡ ok revised
unfolding program
revises_criteria = refl

ready_gate :
    (evaluate_gate platform final_review
      (criterion ∷ [])
      (finding ∷ [])
      (accepted_resolution ∷ [])
      []
      (scope_decision ∷ [])).verdict
    ≡ GateVerdict.ready
unfolding program
ready_gate = refl

may_accept : can_record_final_acceptance platform accepted_state ≡ ok true
unfolding program
may_accept = refl

final_state-valid : check_review_bundle platform (accepted_analysis final_review) ≡ ok tt
unfolding program
final_state-valid = refl

passing_checks-valid : validate_ci passing_checks ≡ ok tt
unfolding program
passing_checks-valid = refl

resolves_accepted :
    current_resolutions (acceptance ∷ final_event ∷ []) (some 1) ≡ ok (accepted_resolution ∷ [])
unfolding program
resolves_accepted = refl

evaluate_gate-IsReady_example :
    ((evaluate_gate platform final_review
        (criterion ∷ [])
        (finding ∷ [])
        (accepted_resolution ∷ [])
        []
        (scope_decision ∷ [])).verdict
      ≡ GateVerdict.ready)
    ↔ IsReady platform final_review
        (criterion ∷ [])
        (finding ∷ [])
        (accepted_resolution ∷ [])
        []
        (scope_decision ∷ [])
evaluate_gate-IsReady_example =
    evaluate_gate-IsReady platform final_review (criterion ∷ []) (finding ∷ [])
      (accepted_resolution ∷ []) [] (scope_decision ∷ [])

verdict-evaluate_gate_example :
    (evaluate_gate platform final_review
      (criterion ∷ [])
      (finding ∷ [])
      (accepted_resolution ∷ [])
      []
      (scope_decision ∷ [])).verdict
    ≡ verdict_reference platform final_review
        (criterion ∷ [])
        (finding ∷ [])
        (accepted_resolution ∷ [])
        []
        (scope_decision ∷ [])
verdict-evaluate_gate_example =
    verdict-evaluate_gate platform final_review (criterion ∷ []) (finding ∷ [])
      (accepted_resolution ∷ []) [] (scope_decision ∷ [])

evaluate_gate-IsListing_example :
    IsListing (criterion_ids (criterion ∷ [])) (
      gate_list unresolved (evaluate_gate platform review (criterion ∷ []) (finding ∷ []) [] [] []))
evaluate_gate-IsListing_example =
    evaluate_gate-IsListing platform review (criterion ∷ []) (finding ∷ []) [] [] [] unresolved

check_review_bundle-IsReady_example :
    ((accepted_analysis final_review).gate.verdict ≡ GateVerdict.ready)
    ↔ IsReady platform final_review
        (criterion ∷ [])
        (finding ∷ [])
        (accepted_resolution ∷ [])
        []
        (scope_decision ∷ [])
check_review_bundle-IsReady_example =
    check_review_bundle-IsReady platform (accepted_analysis final_review) final_state-valid

Run-Grows_example : Grows platform opened revised
Run-Grows_example = Run-Grows platform opened-valid (
    then
      (then (then (then stay (scopes scope_decision scopes_file)) (resolves acceptance accepts))
        (resolves final_event records_final))
      (revises 20 (criterion ∷ []) "Totals are rounded up." revises_criteria))

append_resolution-final_example :
    ((b : ReviewBundle) × IsAcceptable platform accepted_state b)
    × (final_state.review.final_acceptance ≡ true)
append_resolution-final_example =
    append_resolution-final platform accepted_state final_event records_final refl refl

can_record_final_acceptance-IsAcceptable_example :
    (b : ReviewBundle) × IsAcceptable platform accepted_state b
can_record_final_acceptance-IsAcceptable_example =
    can_record_final_acceptance-IsAcceptable platform accepted_state may_accept

revise_criteria-valid_example :
    (check_review_state platform revised ≡ ok tt)
    × (revised ≡ revised_state 20 final_state (criterion ∷ []) "Totals are rounded up.")
revise_criteria-valid_example =
    revise_criteria-valid platform 20 final_state (criterion ∷ []) "Totals are rounded up."
      revises_criteria

append_resolution-IsAppended_example : IsAppended platform scoped acceptance accepted_state
append_resolution-IsAppended_example =
    append_resolution-IsAppended platform scoped acceptance accepts

append_external_verification-IsAppended_example : IsAppended platform opened verification verified
append_external_verification-IsAppended_example =
    append_external_verification-IsAppended platform opened runtime verification verifies_runtime

acceptance-IsAppended : IsAppended platform scoped acceptance accepted_state
acceptance-IsAppended = append_resolution-IsAppended platform scoped acceptance accepts

IsAppended-current_example :
    StandsFor (some acceptance) (resolution_for "AC-1" (accepted_resolution ∷ []))
unfolding program
IsAppended-current_example =
    IsAppended-current platform scoped accepted_state acceptance (accepted_analysis review) "AC-1"
      acceptance-IsAppended refl

current_resolutions-latest_example :
    StandsFor
      (latest_event 1 "AC-1" (acceptance ∷ final_event ∷ []))
      (resolution_for "AC-1" (accepted_resolution ∷ []))
current_resolutions-latest_example =
    current_resolutions-latest (acceptance ∷ final_event ∷ []) 1 "AC-1" resolves_accepted

current_resolutions-nodup_example :
    nodup (map (λ r. r.criterion_id) (accepted_resolution ∷ [])) ≡ true
current_resolutions-nodup_example =
    current_resolutions-nodup (acceptance ∷ final_event ∷ []) 1 resolves_accepted

statuses-status_reference_example :
    resolution_event_statuses (acceptance ∷ final_event ∷ []) 1
    ≡ status_reference 1 (acceptance ∷ final_event ∷ [])
statuses-status_reference_example = statuses-status_reference (acceptance ∷ final_event ∷ []) 1

validate_ci-state_example :
    ((passing_checks.state ≡ CheckState.failing) ↔ (0 < failing_observations passing_checks))
    × ((passing_checks.state ≡ CheckState.passing) ↔ (
        (failing_observations passing_checks ≡ 0)
        × (pending_observations passing_checks ≡ 0)
        × (0 < successful_observations passing_checks)
        × (passing_checks.collection_complete ≡ true)))
validate_ci-state_example = validate_ci-state passing_checks passing_checks-valid

reason_code_of-passing_example : (passing_checks.state ≡ CheckState.passing) ↔ (
    (reason_code_of passing_checks ≡ CiReasonCode.successful_check_runs)
    ⊎ (reason_code_of passing_checks ≡ CiReasonCode.successful_legacy_statuses))
reason_code_of-passing_example = reason_code_of-passing passing_checks passing_checks-valid

accepts_events : each validate_event (acceptance ∷ final_event ∷ []) ≡ ok tt
unfolding program
accepts_events = refl

distinct_ids : nodup (evidence_ids (candidate ∷ [])) ≡ true
unfolding program
distinct_ids = refl

current_resolutions-total_example :
    (rs : List HumanResolution) × (current_resolutions (acceptance ∷ final_event ∷ []) (some 1)
      ≡ ok rs)
current_resolutions-total_example =
    current_resolutions-total (acceptance ∷ final_event ∷ []) 1 accepts_events

build_finding-evidence_found_example :
    ((build_finding (candidate ∷ []) IngestionState.complete criterion).status
      ≡ FindingStatus.evidence_found)
    ↔ ((is_empty (candidates (candidate ∷ []) criterion) ≡ false)
        × (750 ≤ best_score (candidates (candidate ∷ []) criterion))
        × (rank e1 ≤ rank (best_level (candidates (candidate ∷ []) criterion))))
build_finding-evidence_found_example =
    build_finding-evidence_found (candidate ∷ []) IngestionState.complete criterion

build_finding-fits_example :
    check_finding
      (candidate ∷ [])
      (build_finding (candidate ∷ []) IngestionState.complete criterion)
    ≡ ok tt
build_finding-fits_example =
    build_finding-fits (candidate ∷ []) IngestionState.complete criterion distinct_ids
