-- ===== src/Lifecycle/Decisions.antt =====
-- The operations of scopeproof_core/reviews/lifecycle.py that append resolution events.
use scope_proof.Base.{
  String, Bool, true, false, not, ◌&&◌, ◌||◌, Option, none, some, List, [], ◌∷◌, ◌++◌, Result, ok,
  err, ◌>>=◌, ◌>>◌, raise_if, all, any, contains, is_empty, is_none, is_some, is_blank, last_by,
  ◌==◌, string_eq, nat_eq, bool_eq, option_eq, if◌then◌else◌,
}
use scope_proof.Schema.{
  Platform, Review, ReviewBundle, ReviewState, HumanDecision, HumanResolution, ResolutionEvent,
  RuntimeEvidence, Criterion, Finding, is_manual, is_resolved_decision, is_runtime_level,
  is_complete, is_passing, provenance_eq, evidence_level_eq,
}
use scope_proof.Events.{current_resolutions, final_acceptance, validate_event, decides_manually}
use scope_proof.Records.{validate_runtime_evidence}
use scope_proof.FileScope.{unresolved_changed_file_paths}
use scope_proof.Gate.{criterion_ids, has_open_files}
use scope_proof.Bundle.Records.{is_of_review}
use scope_proof.Validation.{validated_review_state, acceptance_requires_comment, bundle_gate}

-- `bundle.gate = evaluate_gate(…)`
abbrev pub with_gate : Platform → ReviewBundle → ReviewBundle
with_gate P b = record b { gate = bundle_gate P b }

abbrev pub recalculated :
    Platform → ReviewState → ReviewBundle → Review → List HumanResolution → ReviewState
recalculated P s b review resolutions = record s {
  review = review;
  bundle = some (with_gate P (record b { review = review; resolutions = resolutions }));
}

abbrev pub accepted_review : ReviewState → Review
accepted_review s = record s.review {
  final_acceptance = final_acceptance s.resolution_events s.criteria_revision.number;
}

-- `_recalculate`
abbrev pub recalculate_bundle : Platform → ReviewState → Option ReviewBundle → Result ReviewState
recalculate_bundle P s none = ok s
recalculate_bundle P s (some b) = do
  resolutions ← current_resolutions s.resolution_events (some s.criteria_revision.number)
  ok (recalculated P s b (accepted_review s) resolutions)

unfoldable pub recalculate : Platform → ReviewState → Result ReviewState
recalculate P s = recalculate_bundle P s s.bundle

-- `active_resolutions`
abbrev pub active_resolutions : ReviewState → Result (List HumanResolution)
active_resolutions s = current_resolutions s.resolution_events (some s.criteria_revision.number)

-- An accepted decision; a manual verification must be linked to runtime evidence.
abbrev pub is_acceptable : Option HumanResolution → Bool
is_acceptable none = false
is_acceptable (some r) =
    is_resolved_decision r.decision && (not (is_manual r.decision) || is_some r.runtime_evidence_id)

abbrev pub acceptable_criterion : List HumanResolution → Criterion → Bool
acceptable_criterion resolutions c =
    is_acceptable (last_by (λ r. r.criterion_id) c.criterion_id resolutions)

-- The tests of `can_record_final_acceptance` on the review and its bundle.
abbrev pub is_acceptance_ready : ReviewState → ReviewBundle → Bool
is_acceptance_ready s b =
    not s.review.final_acceptance
    && is_some s.review.criteria_source_provenance
    && s.criteria_revision.source_provenance == s.review.criteria_source_provenance
    && b.review.criteria_source_provenance == s.review.criteria_source_provenance
    && s.review.criteria_confirmed
    && is_complete s.review.ingestion_state
    && is_empty s.review.ingestion_warnings
    && is_empty s.review.skipped_files
    && is_passing s.review.check_state
    && not (
        has_open_files
          (unresolved_changed_file_paths s.review b.findings b.evidence b.file_scope_decisions))

abbrev pub has_no_criteria : Option ReviewBundle → Bool
has_no_criteria none = false
has_no_criteria (some b) = is_empty b.criteria

abbrev pub acceptable_criteria : ReviewState → ReviewBundle → Result Bool
acceptable_criteria s b = do
  resolutions ← active_resolutions s
  ok (all (acceptable_criterion resolutions) b.criteria)

abbrev pub can_record_on : ReviewState → Option ReviewBundle → Result Bool
can_record_on s none = ok false
can_record_on s (some b) = if is_acceptance_ready s b then acceptable_criteria s b else ok false

unfoldable pub can_record_final_acceptance : Platform → ReviewState → Result Bool
can_record_final_acceptance P state =
    if is_empty state.criteria_revision.criteria || has_no_criteria state.bundle
    then ok false
    else do s ← validated_review_state P state; can_record_on s s.bundle

abbrev pub is_manual_resolution : Option HumanResolution → Bool
is_manual_resolution none = false
is_manual_resolution (some r) = is_manual r.decision

abbrev pub keep_manual : ReviewState → String → Result (Unit {0})
keep_manual s c = do
  resolutions ← active_resolutions s
  raise_if (is_manual_resolution (last_by (λ r. r.criterion_id) c resolutions))
      "final acceptance must be revoked before replacing manual verification"

-- A decision on a manually verified criterion, with final acceptance in force, is refused.
abbrev pub guard_manual : ReviewState → Option String → Result (Unit {0})
guard_manual s none = ok tt
guard_manual s (some c) = if s.review.final_acceptance then keep_manual s c else ok tt

abbrev pub guard_final : Platform → ReviewState → Option Bool → Result (Unit {0})
guard_final P s (some true) = do
  allowed ← can_record_final_acceptance P s
  raise_if (not allowed) "final acceptance prerequisites are not satisfied"
guard_final P s (some false) = ok tt
guard_final P s none = ok tt

-- Acceptance below the required level, with no comment.
abbrev pub lacks_comment :
    ResolutionEvent → Option Criterion → Option Finding → Option HumanDecision → Bool
lacks_comment e none f d = false
lacks_comment e (some c) none d = false
lacks_comment e (some c) (some f) none = false
lacks_comment e (some c) (some f) (some d) =
    acceptance_requires_comment d f.evidence_level c.required_evidence_level && is_blank e.comment

abbrev pub guard_criterion : ReviewBundle → ResolutionEvent → Option String → Result (Unit {0})
guard_criterion b e none = ok tt
guard_criterion b e (some c) = do
  raise_if (not (contains (criterion_ids b.criteria) c))
      "resolution event must reference a criterion in the active review"
  raise_if
      (lacks_comment e (last_by (λ x. x.criterion_id) c b.criteria)
        (last_by (λ f. f.criterion_id) c b.findings) e.decision)
      "a reviewer comment is required when accepting below the required evidence level"

-- `{**event, "criteria_revision_number": state.criteria_revision.number}`
abbrev pub bind_event : ReviewState → ResolutionEvent → ResolutionEvent
bind_event s e = record e { criteria_revision_number = s.criteria_revision.number }

abbrev pub with_event : ReviewState → ResolutionEvent → ReviewState
with_event s e = record s { resolution_events = s.resolution_events ++ bind_event s e ∷ [] }

abbrev pub has_event_id : String → ResolutionEvent → Bool
has_event_id id e = e.event_id == id

abbrev pub has_runtime_id : Option String → RuntimeEvidence → Bool
has_runtime_id id e = e.runtime_evidence_id == id

abbrev pub guard_resolution :
    Platform → ReviewState → ResolutionEvent → Option ReviewBundle → Result (Unit {0})
guard_resolution P s e none = err "Run a confirmed analysis before recording a resolution"
guard_resolution P s e (some b) = do
  raise_if (decides_manually e.decision)
      "manual verification must be recorded with append_external_verification"
  guard_manual s e.criterion_id
  guard_final P s e.final_acceptance
  guard_criterion b e e.criterion_id

unfoldable pub append_resolution : Platform → ReviewState → ResolutionEvent → Result ReviewState
append_resolution P state event = do
  s ← validated_review_state P state
  validate_event event
  raise_if (any (has_event_id event.event_id) s.resolution_events)
      "resolution event ID must be unique"
  guard_resolution P s event s.bundle
  validate_event (bind_event s event)
  updated ← recalculate P (with_event s event)
  validated_review_state P updated

-- The checks of `append_external_verification` on its two inputs, which must agree.
abbrev pub guard_pair :
    ReviewState → RuntimeEvidence → ResolutionEvent → ReviewBundle → Result (Unit {0})
guard_pair s evidence event b = do
  raise_if (is_none evidence.runtime_evidence_id)
      "runtime evidence must include the active review identity"
  raise_if (not (is_of_review s.review evidence))
      "runtime evidence must match the active review identity"
  raise_if (not (decides_manually event.decision))
      "external verification requires a manually verified decision"
  raise_if (not (event.runtime_evidence_id == evidence.runtime_evidence_id))
      "external verification inputs must use the same runtime evidence ID"
  raise_if (not (some evidence.criterion_id == event.criterion_id))
      "external verification inputs must reference the same active criterion"
  raise_if (not (contains (criterion_ids b.criteria) evidence.criterion_id))
      "external verification inputs must reference the same active criterion"
  raise_if (not (evidence.reviewer == event.reviewer))
      "external verification inputs must use the same reviewer"
  raise_if (not (some evidence.evidence_level == event.claimed_evidence_level))
      "external verification inputs must use the same evidence level"
  raise_if (not (is_runtime_level evidence.evidence_level))
      "external verification requires E3 or E4 evidence"

-- Those on the active bundle and the events.
abbrev pub guard_verification :
    ReviewState → RuntimeEvidence → ResolutionEvent → ReviewBundle → Result (Unit {0})
guard_verification s evidence event b = do
  guard_pair s evidence event b
  raise_if (any (has_runtime_id evidence.runtime_evidence_id) b.runtime_evidence)
      "runtime evidence ID must be unique"
  raise_if (any (has_event_id event.event_id) s.resolution_events)
      "resolution event ID must be unique"
  resolutions ← active_resolutions s
  raise_if
      (s.review.final_acceptance
        && is_manual_resolution (last_by (λ r. r.criterion_id) evidence.criterion_id resolutions))
      "final acceptance must be revoked before replacing manual verification"

abbrev pub verify_on :
    Platform
    → ReviewState
    → RuntimeEvidence
    → ResolutionEvent
    → Option ReviewBundle
    → Result ReviewState
verify_on P s evidence event none =
    err "Run a confirmed analysis before recording external verification"
verify_on P s evidence event (some b) = do
  guard_verification s evidence event b
  validate_event (bind_event s event)
  let extended : ReviewBundle = record b { runtime_evidence = b.runtime_evidence ++ evidence ∷ [] }
  updated ← recalculate P (record (with_event s event) { bundle = some extended })
  validated_review_state P updated

unfoldable pub append_external_verification :
    Platform → ReviewState → RuntimeEvidence → ResolutionEvent → Result ReviewState
append_external_verification P state evidence event = do
  s ← validated_review_state P state
  validate_runtime_evidence evidence
  validate_event event
  verify_on P s evidence event s.bundle
