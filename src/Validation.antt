-- ===== src/Validation.antt =====
-- scopeproof_core/gates/validation.py and `ReviewState.validate_active_review_identity` of
-- scopeproof_core/schemas/models.py: what a bundle and a lifecycle state must satisfy.
pub mod Histories
pub mod States
pub mod Laws
pub mod Active
use scope_proof.Base.{
  ℕ, String, Bool, true, false, not, ◌&&◌, ◌||◌, Option, none, some, List, [], ◌∷◌, ◌++◌, Result,
  ok, err, ◌>>=◌, ◌>>◌, raise_if, each, any, filter, is_empty, is_none, is_some, is_blank, last_by,
  ltb, leb, ◌==◌, string_eq, nat_eq, bool_eq, option_eq, list_eq, if◌then◌else◌,
}
use scope_proof.Schema.{
  Platform, Review, ReviewBundle, ReviewState, RuntimeEvidence, HumanResolution, HumanDecision,
  ResolutionEvent, Criterion, Finding, EvidenceLevel, is_manual, is_complete, is_passing,
  is_resolved_decision, rank, gate_eq, GateDecision, evidence_level_eq, resolution_eq,
}
use scope_proof.Events.{current_resolutions, final_acceptance}
use scope_proof.Gate.{evaluate_gate}
use scope_proof.Bundle.{validate_bundle}
use scope_proof.Bundle.Records.{runtime_by_id, is_of_review}
use scope_proof.Validation.Histories.{
  require_event_history_integrity, is_paired, review_allows_final_acceptance,
}
use scope_proof.Validation.States.{validate_identity}

-- `evaluate_gate` on the bundle's own records.
abbrev pub bundle_gate : Platform → ReviewBundle → GateDecision
bundle_gate P b =
    evaluate_gate P b.review b.criteria b.findings b.resolutions b.evidence b.file_scope_decisions

unfoldable pub require_deterministic_gate : Platform → ReviewBundle → Result (Unit {0})
require_deterministic_gate P b =
    raise_if (not (b.gate == bundle_gate P b)) "gate must match deterministic evaluation"

-- A resolution in `unpaired`.
abbrev pub is_unpaired : ReviewBundle → HumanResolution → Bool
is_unpaired b r =
    is_manual r.decision
    && is_some r.runtime_evidence_id
    && not (is_paired b r.criterion_id r.reviewer r.claimed_evidence_level r.runtime_evidence_id)

unfoldable pub require_manual_verification_evidence : ReviewBundle → Result (Unit {0})
require_manual_verification_evidence b =
    raise_if (any (is_unpaired b) b.resolutions)
      "manually verified resolutions require matching runtime evidence"

-- `acceptance_requires_comment` of scopeproof_core/review_policy.py.
unfoldable pub acceptance_requires_comment : HumanDecision → EvidenceLevel → EvidenceLevel → Bool
acceptance_requires_comment HumanDecision.accepted observed required =
    ltb (rank observed) (rank required)
acceptance_requires_comment _ observed required = false

-- A resolution in `unsupported`.
abbrev pub is_unsupported : HumanResolution → Option Criterion → Option Finding → Bool
is_unsupported r none f = false
is_unsupported r (some c) none = false
is_unsupported r (some c) (some f) =
    acceptance_requires_comment r.decision f.evidence_level c.required_evidence_level
    && is_blank r.comment

unfoldable pub require_low_evidence_acceptance_comments : ReviewBundle → Result (Unit {0})
unfolding acceptance_requires_comment is_blank
require_low_evidence_acceptance_comments b =
    raise_if
      (any
        (λ r.
          is_unsupported r (last_by (λ c. c.criterion_id) r.criterion_id b.criteria)
            (last_by (λ f. f.criterion_id) r.criterion_id b.findings))
        b.resolutions)
      "reviewer comment is required when accepting below the required evidence level"

abbrev pub is_accepted : Option HumanResolution → Bool
is_accepted none = false
is_accepted (some r) = is_resolved_decision r.decision

unfoldable pub require_final_acceptance_prerequisites : ReviewBundle → Result (Unit {0})
require_final_acceptance_prerequisites b = if not b.review.final_acceptance then ok tt else do
  raise_if (not (review_allows_final_acceptance b.review))
      "final acceptance requires complete confirmed analysis and passing CI"
  raise_if
      (any (λ c. not (is_accepted (last_by (λ r. r.criterion_id) c.criterion_id b.resolutions)))
        b.criteria)
      "final acceptance requires accepted current resolutions"

unfoldable pub require_evidence_integrity : ReviewBundle → Result (Unit {0})
require_evidence_integrity b = do
  require_manual_verification_evidence b
  require_low_evidence_acceptance_comments b
  require_final_acceptance_prerequisites b

unfoldable pub check_review_bundle : Platform → ReviewBundle → Result (Unit {0})
check_review_bundle P b = do
  validate_bundle P b
  require_deterministic_gate P b
  require_evidence_integrity b

unfoldable pub validated_review_bundle : Platform → ReviewBundle → Result ReviewBundle
unfolding check_review_bundle
validated_review_bundle P b = do check_review_bundle P b; ok b

-- The decisions and the final acceptance of a bundle are those of its events.
unfoldable pub require_history_match :
    List ResolutionEvent → ReviewBundle → Option ℕ → Result (Unit {0})
require_history_match events b none = ok tt
require_history_match events b (some n) = do
  expected ← current_resolutions events (some n)
  raise_if (not (b.resolutions == expected))
      "historical bundle resolutions must match historical resolution events"
  raise_if (not (b.review.final_acceptance == final_acceptance events n))
      "historical bundle final acceptance must match historical resolution events"

unfoldable pub require_historical_bundle :
    Platform → List ResolutionEvent → ReviewBundle → Result (Unit {0})
require_historical_bundle P events b = do
  require_deterministic_gate P b
  require_history_match events b b.criteria_revision_number
  require_evidence_integrity b

abbrev pub active_events : ReviewState → List ResolutionEvent
active_events s =
    filter (λ e. e.criteria_revision_number == s.criteria_revision.number) s.resolution_events

unfoldable pub require_active_gate : Platform → Option ReviewBundle → Result (Unit {0})
require_active_gate P none = ok tt
require_active_gate P (some b) = require_deterministic_gate P b

unfoldable pub require_active_match : ReviewState → Option ReviewBundle → Result (Unit {0})
require_active_match s none =
    raise_if (not (is_empty (active_events s)))
      "active resolution events require an active analysis bundle"
require_active_match s (some b) = do
  expected ← current_resolutions s.resolution_events (some s.criteria_revision.number)
  raise_if (not (b.resolutions == expected))
      "active bundle resolutions must match active resolution events"

unfoldable pub require_active_integrity : Option ReviewBundle → Result (Unit {0})
require_active_integrity none = ok tt
require_active_integrity (some b) = require_evidence_integrity b

unfoldable pub check_review_state : Platform → ReviewState → Result (Unit {0})
check_review_state P s = do
  validate_identity P s
  require_active_gate P s.bundle
  each (require_historical_bundle P s.resolution_events) s.analysis_history
  require_active_match s s.bundle
  raise_if
      (not (
        s.review.final_acceptance
        == final_acceptance s.resolution_events s.criteria_revision.number))
      "final acceptance must match active resolution events"
  require_event_history_integrity s
  require_active_integrity s.bundle

unfoldable pub validated_review_state : Platform → ReviewState → Result ReviewState
validated_review_state P s = do check_review_state P s; ok s
