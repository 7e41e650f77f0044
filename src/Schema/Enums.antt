-- ===== src/Schema/Enums.antt =====
-- The string enumerations of scopeproof_core/schemas/models.py, and the tests on their members.
use scope_proof.Base.{ℕ, Bool, true, false, Eq, ltb}

pub data Priority : Type 0 where
  must_have should_have : Priority

pub data CriterionType : Type 0 where
  behavior error_state analytics permission documentation migration non_functional : CriterionType

pub data CriterionSource : Type 0 where
  user_confirmed implicit_rule_pack : CriterionSource

pub data ReviewInputOrigin : Type 0 where
  live_public_github local_fixture constructed_demo legacy_unknown : ReviewInputOrigin

pub data RepositoryVisibility : Type 0 where
  verified_public unverified : RepositoryVisibility

pub data EvidenceType : Type 0 where
  implementation test ci documentation contract runtime human : EvidenceType

pub data RetrievalOutcome : Type 0 where
  candidates_found no_searchable_terms no_inspectable_lines exact_identifier_not_found
        no_term_overlap below_relevance_threshold :
      RetrievalOutcome

pub data EvidenceSourceScope : Type 0 where
  changed_file unchanged_candidate : EvidenceSourceScope

pub data EvidenceLevel : Type 0 where
  e0 e1 e2 e3 e4 : EvidenceLevel

abbrev pub rank : EvidenceLevel → ℕ
rank e0 = 0
rank e1 = 1
rank e2 = 2
rank e3 = 3
rank e4 = 4

pub data FindingStatus : Type 0 where
  evidence_found partial missing needs_review accepted accepted_exception : FindingStatus

pub data HumanDecision : Type 0 where
  accepted accepted_exception change_required rejected_finding manually_verified not_in_scope :
      HumanDecision

pub data GateVerdict : Type 0 where
  ready conditional blocked needs_review : GateVerdict

pub data CheckState : Type 0 where
  passing failing pending unavailable : CheckState

pub data CiReasonCode : Type 0 where
  failing_check_runs failing_legacy_statuses pending_check_runs pending_legacy_statuses
        successful_check_runs successful_legacy_statuses no_observations neutral_or_skipped
        incomplete_collection historical_uncaptured :
      CiReasonCode

pub data IngestionState : Type 0 where
  complete partial failed : IngestionState

pub data ConfidenceBand : Type 0 where
  high medium low : ConfidenceBand

pub data JunitCaseStatus : Type 0 where
  passed failure error skipped : JunitCaseStatus

-- The disposition of a FileScopeDecision.
pub data Disposition : Type 0 where
  outside_confirmed_criteria within_confirmed_criteria : Disposition

-- The action of a SelectedReferenceEvent.
pub data ReferenceAction : Type 0 where
  corrected withdrawn : ReferenceAction

unfoldable pub Priority-discrete : Discrete Priority
Priority-discrete = hlevel

unfoldable pub CriterionType-discrete : Discrete CriterionType
CriterionType-discrete = hlevel

unfoldable pub CriterionSource-discrete : Discrete CriterionSource
CriterionSource-discrete = hlevel

unfoldable pub EvidenceType-discrete : Discrete EvidenceType
EvidenceType-discrete = hlevel

unfoldable pub EvidenceLevel-discrete : Discrete EvidenceLevel
EvidenceLevel-discrete = hlevel

unfoldable pub HumanDecision-discrete : Discrete HumanDecision
HumanDecision-discrete = hlevel

unfoldable pub GateVerdict-discrete : Discrete GateVerdict
GateVerdict-discrete = hlevel

unfoldable pub EvidenceSourceScope-discrete : Discrete EvidenceSourceScope
EvidenceSourceScope-discrete = hlevel

instance abbrev pub evidence_type_eq : Eq EvidenceType
evidence_type_eq = record { dec = EvidenceType-discrete }

instance abbrev pub evidence_level_eq : Eq EvidenceLevel
evidence_level_eq = record { dec = EvidenceLevel-discrete }

instance abbrev pub human_decision_eq : Eq HumanDecision
human_decision_eq = record { dec = HumanDecision-discrete }

instance abbrev pub source_scope_eq : Eq EvidenceSourceScope
source_scope_eq = record { dec = EvidenceSourceScope-discrete }

-- Identity tests on single members, `x is Member`.
abbrev pub is_must_have : Priority → Bool
is_must_have must_have = true
is_must_have should_have = false

abbrev pub is_changed_file : EvidenceSourceScope → Bool
is_changed_file changed_file = true
is_changed_file unchanged_candidate = false

abbrev pub is_live : ReviewInputOrigin → Bool
is_live live_public_github = true
is_live _ = false

abbrev pub is_manual : HumanDecision → Bool
is_manual manually_verified = true
is_manual _ = false

abbrev pub is_complete : IngestionState → Bool
is_complete complete = true
is_complete _ = false

abbrev pub is_passing : CheckState → Bool
is_passing passing = true
is_passing _ = false

abbrev pub is_failing : CheckState → Bool
is_failing failing = true
is_failing _ = false

-- `level in {EvidenceLevel.E3, EvidenceLevel.E4}`
abbrev pub is_runtime_level : EvidenceLevel → Bool
is_runtime_level l = ltb 2 (rank l)

-- `_FINAL_ACCEPTANCE_DECISIONS` of gates/validation.py, which lists what `_RESOLVED_DECISIONS`
-- of gates/evaluator.py and `accepted_decisions` of reviews/lifecycle.py list.
abbrev pub is_resolved_decision : HumanDecision → Bool
is_resolved_decision accepted = true
is_resolved_decision accepted_exception = true
is_resolved_decision manually_verified = true
is_resolved_decision not_in_scope = true
is_resolved_decision _ = false
