-- ===== src/Schema/Reviews.antt =====
-- CIObservation, Review, GateDecision, ReviewBundle and ReviewState of
-- scopeproof_core/schemas/models.py. A bundle's revision number is `none` for "unknown".
use native.Mathlib.Decide.{ℕ_discrete}
use mathlib.Core.Bool.{Bool-discrete}
use scope_proof.Base.{ℕ, String, Bool, Option, List, Eq, String_discrete}
use scope_proof.Schema.Enums.{
  CheckState, CiReasonCode, IngestionState, ReviewInputOrigin, RepositoryVisibility, GateVerdict,
  GateVerdict-discrete,
}
use scope_proof.Schema.Criteria.{
  Criterion, CriteriaSourceProvenance, CriteriaRevision, CriteriaSourceProvenance-discrete,
}
use scope_proof.Schema.Evidence.{EvidenceItem, CriterionRetrievalDiagnostic, Finding}
use scope_proof.Schema.References.{ReviewerSelectedReference, SelectedReferenceEvent}
use scope_proof.Schema.Human.{RuntimeEvidence, HumanResolution, FileScopeDecision, ResolutionEvent}
use scope_proof.Schema.Junit.{JunitEvidenceImport, JunitImportEvent}

pub record CiObservation : Type 0 where
  pub state : CheckState
  pub reason : String
  pub reason_code : CiReasonCode
  pub total_check_runs : ℕ
  pub successful_check_runs : ℕ
  pub pending_check_runs : ℕ
  pub failing_check_runs : ℕ
  pub neutral_check_runs : ℕ
  pub skipped_check_runs : ℕ
  pub concrete_legacy_status_count : ℕ
  pub successful_legacy_statuses : ℕ
  pub pending_legacy_statuses : ℕ
  pub failing_legacy_statuses : ℕ
  pub neutral_legacy_statuses : ℕ
  pub skipped_check_names : List String
  pub collection_complete : Bool
  pub collection_notes : List String

pub record ChangedFileScope : Type 0 where
  pub path : String
  pub status : String
  pub previous_path : Option String

pub record ChangedFileInventory : Type 0 where
  pub head_sha : String
  pub files : List ChangedFileScope

pub record CoreSourceIdentity : Type 0 where
  pub scheme : String
  pub sha256 : String

pub record Review : Type 0 where
  pub review_id : String
  pub repository : String
  pub repository_visibility : RepositoryVisibility
  pub pr_number : ℕ
  pub base_sha : String
  pub head_sha : String
  pub check_state : CheckState
  pub ci_observation : CiObservation
  pub criteria_confirmed : Bool
  pub criteria_source_provenance : Option CriteriaSourceProvenance
  pub ingestion_state : IngestionState
  pub ingestion_warnings : List String
  pub skipped_files : List String
  pub changed_file_inventory : Option ChangedFileInventory
  pub input_origin : ReviewInputOrigin
  pub final_acceptance : Bool
  pub created_at : ℕ
  pub tool_version : String
  pub ruleset_version : String
  pub analysis_source_identity : Option CoreSourceIdentity

pub record GateDecision : Type 0 where
  pub verdict : GateVerdict
  pub blocking_criteria : List String
  pub conditional_criteria : List String
  pub unresolved_criteria : List String
  pub resolved_exceptions : List String
  pub reason_codes : List String

pub record ResearchContext : Type 0 where
  pub case_id : String
  pub boundary_note : String

pub record ReviewBundle : Type 0 where
  pub review : Review
  pub criteria_revision_number : Option ℕ
  pub source_text : String
  pub criteria : List Criterion
  pub evidence : List EvidenceItem
  pub retrieval_diagnostics : List CriterionRetrievalDiagnostic
  pub runtime_evidence : List RuntimeEvidence
  pub junit_evidence_imports : List JunitEvidenceImport
  pub junit_import_events : List JunitImportEvent
  pub findings : List Finding
  pub resolutions : List HumanResolution
  pub file_scope_decisions : List FileScopeDecision
  pub reviewer_selected_references : List ReviewerSelectedReference
  pub selected_reference_events : List SelectedReferenceEvent
  pub gate : GateDecision
  pub research_context : Option ResearchContext

pub record ReviewState : Type 0 where
  pub review : Review
  pub criteria_revision : CriteriaRevision
  pub bundle : Option ReviewBundle
  pub analysis_history : List ReviewBundle
  pub resolution_events : List ResolutionEvent

unfoldable pub CheckState-discrete : Discrete CheckState
CheckState-discrete = hlevel

unfoldable pub CiObservation-discrete : Discrete CiObservation
CiObservation-discrete = hlevel (String_discrete, ℕ_discrete, CheckState-discrete, Bool-discrete)

unfoldable pub ChangedFileInventory-discrete : Discrete ChangedFileInventory
ChangedFileInventory-discrete = hlevel String_discrete

unfoldable pub CoreSourceIdentity-discrete : Discrete CoreSourceIdentity
CoreSourceIdentity-discrete = hlevel String_discrete

unfoldable pub Review-discrete : Discrete Review
Review-discrete = hlevel (
  String_discrete, ℕ_discrete, Bool-discrete, CheckState-discrete, CiObservation-discrete,
  ChangedFileInventory-discrete, CoreSourceIdentity-discrete, CriteriaSourceProvenance-discrete,
)

unfoldable pub GateDecision-discrete : Discrete GateDecision
GateDecision-discrete = hlevel (String_discrete, GateVerdict-discrete)

instance abbrev pub check_state_eq : Eq CheckState
check_state_eq = record { dec = CheckState-discrete }

instance abbrev pub review_eq : Eq Review
review_eq = record { dec = Review-discrete }

instance abbrev pub gate_eq : Eq GateDecision
gate_eq = record { dec = GateDecision-discrete }
