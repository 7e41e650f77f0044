-- ===== src/Schema/Junit.antt =====
-- The JUnit import records of scopeproof_core/schemas/models.py. JUnitEvidenceBoundary and the
-- schema versions are constants, and no field here repeats them.
use scope_proof.Base.{ℕ, String, Option, List, Eq, String_discrete}
use scope_proof.Schema.Enums.{JunitCaseStatus}
use scope_proof.Schema.Criteria.{CriteriaSourceProvenance}

pub record JunitCaseResult : Type 0 where
  pub test_case_id : String
  pub suite_id : String
  pub suite_name : String
  pub class_name : Option String
  pub test_name : String
  pub status : JunitCaseStatus

pub record JunitResultTotals : Type 0 where
  pub total : ℕ
  pub passed : ℕ
  pub failures : ℕ
  pub errors : ℕ
  pub skipped : ℕ

pub record JunitCriterionMapping : Type 0 where
  pub criterion_id : String
  pub test_case_ids : List String

pub record JunitEvidenceImport : Type 0 where
  pub import_id : String
  pub repository : String
  pub pr_number : ℕ
  pub head_sha : String
  pub criteria_revision_number : ℕ
  pub confirmed_criteria_sha256 : String
  pub criteria_source_provenance : CriteriaSourceProvenance
  pub artifact_sha256 : String
  pub imported_by : String
  pub imported_at : ℕ
  pub totals : JunitResultTotals
  pub test_cases : List JunitCaseResult
  pub criterion_mappings : List JunitCriterionMapping
  pub parser_warnings : List String
  pub limitations : List String

-- What sets a JUnitMappingCorrectionEvent apart from a JUnitImportWithdrawalEvent.
pub data JunitAction : Type 0 where
  withdrawn : JunitAction
  mapping_corrected :
      (previous_mapping_sha256 : String) (previous_correction_event_id : Option String)
      (criterion_mappings : List JunitCriterionMapping)
      → JunitAction

pub record JunitImportEvent : Type 0 where
  pub action : JunitAction
  pub event_id : String
  pub import_id : String
  pub artifact_sha256 : String
  pub review_id : String
  pub repository : String
  pub pr_number : ℕ
  pub head_sha : String
  pub criteria_revision_number : ℕ
  pub confirmed_criteria_sha256 : String
  pub criteria_source_provenance : CriteriaSourceProvenance
  pub reviewer : String
  pub reason : String
  pub occurred_at : ℕ

unfoldable pub JunitCriterionMapping-discrete : Discrete JunitCriterionMapping
JunitCriterionMapping-discrete = hlevel String_discrete

instance abbrev pub mapping_eq : Eq JunitCriterionMapping
mapping_eq = record { dec = JunitCriterionMapping-discrete }
