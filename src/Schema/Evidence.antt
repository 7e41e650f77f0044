-- ===== src/Schema/Evidence.antt =====
-- EvidenceItem, CriterionRetrievalDiagnostic and Finding of scopeproof_core/schemas/models.py.
-- A relevance score, a float that retrieval rounds to three places, is its number of thousandths.
use scope_proof.Base.{ℕ, String, Option, List}
use scope_proof.Schema.Enums.{
  EvidenceType, EvidenceLevel, EvidenceSourceScope, FindingStatus, ConfidenceBand, RetrievalOutcome,
}

pub record EvidenceItem : Type 0 where
  pub evidence_id : String
  pub criterion_id : String
  pub evidence_type : EvidenceType
  pub evidence_level : EvidenceLevel
  pub source_scope : EvidenceSourceScope
  pub file_path : String
  pub line_start : ℕ
  pub line_end : ℕ
  pub commit_sha : String
  pub permalink : String
  pub excerpt : String
  pub context_excerpt : Option String
  pub matching_rule : String
  pub relevance_reason : String
  pub relevance_score : ℕ
  pub limitations : List String

pub record CriterionRetrievalDiagnostic : Type 0 where
  pub criterion_id : String
  pub outcome : RetrievalOutcome
  pub searched_terms : List String
  pub exact_identifiers : List String
  pub searched_paths : List String
  pub searched_evidence_types : List EvidenceType
  pub changed_file_count : ℕ
  pub unchanged_candidate_file_count : ℕ
  pub inspectable_line_count : ℕ
  pub exact_identifier_match_line_count : ℕ
  pub term_overlap_line_count : ℕ
  pub below_threshold_line_count : ℕ
  pub accepted_candidate_count : ℕ
  pub eligible_candidate_count : Option ℕ
  pub candidate_limit : Option ℕ
  pub omitted_candidate_count : Option ℕ

pub record Finding : Type 0 where
  pub criterion_id : String
  pub status : FindingStatus
  pub evidence_level : EvidenceLevel
  pub confidence_band : ConfidenceBand
  pub reason : String
  pub evidence_ids : List String
  pub missing_evidence : List String
  pub contradictions : List String
  pub recommended_action : String
