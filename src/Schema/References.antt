-- ===== src/Schema/References.antt =====
-- ReviewerSelectedReference and SelectedReferenceEvent of scopeproof_core/schemas/models.py.
use scope_proof.Base.{ℕ, String, Option}
use scope_proof.Schema.Enums.{EvidenceType, EvidenceLevel, EvidenceSourceScope, ReferenceAction}
use scope_proof.Schema.Criteria.{CriteriaSourceProvenance}

-- The fields of SelectableReferenceLine, which it extends, come first.
pub record ReviewerSelectedReference : Type 0 where
  pub source_scope : EvidenceSourceScope
  pub file_path : String
  pub line_number : ℕ
  pub excerpt : String
  pub evidence_type : EvidenceType
  pub evidence_level : EvidenceLevel
  pub reference_id : String
  pub review_id : String
  pub repository : String
  pub pr_number : ℕ
  pub head_sha : String
  pub criteria_revision_number : ℕ
  pub confirmed_criteria_sha256 : String
  pub criteria_source_provenance : CriteriaSourceProvenance
  pub criterion_id : String
  pub excerpt_sha256 : String
  pub permalink : String
  pub reviewer : String
  pub rationale : String
  pub selected_at : ℕ

pub record SelectedReferenceEvent : Type 0 where
  pub event_id : String
  pub action : ReferenceAction
  pub reference_id : String
  pub replacement_reference_id : Option String
  pub review_id : String
  pub repository : String
  pub pr_number : ℕ
  pub head_sha : String
  pub criteria_revision_number : ℕ
  pub confirmed_criteria_sha256 : String
  pub reviewer : String
  pub reason : String
  pub occurred_at : ℕ
