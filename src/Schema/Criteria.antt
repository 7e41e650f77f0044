-- ===== src/Schema/Criteria.antt =====
-- Criterion, CriteriaSourceProvenance and CriteriaRevision of scopeproof_core/schemas/models.py.
-- A timestamp is an instant on the UTC line.
use native.Mathlib.Decide.{ℕ_discrete}
use scope_proof.Base.{ℕ, String, Bool, Option, List, Eq, String_discrete}
use scope_proof.Schema.Enums.{
  Priority, CriterionType, CriterionSource, EvidenceLevel, Priority-discrete,
  CriterionType-discrete, CriterionSource-discrete, EvidenceLevel-discrete,
}

pub record Criterion : Type 0 where
  pub criterion_id : String
  pub text : String
  pub priority : Priority
  pub criterion_type : CriterionType
  pub criterion_source : CriterionSource
  pub source_span : Option String
  pub required_evidence_level : EvidenceLevel

pub record CriteriaSourceProvenance : Type 0 where
  pub source_uri : String
  pub source_revision : Option String
  pub source_text_sha256 : String
  pub normalized_criteria_sha256 : String
  pub confirmed_by : String
  pub confirmed_at : ℕ

pub record CriteriaRevision : Type 0 where
  pub number : ℕ
  pub criteria : List Criterion
  pub source_text : String
  pub confirmed : Bool
  pub created_at : ℕ
  pub confirmed_at : Option ℕ
  pub source_provenance : Option CriteriaSourceProvenance

unfoldable pub Criterion-discrete : Discrete Criterion
Criterion-discrete = hlevel (
  String_discrete, Priority-discrete, CriterionType-discrete, CriterionSource-discrete,
  EvidenceLevel-discrete,
)

unfoldable pub CriteriaSourceProvenance-discrete : Discrete CriteriaSourceProvenance
CriteriaSourceProvenance-discrete = hlevel (String_discrete, ℕ_discrete)

instance abbrev pub criterion_eq : Eq Criterion
criterion_eq = record { dec = Criterion-discrete }

instance abbrev pub provenance_eq : Eq CriteriaSourceProvenance
provenance_eq = record { dec = CriteriaSourceProvenance-discrete }
