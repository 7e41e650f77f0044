-- ===== src/Schema/Human.antt =====
-- The records that people add, of scopeproof_core/schemas/models.py: RuntimeEvidence,
-- HumanResolution, FileScopeDecision and ResolutionEvent.
use native.Mathlib.Decide.{ℕ_discrete}
use scope_proof.Base.{ℕ, String, Bool, Option, List, Eq, String_discrete}
use scope_proof.Schema.Enums.{
  EvidenceLevel, HumanDecision, Disposition, EvidenceLevel-discrete, HumanDecision-discrete,
}

pub record RuntimeEvidence : Type 0 where
  pub runtime_evidence_id : Option String
  pub repository : Option String
  pub pr_number : Option ℕ
  pub head_sha : Option String
  pub criterion_id : String
  pub artifact_reference : String
  pub scenario : String
  pub timestamp : ℕ
  pub environment : String
  pub result : String
  pub reviewer : String
  pub evidence_level : EvidenceLevel
  pub limitations : List String

pub record HumanResolution : Type 0 where
  pub criterion_id : String
  pub decision : HumanDecision
  pub comment : String
  pub evidence_url : Option String
  pub claimed_evidence_level : Option EvidenceLevel
  pub runtime_evidence_id : Option String
  pub reviewer : String
  pub timestamp : ℕ

pub record FileScopeDecision : Type 0 where
  pub event_id : String
  pub review_id : String
  pub path : String
  pub head_sha : String
  pub criteria_revision_number : ℕ
  pub normalized_criteria_sha256 : String
  pub disposition : Disposition
  pub criterion_id : Option String
  pub note : String
  pub reviewer : String
  pub timestamp : ℕ

pub record ResolutionEvent : Type 0 where
  pub event_id : String
  pub criterion_id : Option String
  pub decision : Option HumanDecision
  pub final_acceptance : Option Bool
  pub comment : String
  pub evidence_url : Option String
  pub claimed_evidence_level : Option EvidenceLevel
  pub runtime_evidence_id : Option String
  pub reviewer : String
  pub timestamp : ℕ
  pub criteria_revision_number : ℕ

unfoldable pub HumanResolution-discrete : Discrete HumanResolution
HumanResolution-discrete =
    hlevel (String_discrete, ℕ_discrete, EvidenceLevel-discrete, HumanDecision-discrete)

instance abbrev pub resolution_eq : Eq HumanResolution
resolution_eq = record { dec = HumanResolution-discrete }
