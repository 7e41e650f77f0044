-- ===== src/Findings.antt =====
-- scopeproof_core/verification/service.py: provisional findings from candidate evidence.
pub mod Laws
pub mod Fitting
use Prim.Native.String.{◌++◌ as ◌<>◌}
use Prim.Native.Nat.{max}
use scope_proof.Base.{
  ℕ, String, Bool, ◌&&◌, List, [], ◌∷◌, map, filter, is_empty, if◌then◌else◌, leb, ltb, ◌==◌,
  string_eq,
}
use scope_proof.Schema.{
  Criterion, EvidenceItem, Finding, FindingStatus, EvidenceLevel, ConfidenceBand, IngestionState,
  rank, is_complete, e0, e1, e2, e3, e4,
}

-- `_confidence`, over thousandths.
unfoldable pub confidence : ℕ → ConfidenceBand
confidence score =
    if leb 800 score
    then ConfidenceBand.high
    else if leb 500 score
    then ConfidenceBand.medium
    else ConfidenceBand.low

-- The value of the enumeration member.
abbrev pub level_text : EvidenceLevel → String
level_text e0 = "E0"
level_text e1 = "E1"
level_text e2 = "E2"
level_text e3 = "E3"
level_text e4 = "E4"

-- `max(item.relevance_score for item in candidates)`
abbrev pub best_score : List EvidenceItem → ℕ
best_score [] = 0
best_score (item ∷ items) = max item.relevance_score (best_score items)

-- `max(levels, key=rank)`, with a default; the first of equals stays.
abbrev pub higher : EvidenceLevel → EvidenceLevel → EvidenceLevel
higher a b = if ltb (rank a) (rank b) then b else a

abbrev pub best_level : List EvidenceItem → EvidenceLevel
best_level [] = e0
best_level (item ∷ items) = higher item.evidence_level (best_level items)

abbrev pub candidates : List EvidenceItem → Criterion → List EvidenceItem
candidates evidence c = filter (λ item. item.criterion_id == c.criterion_id) evidence

-- The finding of a criterion with no candidate.
unfoldable pub missing_finding : Criterion → IngestionState → Finding
missing_finding c state = record {
  criterion_id = c.criterion_id;
  status = if is_complete state then FindingStatus.missing else FindingStatus.needs_review;
  evidence_level = e0;
  confidence_band = ConfidenceBand.low;
  reason =
      if is_complete state
      then "No candidate evidence was found in the complete changed-file analysis."
      else "No candidate was found, but the analysis was partial or failed.";
  evidence_ids = [];
  missing_evidence = ("Required evidence level " <> level_text c.required_evidence_level) ∷ [];
  contradictions = [];
  recommended_action =
      if is_complete state
      then "Add implementation evidence or identify evidence for reviewer inspection."
      else "Review skipped content before deciding whether evidence is missing.";
}

abbrev pub is_sufficient : Criterion → List EvidenceItem → Bool
is_sufficient c items = leb (rank c.required_evidence_level) (rank (best_level items))

abbrev pub is_strong : Criterion → List EvidenceItem → Bool
is_strong c items = leb 750 (best_score items) && is_sufficient c items

-- What a finding with candidates reports as missing.
abbrev pub shortfall : Criterion → List EvidenceItem → List String
shortfall c items =
    if is_strong c items
    then []
    else if is_sufficient c items
    then "Stronger evidence covering the remaining criterion terms" ∷ []
    else ("Evidence at required level " <> level_text c.required_evidence_level) ∷ []

-- The finding of a criterion with candidates.
unfoldable pub candidate_finding : Criterion → List EvidenceItem → Finding
unfolding confidence
candidate_finding c items = record {
  criterion_id = c.criterion_id;
  status = if is_strong c items then FindingStatus.evidence_found else FindingStatus.partial;
  evidence_level = best_level items;
  confidence_band = confidence (best_score items);
  reason =
      if is_strong c items
      then "Strong candidate evidence was found; a reviewer must still judge sufficiency."
      else "Candidate evidence covers only part of the wording or is below the required level.";
  evidence_ids = map (λ item. item.evidence_id) items;
  missing_evidence = shortfall c items;
  contradictions = [];
  recommended_action =
      if is_strong c items
      then "Open the cited lines and accept, reject, or supplement the candidate evidence."
      else "Review the candidate and provide stronger or additional evidence.";
}

unfoldable pub build_finding : List EvidenceItem → IngestionState → Criterion → Finding
unfolding missing_finding candidate_finding
build_finding evidence state c =
    let items = candidates evidence c in
    if is_empty items then missing_finding c state else candidate_finding c items

unfoldable pub build_findings : List Criterion → List EvidenceItem → IngestionState → List Finding
unfolding build_finding
build_findings criteria evidence state = map (build_finding evidence state) criteria
