-- ===== src/Findings/Laws.antt =====
-- The findings of scopeproof_core/verification/service.py fit the bundle that they go into.
use scope_proof.Base.{
  ◌≡◌, refl, ◌∙◌, sym, ◌↔◌, ℕ, ◌≤◌, String, Bool, true, false, ◌&&◌, none, some, List, [], ◌∷◌, map,
  arith, All, All-weaken, find_last, is_empty, leb, contains, nodup, if◌then◌else◌, ◌==◌, string_eq,
  Bool-cases, inl, inr,
}
use scope_proof.Schema.{
  EvidenceItem, Criterion, FindingStatus, IngestionState, is_complete, rank, evidence_level_eq,
}
use scope_proof.Findings.{
  candidates, best_score, best_level, build_finding, build_findings, missing_finding,
  candidate_finding,
}
use scope_proof.Gate.{criterion_ids, finding_ids}

pub build_findings-criterion_ids :
    (criteria : List Criterion) (evidence : List EvidenceItem) (state : IngestionState)
    → finding_ids (build_findings criteria evidence state) ≡ criterion_ids criteria
unfolding build_findings build_finding missing_finding candidate_finding
build_findings-criterion_ids [] evidence state = refl
build_findings-criterion_ids (c ∷ cs) evidence state =
    elim (Bool-cases (is_empty (candidates evidence c))) [
      | inl bare ↦ rw (bare, build_findings-criterion_ids cs evidence state) refl
      | inr backed ↦ rw (backed, build_findings-criterion_ids cs evidence state) refl
    ]

abbrev status_of : (bare complete : Bool) (score required level : ℕ) → FindingStatus
status_of bare complete score required level =
    if bare
    then (if complete then FindingStatus.missing else FindingStatus.needs_review)
    else if leb 750 score && leb required level
    then FindingStatus.evidence_found
    else FindingStatus.partial

status_of-evidence_found :
    (bare complete : Bool) (score required level : ℕ)
    → (status_of bare complete score required level ≡ FindingStatus.evidence_found)
      ↔ ((bare ≡ false) × (750 ≤ score) × (required ≤ level))
status_of-evidence_found bare complete score required level = (λ p. ground arith, λ p. ground arith)

build_finding-status :
    (evidence : List EvidenceItem) (state : IngestionState) (c : Criterion)
    → (build_finding evidence state c).status
      ≡ status_of
          (is_empty (candidates evidence c))
          (is_complete state)
          (best_score (candidates evidence c))
          (rank c.required_evidence_level)
          (rank (best_level (candidates evidence c)))
unfolding build_finding missing_finding candidate_finding
build_finding-status evidence state c = settle (candidates evidence c)
  where
    settle :
        (items : List EvidenceItem)
        → (if is_empty items then missing_finding c state else candidate_finding c items).status
          ≡ status_of
              (is_empty items)
              (is_complete state)
              (best_score items)
              (rank c.required_evidence_level)
              (rank (best_level items))
    settle [] = refl
    settle (x ∷ xs) = refl

-- A finding claims evidence exactly if its criterion has a candidate, the best relevance of its
-- candidates is at least 0.75, and the best level of them is at least the required one.
pub build_finding-evidence_found :
    (evidence : List EvidenceItem) (state : IngestionState) (c : Criterion)
    → ((build_finding evidence state c).status ≡ FindingStatus.evidence_found) ↔ (
        (is_empty (candidates evidence c) ≡ false)
        × (750 ≤ best_score (candidates evidence c))
        × (rank c.required_evidence_level ≤ rank (best_level (candidates evidence c))))
build_finding-evidence_found evidence state c =
    let (to, from) =
      status_of-evidence_found (is_empty (candidates evidence c)) (is_complete state)
        (best_score (candidates evidence c)) (rank c.required_evidence_level)
        (rank (best_level (candidates evidence c))) in
    (
      λ p. to (sym (build_finding-status evidence state c) ∙ p),
      λ q. build_finding-status evidence state c ∙ from q,
    )

absent_id :
    (xs : List EvidenceItem) (k : String)
    → contains (map (λ e. e.evidence_id) xs) k ≡ false
    → find_last (λ y. y.evidence_id == k) xs ≡ none
absent_id [] k h = refl
absent_id (x ∷ xs) k h = ground (arith, absent_id xs k)

-- Distinct IDs: each item is found under its own.
pub items_found :
    (xs : List EvidenceItem)
    → nodup (map (λ e. e.evidence_id) xs) ≡ true
    → All (λ e. find_last (λ x. x.evidence_id == e.evidence_id) xs ≡ some e) xs
items_found [] h = tt
items_found (x ∷ xs) h = (
  head (absent_id xs x.evidence_id (ground arith)),
  All-weaken xs (λ e q. rw q refl) (items_found xs (ground arith)),
)
  where
    head :
        find_last (λ y. y.evidence_id == x.evidence_id) xs ≡ none
        → find_last (λ y. y.evidence_id == x.evidence_id) (x ∷ xs) ≡ some x
    head p = rw p (ground arith)
