-- ===== src/Retrieval/Levels.antt =====
-- The candidates of scopeproof_core/retrieval/engine.py have the type of their path and the level
-- that a bundle expects of the type.
use scope_proof.Base.{
  ℕ, suc, ◌≡◌, refl, ap, subst, String, Bool, true, false, some, List, [], ◌∷◌, ◌++◌, All, each, ok,
  if◌then◌else◌, >>-eq_ok, >>=-eq_ok, ok-injective,
}
use scope_proof.Schema.{
  Platform, Criterion, EvidenceType, EvidenceItem, EvidenceLevel, CriterionRetrievalDiagnostic,
  EvidenceType-discrete,
}
use scope_proof.Records as Parts
use scope_proof.Bundle.Candidates.{expected_level}
use scope_proof.Retrieval.Paths.{classify_changed_path_evidence_type}
use scope_proof.Retrieval.Matches.{PullRequestSnapshot, RetrievedFile, Score, Match}
use scope_proof.Retrieval.Search.{
  is_test, evidence_item, evidence_items, diagnostic, selected_of,
  retrieve_evidence_with_diagnostics,
}

-- The level that an item of the type is given.
abbrev level_of : EvidenceType → EvidenceLevel
level_of kind = if is_test kind then EvidenceLevel.e2 else EvidenceLevel.e1

unfoldable Agrees : EvidenceType → Type 0
Agrees kind = some (level_of kind) ≡ expected_level kind

-- The types that the classification chooses from.
retrieved-Agrees :
    (test documentation migration contract : Bool)
    → Agrees (
        if test
        then EvidenceType.test
        else if documentation
        then EvidenceType.documentation
        else if migration
        then EvidenceType.contract
        else if contract
        then EvidenceType.contract
        else EvidenceType.implementation)
unfolding Agrees EvidenceType-discrete
retrieved-Agrees true _ _ _ = refl
retrieved-Agrees false true _ _ = refl
retrieved-Agrees false false true _ = refl
retrieved-Agrees false false false true = refl
retrieved-Agrees false false false false = refl

classify-Agrees :
    (P : Platform) (path : String) → Agrees (classify_changed_path_evidence_type P path)
unfolding classify_changed_path_evidence_type
classify-Agrees P path = retrieved-Agrees _ _ _ _

-- What holds of an item: its type is that of its path, its level that of its type, and it cites one
-- line.
abbrev pub IsCandidate : Platform → EvidenceItem → Type 0
IsCandidate P e =
    (e.evidence_type ≡ classify_changed_path_evidence_type P e.file_path)
    × (some e.evidence_level ≡ expected_level e.evidence_type)
    × (e.line_start ≡ e.line_end)

All-append {ℓ κ} :
    {A : Type ℓ} (B : A → Type κ) (xs ys : List A) → All B xs → All B ys → All B (xs ++ ys)
All-append B [] ys p q = q
All-append B (x ∷ xs) ys p q = (p.0, All-append B xs ys p.1 q)

module _ (P : Platform) (round : Score → ℕ) (snapshot : PullRequestSnapshot)
    (unchanged : List RetrievedFile) where
  evidence_items-IsCandidate :
      (criterion : Criterion) (index : ℕ) (ms : List Match)
      → All (IsCandidate P) (evidence_items P round snapshot criterion index ms)
  unfolding evidence_items evidence_item Agrees
  evidence_items-IsCandidate criterion index [] = tt
  evidence_items-IsCandidate criterion index (m ∷ ms) = (
    (refl, classify-Agrees P m.source.file.path, refl),
    evidence_items-IsCandidate criterion (suc index) ms,
  )

  -- Every candidate that the retrieval returns has the type of its path, the level that a bundle
  -- expects of that type, and cites one line.
  pub retrieve_evidence_with_diagnostics-IsCandidate :
      (criteria : List Criterion) (evidence : List EvidenceItem)
      (diagnostics : List CriterionRetrievalDiagnostic)
      → retrieve_evidence_with_diagnostics P round snapshot unchanged criteria
        ≡ ok (evidence, diagnostics)
      → All (IsCandidate P) evidence
  unfolding retrieve_evidence_with_diagnostics
  retrieve_evidence_with_diagnostics-IsCandidate [] evidence diagnostics h =
      subst (All (IsCandidate P)) (ap (λ r. r.0) (ok-injective ([], []) (evidence, diagnostics) h))
        tt
  retrieve_evidence_with_diagnostics-IsCandidate (criterion ∷ criteria) evidence diagnostics h =
      let chosen = selected_of P round snapshot unchanged criterion in
      let items = evidence_items P round snapshot criterion 1 chosen in
      let (_, h1) = >>-eq_ok (each Parts.validate_evidence_item items) _ h in
      let (_, h2) =
        >>-eq_ok (Parts.validate_diagnostic (diagnostic P round snapshot unchanged criterion)) _
          h1 in
      let (rest, p, q) =
        >>=-eq_ok (retrieve_evidence_with_diagnostics P round snapshot unchanged criteria) _ h2 in
      let later = retrieve_evidence_with_diagnostics-IsCandidate criteria rest.0 rest.1 p in
      subst (All (IsCandidate P)) (ap (λ r. r.0) (ok-injective _ (evidence, diagnostics) q)) (
        All-append (IsCandidate P) items rest.0 (evidence_items-IsCandidate criterion 1 chosen)
          later)
