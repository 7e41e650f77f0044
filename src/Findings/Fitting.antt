-- ===== src/Findings/Fitting.antt =====
-- The findings of scopeproof_core/verification/service.py pass the validation of the bundle that they
-- go into, in scopeproof_core/schemas/models.py.
use scope_proof.Base.{
  ◌≡◌, refl, sym, subst, String, Bool, true, false, not, ◌&&◌, Option, none, some, List, [], ◌∷◌,
  ok, raise_if, >>-ok, raise_if-ok, arith, All, any, filter, filter_map, is_empty, is_none,
  contains, nodup, ◌==◌, string_eq, Bool-cases, inl, inr, if◌then◌else◌,
}
use scope_proof.Schema.{
  EvidenceItem, Criterion, Finding, FindingStatus, IngestionState, e0, is_complete,
  evidence_level_eq,
}
use scope_proof.Findings.{candidates, best_level, build_finding, missing_finding, candidate_finding}
use scope_proof.Findings.Laws.{items_found}
use scope_proof.Bundle.Candidates.{
  check_finding, evidence_by_id, evidence_ids, is_foreign, cited_items, is_evidence_found,
}

module _ {ℓ κ} {A : Type ℓ} where
  All-filter :
      (B : A → Type κ) (p : A → Bool) (xs : List A)
      → All B xs
      → All (λ x. B x × (p x ≡ true)) (filter p xs)
  All-filter B p [] h = tt
  All-filter B p (x ∷ xs) h = elim (Bool-cases (p x)) [
    | inl kept ↦ rw kept ((h.0, kept), All-filter B p xs h.1)
    | inr dropped ↦ rw dropped (All-filter B p xs h.1)
  ]

contains-filter :
    (p : EvidenceItem → Bool) (xs : List EvidenceItem) (k : String)
    → contains (evidence_ids xs) k ≡ false
    → contains (evidence_ids (filter p xs)) k ≡ false
contains-filter p [] k h = refl
contains-filter p (x ∷ xs) k h = ground (arith, contains-filter p xs k)

nodup-filter :
    (p : EvidenceItem → Bool) (xs : List EvidenceItem)
    → nodup (evidence_ids xs) ≡ true
    → nodup (evidence_ids (filter p xs)) ≡ true
nodup-filter p [] h = refl
nodup-filter p (x ∷ xs) h = ground (arith, nodup-filter p xs, contains-filter p xs x.evidence_id)

-- An item that is found under its ID and belongs to the criterion.
abbrev Cited : List EvidenceItem → Criterion → EvidenceItem → Type 0
Cited evidence c e =
    (evidence_by_id evidence e.evidence_id ≡ some e) × ((e.criterion_id == c.criterion_id) ≡ true)

module _ (evidence : List EvidenceItem) (c : Criterion) where
  resolves :
      (ys : List EvidenceItem)
      → All (Cited evidence c) ys
      → any (λ id. is_none (evidence_by_id evidence id)) (evidence_ids ys) ≡ false
  resolves [] h = refl
  resolves (y ∷ ys) h = rw (h.0.0, resolves ys h.1) refl

  belongs :
      (ys : List EvidenceItem)
      → All (Cited evidence c) ys
      → any (λ id. is_foreign c.criterion_id (evidence_by_id evidence id)) (evidence_ids ys) ≡ false
  belongs [] h = refl
  belongs (y ∷ ys) h = rw (h.0.0, h.0.1, belongs ys h.1) refl

  cited :
      (ys : List EvidenceItem)
      → All (Cited evidence c) ys
      → filter_map (evidence_by_id evidence) (evidence_ids ys) ≡ ys
  cited [] h = refl
  cited (y ∷ ys) h = step (evidence_by_id evidence y.evidence_id) h.0.0 (cited ys h.1)
    where
      step :
          {rest : List EvidenceItem} (o : Option EvidenceItem)
          → o ≡ some y
          → rest ≡ ys
          → elim o [ none ↦ rest | some z ↦ z ∷ rest ] ≡ y ∷ ys
      step none p q = cc
      step (some z) p q = cc

  missing-fits : (state : IngestionState) → check_finding evidence (missing_finding c state) ≡ ok tt
  unfolding check_finding missing_finding
  missing-fits state =
      >>-ok
        (raise_if
          (is_evidence_found
              (if is_complete state then FindingStatus.missing else FindingStatus.needs_review)
            && true)
          _)
        _
        (raise_if-ok
          (is_evidence_found
              (if is_complete state then FindingStatus.missing else FindingStatus.needs_review)
            && true)
          _ (ground arith))
        (raise_if-ok (not (e0 == e0)) _ (ground arith))

  candidate-fits :
      (y : EvidenceItem) (ys : List EvidenceItem)
      → All (Cited evidence c) (y ∷ ys)
      → nodup (evidence_ids (y ∷ ys)) ≡ true
      → check_finding evidence (candidate_finding c (y ∷ ys)) ≡ ok tt
  unfolding check_finding candidate_finding
  candidate-fits y ys h u =
      let f : Finding = candidate_finding c (y ∷ ys) in
      >>-ok (raise_if (is_evidence_found f.status && false) _) _
        (raise_if-ok (is_evidence_found f.status && false) _ (ground arith))
        (>>-ok (raise_if (not (nodup f.evidence_ids)) _) _
          (raise_if-ok (not (nodup f.evidence_ids)) _ (rw u refl))
          (>>-ok (raise_if (any (λ id. is_none (evidence_by_id evidence id)) f.evidence_ids) _) _
            (raise_if-ok (any (λ id. is_none (evidence_by_id evidence id)) f.evidence_ids) _
              (resolves (y ∷ ys) h))
            (>>-ok
              (raise_if
                (any (λ id. is_foreign c.criterion_id (evidence_by_id evidence id)) f.evidence_ids)
                _)
              _
              (raise_if-ok
                (any (λ id. is_foreign c.criterion_id (evidence_by_id evidence id)) f.evidence_ids)
                _ (belongs (y ∷ ys) h))
              (raise_if-ok (not (f.evidence_level == best_level (cited_items evidence f))) _ (
                subst (λ items. not (f.evidence_level == best_level items) ≡ false)
                  (sym (cited (y ∷ ys) h)) (ground arith))))))

-- Where the evidence has distinct IDs, each finding that is built from it passes the validation of
-- its bundle: its citations resolve, belong to its criterion and support its level.
pub build_finding-fits :
    (evidence : List EvidenceItem) (state : IngestionState) (c : Criterion)
    → nodup (evidence_ids evidence) ≡ true
    → check_finding evidence (build_finding evidence state c) ≡ ok tt
unfolding build_finding
build_finding-fits evidence state c h =
    fits (candidates evidence c)
      (All-filter (λ e. evidence_by_id evidence e.evidence_id ≡ some e)
        (λ e. e.criterion_id == c.criterion_id) evidence (items_found evidence h))
      (nodup-filter (λ e. e.criterion_id == c.criterion_id) evidence h)
  where
    fits :
        (items : List EvidenceItem)
        → All (Cited evidence c) items
        → nodup (evidence_ids items) ≡ true
        → check_finding evidence
            (if is_empty items then missing_finding c state else candidate_finding c items)
          ≡ ok tt
    fits [] q u = missing-fits evidence c state
    fits (y ∷ ys) q u = candidate-fits evidence c y ys q u
