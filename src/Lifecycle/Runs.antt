-- ===== src/Lifecycle/Runs.antt =====
-- A review's life: sequences of the operations of scopeproof_core/reviews/lifecycle.py.
use scope_proof.Base.{
  ◌≡◌, refl, ◌∙◌, sym, ap, ℕ, ◌≤◌, String, not, some, List, [], ◌∷◌, ◌++◌, append-nil, append_assoc,
  ok, raise_if, >>=-eq_ok, >>-eq_ok, arith, is_empty, is_some, ltb, ◌==◌, list_eq, string_eq,
  option_eq,
}
use scope_proof.Schema.{
  Platform, ReviewBundle, ReviewState, Criterion, CriteriaSourceProvenance, ResolutionEvent,
  RuntimeEvidence, FileScopeDecision, JunitEvidenceImport, criterion_eq, provenance_eq, review_eq,
}
use scope_proof.Bundle.{validate_bundle}
use scope_proof.Records.{validate_revision}
use scope_proof.Validation.{check_review_state, validated_review_state, validated_review_bundle}
use scope_proof.Validation.Histories.{bundle_list}
use scope_proof.Validation.Laws.{validated_review_state-eq_ok}
use scope_proof.Lifecycle.Revisions.{
  revise_criteria, confirm_criteria, attach_analysis, confirmed_revision, confirmed_review,
  require_bare_analysis, same_provenance, rebound_review, active_review,
}
use scope_proof.Lifecycle.Decisions.{append_resolution, append_external_verification, bind_event}
use scope_proof.Lifecycle.Context.{
  append_runtime_evidence, append_file_scope_decision, append_junit_evidence_import,
}
use scope_proof.Lifecycle.Revising.{revise_criteria-valid}
use scope_proof.Lifecycle.Appending.{
  IsAppended, lineage, append_resolution-IsAppended, append_external_verification-IsAppended,
}
use scope_proof.Lifecycle.Extending.{
  IsExtended, append_runtime_evidence-IsExtended, append_file_scope_decision-IsExtended,
  append_junit_evidence_import-IsExtended,
}

-- One operation that succeeds.
pub data Step (P : Platform) : ReviewState → ReviewState → Type 0 where
  revises :
      {s t : ReviewState} (now : ℕ) (criteria : List Criterion) (text : String)
      → revise_criteria P now s criteria text ≡ ok t
      → Step P s t
  confirms :
      {s t : ReviewState} (provenance : CriteriaSourceProvenance)
      → confirm_criteria P s provenance ≡ ok t
      → Step P s t
  attaches :
      {s t : ReviewState} (bundle : ReviewBundle) → attach_analysis P s bundle ≡ ok t → Step P s t
  resolves :
      {s t : ReviewState} (event : ResolutionEvent)
      → append_resolution P s event ≡ ok t
      → Step P s t
  verifies :
      {s t : ReviewState} (evidence : RuntimeEvidence) (event : ResolutionEvent)
      → append_external_verification P s evidence event ≡ ok t
      → Step P s t
  observes :
      {s t : ReviewState} (evidence : RuntimeEvidence)
      → append_runtime_evidence P s evidence ≡ ok t
      → Step P s t
  scopes :
      {s t : ReviewState} (decision : FileScopeDecision)
      → append_file_scope_decision P s decision ≡ ok t
      → Step P s t
  imports :
      {s t : ReviewState} (evidence_import : JunitEvidenceImport)
      → append_junit_evidence_import P s evidence_import ≡ ok t
      → Step P s t

-- A sequence of them.
pub data Run (P : Platform) : ReviewState → ReviewState → Type 0 where
  stay : {s : ReviewState} → Run P s s
  then : {s t u : ReviewState} → Run P s t → Step P t u → Run P s u

-- What every operation promises: the new state passes every check, what was recorded before is a
-- prefix of what is recorded now, and the review is of the same head of the same pull request.
pub record Grows (P : Platform) (s t : ReviewState) : Type 0 where
  pub valid : check_review_state P t ≡ ok tt
  pub events : (es : List ResolutionEvent) × (t.resolution_events ≡ s.resolution_events ++ es)
  pub history : (bs : List ReviewBundle) × (t.analysis_history ≡ s.analysis_history ++ bs)
  pub number : s.criteria_revision.number ≤ t.criteria_revision.number
  pub same_lineage : lineage t.review ≡ lineage s.review

nothing_more {ℓ} : {A : Type ℓ} (xs ys : List A) → ys ≡ xs → (zs : List A) × (ys ≡ xs ++ zs)
nothing_more xs ys e = ([], e ∙ sym (append-nil xs))

-- A state that passes every check and keeps the events, the history, the number and the review.
keeps :
    (P : Platform) (s t : ReviewState)
    → check_review_state P t ≡ ok tt
    → t.resolution_events ≡ s.resolution_events
    → t.analysis_history ≡ s.analysis_history
    → t.criteria_revision.number ≡ s.criteria_revision.number
    → lineage t.review ≡ lineage s.review
    → Grows P s t
keeps P s t checked same_events same_history same_number same = record {
  valid = checked;
  events = nothing_more s.resolution_events t.resolution_events same_events;
  history = nothing_more s.analysis_history t.analysis_history same_history;
  number = ground (arith, same_number);
  same_lineage = same;
}

revise_criteria-Grows :
    (P : Platform) (now : ℕ) (s t : ReviewState) (criteria : List Criterion) (text : String)
    → revise_criteria P now s criteria text ≡ ok t
    → Grows P s t
revise_criteria-Grows P now s t criteria text h =
    let (checked, e) = revise_criteria-valid P now s criteria text h in
    record {
      valid = checked;
      events =
          nothing_more s.resolution_events t.resolution_events (ap (λ x. x.resolution_events) e);
      history = (bundle_list s.bundle, ap (λ x. x.analysis_history) e);
      number = ground (arith, ap (λ x. x.criteria_revision.number) e);
      same_lineage = ap (λ x. lineage x.review) e;
    }

IsAppended-Grows :
    (P : Platform) (s t : ReviewState) (e : ResolutionEvent) → IsAppended P s e t → Grows P s t
IsAppended-Grows P s t e q = record {
  valid = q.valid;
  events = (bind_event s e ∷ [], q.events);
  history = nothing_more s.analysis_history t.analysis_history q.history;
  number = ground (arith, ap (λ r. r.number) q.revision);
  same_lineage = q.same_lineage;
}

IsExtended-Grows :
    (P : Platform) (extend : ReviewBundle → ReviewBundle) (s t : ReviewState)
    → IsExtended P extend s t
    → Grows P s t
IsExtended-Grows P extend s t q =
    keeps P s t q.valid (ap (λ x. x.resolution_events) q.result)
      (ap (λ x. x.analysis_history) q.result) (ap (λ x. x.criteria_revision.number) q.result)
      (ap (λ x. lineage x.review) q.result)

confirm_criteria-Grows :
    (P : Platform) (s t : ReviewState) (p : CriteriaSourceProvenance)
    → confirm_criteria P s p ≡ ok t
    → Grows P s t
unfolding confirm_criteria
confirm_criteria-Grows P s t p h =
    let (s', valid, h1) = >>=-eq_ok (validated_review_state P s) _ h in
    let (_, same) = validated_review_state-eq_ok P s s' valid in
    let (_, h2) = >>-eq_ok (raise_if (is_empty s'.criteria_revision.criteria) _) _ h1 in
    let (_, h3) = >>-eq_ok (raise_if (is_some s'.bundle) _) _ h2 in
    let (_, h4) = >>-eq_ok (raise_if (ltb p.confirmed_at s'.criteria_revision.created_at) _) _ h3 in
    let (_, h5) = >>-eq_ok (validate_revision P (confirmed_revision s'.criteria_revision p)) _ h4 in
    let u : ReviewState = record s' {
      criteria_revision = confirmed_revision s'.criteria_revision p;
      review = confirmed_review s'.review p;
    } in
    let (checked, result) = validated_review_state-eq_ok P u t h5 in
    rw same (
      keeps P s' t checked (ap (λ x. x.resolution_events) (sym result))
        (ap (λ x. x.analysis_history) (sym result))
        (ap (λ x. x.criteria_revision.number) (sym result))
        (ap (λ x. lineage x.review) (sym result)))

attach_analysis-Grows :
    (P : Platform) (s t : ReviewState) (bundle : ReviewBundle)
    → attach_analysis P s bundle ≡ ok t
    → Grows P s t
unfolding attach_analysis
attach_analysis-Grows P s t bundle h =
    let (s', valid, h1) = >>=-eq_ok (validated_review_state P s) _ h in
    let (_, same) = validated_review_state-eq_ok P s s' valid in
    let (_, h2) = >>-eq_ok (raise_if (is_empty s'.criteria_revision.criteria) _) _ h1 in
    let (_, h3) = >>-eq_ok (raise_if (is_some s'.bundle) _) _ h2 in
    let (_, h4) = >>-eq_ok (raise_if (not s'.criteria_revision.confirmed) _) _ h3 in
    let (_, h5) = >>-eq_ok (validate_bundle P bundle) _ h4 in
    let (_, h6) = >>-eq_ok (require_bare_analysis bundle) _ h5 in
    let (b, _, h7) = >>=-eq_ok (validated_review_bundle P bundle) _ h6 in
    let (_, h8) = >>-eq_ok (raise_if (not (same_provenance s' b)) _) _ h7 in
    let (_, h9) = >>-eq_ok (raise_if (not (b.criteria == s'.criteria_revision.criteria)) _) _ h8 in
    let (_, h10) =
      >>-eq_ok (raise_if (not (b.source_text == s'.criteria_revision.source_text)) _) _ h9 in
    let (_, h11) = >>-eq_ok (raise_if (not (rebound_review s' b == active_review s' b)) _) _ h10 in
    let u : ReviewState = record s' {
      review = active_review s' b;
      bundle = some (record b {
        criteria_revision_number = some s'.criteria_revision.number;
        review = active_review s' b;
      });
    } in
    let (checked, result) = validated_review_state-eq_ok P u t h11 in
    rw same (
      keeps P s' t checked (ap (λ x. x.resolution_events) (sym result))
        (ap (λ x. x.analysis_history) (sym result))
        (ap (λ x. x.criteria_revision.number) (sym result))
        (ap (λ x. lineage x.review) (sym result)))

-- Every operation promises it.
pub Step-Grows : (P : Platform) {s t : ReviewState} → Step P s t → Grows P s t
Step-Grows P {s} {t} (revises now criteria text h) = revise_criteria-Grows P now s t criteria text h
Step-Grows P {s} {t} (confirms p h) = confirm_criteria-Grows P s t p h
Step-Grows P {s} {t} (attaches b h) = attach_analysis-Grows P s t b h
Step-Grows P {s} {t} (resolves e h) =
    IsAppended-Grows P s t e (append_resolution-IsAppended P s e h)
Step-Grows P {s} {t} (verifies evidence e h) =
    IsAppended-Grows P s t e (append_external_verification-IsAppended P s evidence e h)
Step-Grows P {s} {t} (observes e h) =
    IsExtended-Grows P _ s t (append_runtime_evidence-IsExtended P s e h)
Step-Grows P {s} {t} (scopes d h) =
    IsExtended-Grows P _ s t (append_file_scope_decision-IsExtended P s d h)
Step-Grows P {s} {t} (imports i h) =
    IsExtended-Grows P _ s t (append_junit_evidence_import-IsExtended P s i h).0

longer {ℓ} :
    {A : Type ℓ} (xs ys zs : List A)
    → (ps : List A) × (ys ≡ xs ++ ps)
    → (qs : List A) × (zs ≡ ys ++ qs)
    → (rs : List A) × (zs ≡ xs ++ rs)
longer xs ys zs (ps, p) (qs, q) = (ps ++ qs, q ∙ ap (λ l. l ++ qs) p ∙ append_assoc xs ps qs)

Grows-trans : (P : Platform) (s t u : ReviewState) → Grows P s t → Grows P t u → Grows P s u
Grows-trans P s t u p q = record {
  valid = q.valid;
  events = longer s.resolution_events t.resolution_events u.resolution_events p.events q.events;
  history = longer s.analysis_history t.analysis_history u.analysis_history p.history q.history;
  number = ground (arith, p.number, q.number);
  same_lineage = q.same_lineage ∙ p.same_lineage;
}

-- From a state that passes every check, any sequence of operations leads to one that does; the
-- events and the earlier analyses that were recorded are all still there, in their order, the
-- revision number has not gone back, and the review is of the same head of the same pull request.
pub Run-Grows :
    (P : Platform) {s t : ReviewState} → check_review_state P s ≡ ok tt → Run P s t → Grows P s t
Run-Grows P {s} {t} h stay = keeps P s s h refl refl refl refl
Run-Grows P {s} {t} h (then {t = m} run step) =
    Grows-trans P s m t (Run-Grows P h run) (Step-Grows P step)
