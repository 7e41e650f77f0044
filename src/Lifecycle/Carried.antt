-- ===== src/Lifecycle/Carried.antt =====
-- What carries over from a state to the one after `revise_criteria` of
-- scopeproof_core/reviews/lifecycle.py.
use scope_proof.Base.{
  ◌≡◌, refl, ℕ, ◌+◌, true, false, not, ◌&&◌, Option, none, some, List, [], ◌∷◌, ◌++◌, any,
  append-nil, leb, ltb, ◌==◌, nat_eq, bool_eq, string_eq, option_eq, list_eq, arith, ok, raise_if,
  each, >>-eq_ok, raise_if-eq_ok, >>-ok, raise_if-ok, nodup,
}
use scope_proof.Schema.{
  Platform, Review, ReviewBundle, ReviewState, ResolutionEvent, review_eq, provenance_eq,
  criterion_eq, resolution_eq,
}
use scope_proof.Events.{current_resolutions, final_acceptance}
use scope_proof.Records.{validate_review}
use scope_proof.Bundle.{validate_bundle}
use scope_proof.Validation.{
  require_active_gate, require_deterministic_gate, require_history_match, require_active_integrity,
  require_evidence_integrity,
}
use scope_proof.Validation.States.{
  validate_active_bundle, validate_active_review_identity, check_bundle_identity,
  check_bundle_provenance, check_lineage, known_revisions, out_of_order, is_stray, event_ids,
}
use scope_proof.Validation.Histories.{bundle_list, has_unknown_history}
use scope_proof.Lifecycle.Revisions.{unconfirmed}
use scope_proof.Lifecycle.Numbers.{below_next, below_next-snoc, out_of_order-snoc}

-- What `validate_active_review_identity` has established.
pub record Identity (s : ReviewState) : Type 0 where
  pub unique : nodup (event_ids s.resolution_events) ≡ true
  pub known : any (is_stray s) s.resolution_events ≡ false
  pub active : check_bundle_identity s s.bundle ≡ ok tt
  pub lineage : each (check_lineage s.review) s.analysis_history ≡ ok tt
  pub lower :
      any (λ n. leb s.criteria_revision.number n) (known_revisions s.analysis_history) ≡ false
  pub ordered : out_of_order (known_revisions s.analysis_history) ≡ false

pub validate_identity→Identity :
    (s : ReviewState) → validate_active_review_identity s ≡ ok tt → Identity s
unfolding validate_active_review_identity
validate_identity→Identity s h =
    let (unique, h1) = >>-eq_ok (raise_if (not (nodup (event_ids s.resolution_events))) _) _ h in
    let (known, h2) = >>-eq_ok (raise_if (any (is_stray s) s.resolution_events) _) _ h1 in
    let (active, h3) = >>-eq_ok (check_bundle_identity s s.bundle) _ h2 in
    let (_, h4) =
      >>-eq_ok (raise_if (not (s.review.criteria_confirmed == s.criteria_revision.confirmed)) _) _
        h3 in
    let (_, h5) =
      >>-eq_ok
        (raise_if
          (not (s.review.criteria_source_provenance == s.criteria_revision.source_provenance)) _)
        _ h4 in
    let (_, h6) = >>-eq_ok (check_bundle_provenance s s.bundle) _ h5 in
    let (lineage, h7) = >>-eq_ok (each (check_lineage s.review) s.analysis_history) _ h6 in
    let (lower, ordered) =
      >>-eq_ok
        (raise_if (any (λ n. leb s.criteria_revision.number n) (known_revisions s.analysis_history))
          _)
        _ h7 in
    record {
      unique =
          ground (arith, raise_if-eq_ok (not (nodup (event_ids s.resolution_events))) _ unique);
      known = raise_if-eq_ok (any (is_stray s) s.resolution_events) _ known;
      active = active;
      lineage = lineage;
      lower =
          raise_if-eq_ok
            (any (λ n. leb s.criteria_revision.number n) (known_revisions s.analysis_history)) _
            lower;
      ordered = raise_if-eq_ok (out_of_order (known_revisions s.analysis_history)) _ ordered;
    }

pub bundle_list-valid :
    (P : Platform) (o : Option ReviewBundle)
    → validate_active_bundle P o ≡ ok tt
    → each (validate_bundle P) (bundle_list o) ≡ ok tt
unfolding validate_active_bundle
bundle_list-valid P none h = refl
bundle_list-valid P (some b) h = rw h refl

-- What the checks say of the active analysis.
pub active_review-eq :
    (s : ReviewState) (b : ReviewBundle)
    → check_bundle_identity s (some b) ≡ ok tt
    → (b.review ≡ s.review) × (b.criteria_revision_number ≡ some s.criteria_revision.number)
unfolding check_bundle_identity
active_review-eq s b h =
    let (same, numbered) = >>-eq_ok (raise_if (not (b.review == s.review)) _) _ h in
    (
      ground (arith, raise_if-eq_ok (not (b.review == s.review)) _ same),
      ground (
        arith,
        raise_if-eq_ok (not (b.criteria_revision_number == some s.criteria_revision.number)) _
            numbered,
      ),
    )

pub check_lineage-same : (r : Review) (b : ReviewBundle) → b.review ≡ r → check_lineage r b ≡ ok tt
unfolding check_lineage
check_lineage-same r b h = rw h (ground arith)

pub unconfirmed-valid :
    (r : Review) → validate_review r ≡ ok tt → validate_review (unconfirmed r) ≡ ok tt
unfolding validate_review
unconfirmed-valid r h = h

pub nothing_active : (P : Platform) → validate_active_bundle P none ≡ ok tt
unfolding validate_active_bundle
nothing_active P = refl

-- The numbers of the history with the active analysis at its end.
pub numbers_of :
    (s : ReviewState) (o : Option ReviewBundle)
    → Identity s
    → check_bundle_identity s o ≡ ok tt
    → (any
          (λ m. leb (s.criteria_revision.number + 1) m)
          (known_revisions s.analysis_history ++ known_revisions (bundle_list o))
        ≡ false)
      × (out_of_order (known_revisions s.analysis_history ++ known_revisions (bundle_list o))
          ≡ false)
numbers_of s none found h = rw append-nil (
  below_next s.criteria_revision.number (known_revisions s.analysis_history) found.lower,
  found.ordered,
)
numbers_of s (some b) found h = rw (active_review-eq s b h).1 (
  below_next-snoc s.criteria_revision.number (known_revisions s.analysis_history) found.lower,
  out_of_order-snoc s.criteria_revision.number (known_revisions s.analysis_history) found.lower
      found.ordered,
)

pub later_stray :
    (s t : ReviewState)
    → t.criteria_revision.number ≡ s.criteria_revision.number + 1
    → (es : List ResolutionEvent) → any (is_stray s) es ≡ false
    → any (is_stray t) es ≡ false
later_stray s t h [] p = refl
later_stray s t h (e ∷ es) p = ground (arith, later_stray s t h es)

pub history_match_ok :
    (events : List ResolutionEvent) (b : ReviewBundle) (n : ℕ)
    → current_resolutions events (some n) ≡ ok b.resolutions
    → b.review.final_acceptance ≡ final_acceptance events n
    → require_history_match events b (some n) ≡ ok tt
unfolding require_history_match
history_match_ok events b n h k = rw h (
    >>-ok (raise_if (not (b.resolutions == b.resolutions)) _) _
      (raise_if-ok (not (b.resolutions == b.resolutions)) _ (ground arith))
      (raise_if-ok (not (b.review.final_acceptance == final_acceptance events n)) _
        (rw k (ground arith))))

pub active_gate-eq_ok :
    (P : Platform) (b : ReviewBundle)
    → require_active_gate P (some b) ≡ ok tt
    → require_deterministic_gate P b ≡ ok tt
unfolding require_active_gate
active_gate-eq_ok P b h = h

pub active_integrity-eq_ok :
    (b : ReviewBundle)
    → require_active_integrity (some b) ≡ ok tt
    → require_evidence_integrity b ≡ ok tt
unfolding require_active_integrity
active_integrity-eq_ok b h = h

pub no_gate : (P : Platform) → require_active_gate P none ≡ ok tt
unfolding require_active_gate
no_gate P = refl

pub no_integrity : require_active_integrity none ≡ ok tt
unfolding require_active_integrity
no_integrity = refl

-- Events of an earlier revision whose analysis is missing are allowed in the next state as well.
pub missing_later :
    (s t : ReviewState) (m : ℕ)
    → t.criteria_revision.number ≡ s.criteria_revision.number + 1
    → (has_unknown_history s ≡ true → has_unknown_history t ≡ true)
    → not (has_unknown_history s && ltb m s.criteria_revision.number) ≡ false
    → not (has_unknown_history t && ltb m t.criteria_revision.number) ≡ false
missing_later s t m h k p = rw (h, k (ground arith)) (ground arith)
