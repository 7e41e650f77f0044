-- ===== src/Lifecycle/Revising.antt =====
-- `revise_criteria` of scopeproof_core/reviews/lifecycle.py, which builds the new state without a
-- validation of the whole: the state passes every check all the same.
use scope_proof.Base.{
  ◌≡◌, refl, ◌∙◌, sym, ap, subst, ℕ, ◌+◌, String, false, not, ◌&&◌, Option, none, some, List, any,
  append-nil, any-append, leb, ltb, ◌==◌, nat_eq, bool_eq, string_eq, option_eq, list_eq, arith, ok,
  raise_if, each, each-append, each-weaken, >>-eq_ok, >>=-eq_ok, raise_if-eq_ok, >>-ok, raise_if-ok,
  nodup, map, distinct, is_none, is_empty,
}
use scope_proof.Schema.{
  Platform, ReviewBundle, ReviewState, Criterion, review_eq, provenance_eq, criterion_eq,
  resolution_eq,
}
use scope_proof.Records.{validate_review, validate_revision}
use scope_proof.Bundle.{validate_bundle}
use scope_proof.Validation.{
  check_review_state, validated_review_state, require_active_gate, require_deterministic_gate,
  require_historical_bundle, require_history_match, require_active_match, require_active_integrity,
}
use scope_proof.Validation.Laws.{validated_review_state-eq_ok}
use scope_proof.Validation.States.{
  validate_state_parts, validate_active_bundle, validate_active_review_identity,
  check_bundle_identity, check_bundle_provenance, check_lineage, known_revisions, out_of_order,
  is_stray, event_ids,
}
use scope_proof.Validation.Histories.{
  require_event_history_integrity, check_revision_events, bundle_of_revision, bundle_list,
  has_unknown_history,
}
use scope_proof.Validation.Active.{
  Checks, check_review_state→Checks, Checks→check_review_state, Checks-current_resolutions,
}
use scope_proof.Lifecycle.Revisions.{revise_criteria, revised_state, next_revision, unconfirmed}
use scope_proof.Lifecycle.Numbers.{
  known_revisions-append, active_events-next, final_acceptance-next,
}
use scope_proof.Lifecycle.Carried.{
  Identity, validate_identity→Identity, bundle_list-valid, active_review-eq, check_lineage-same,
  unconfirmed-valid, nothing_active, numbers_of, later_stray, history_match_ok, active_gate-eq_ok,
  active_integrity-eq_ok, no_gate, no_integrity, missing_later,
}

module _ (P : Platform) (now : ℕ) (s : ReviewState) (criteria : List Criterion) (text : String)
    (q : Checks P s) where
  abbrev after : ReviewState
  after = revised_state now s criteria text

  abbrev n : ℕ
  n = s.criteria_revision.number

  found : Identity s
  found = validate_identity→Identity s q.identity

  parts-after :
      validate_revision P (next_revision now s criteria text) ≡ ok tt
      → validate_state_parts P after ≡ ok tt
  unfolding validate_state_parts
  parts-after h =
      let (reviewed, h1) = >>-eq_ok (validate_review s.review) _ q.parts in
      let (_, h2) = >>-eq_ok (validate_revision P s.criteria_revision) _ h1 in
      let (active, h3) = >>-eq_ok (validate_active_bundle P s.bundle) _ h2 in
      let (history, events) = >>-eq_ok (each (validate_bundle P) s.analysis_history) _ h3 in
      >>-ok (validate_review (unconfirmed s.review)) _ (unconfirmed-valid s.review reviewed) (
        >>-ok (validate_revision P (next_revision now s criteria text)) _ h (
          >>-ok (validate_active_bundle P none) _ (nothing_active P) (
            >>-ok (each (validate_bundle P) after.analysis_history) _
              (each-append (validate_bundle P) s.analysis_history (bundle_list s.bundle) history
                (bundle_list-valid P s.bundle active))
              events)))

  lineage-after : each (check_lineage (unconfirmed s.review)) after.analysis_history ≡ ok tt
  unfolding check_lineage
  lineage-after =
      each-append (check_lineage s.review) s.analysis_history (bundle_list s.bundle) found.lineage
        (of_active s.bundle found.active)
    where
      of_active :
          (o : Option ReviewBundle)
          → check_bundle_identity s o ≡ ok tt
          → each (check_lineage s.review) (bundle_list o) ≡ ok tt
      of_active none h = refl
      of_active (some b) h = rw (check_lineage-same s.review b (active_review-eq s b h).0) refl

  numbers-after :
      (any (λ m. leb (n + 1) m) (known_revisions after.analysis_history) ≡ false)
      × (out_of_order (known_revisions after.analysis_history) ≡ false)
  numbers-after =
      rw (known_revisions-append s.analysis_history (bundle_list s.bundle))
        (numbers_of s s.bundle found found.active)

  identity-after : validate_active_review_identity after ≡ ok tt
  unfolding validate_active_review_identity check_bundle_identity check_bundle_provenance
  identity-after =
      >>-ok (raise_if (not (nodup (event_ids s.resolution_events))) _) _ (rw found.unique refl) (
        >>-ok (raise_if (any (is_stray after) s.resolution_events) _) _
          (raise_if-ok (any (is_stray after) s.resolution_events) _
            (later_stray s after refl s.resolution_events found.known))
          (>>-ok (raise_if (not (after.review.criteria_source_provenance == none)) _) _
            (ground arith)
            (>>-ok (each (check_lineage (unconfirmed s.review)) after.analysis_history) _
              lineage-after
              (>>-ok
                (raise_if (any (λ m. leb (n + 1) m) (known_revisions after.analysis_history)) _) _
                (raise_if-ok (any (λ m. leb (n + 1) m) (known_revisions after.analysis_history)) _
                  numbers-after.0)
                (raise_if-ok (out_of_order (known_revisions after.analysis_history)) _
                  numbers-after.1)))))

  -- The active analysis passes the checks of a historical one.
  active-historical :
      (b : ReviewBundle)
      → s.bundle ≡ some b
      → require_historical_bundle P s.resolution_events b ≡ ok tt
  unfolding require_historical_bundle
  active-historical b active =
      let (same, numbered) =
        active_review-eq s b (subst (λ o. check_bundle_identity s o ≡ ok tt) active found.active) in
      >>-ok (require_deterministic_gate P b) _
        (active_gate-eq_ok P b (subst (λ o. require_active_gate P o ≡ ok tt) active q.gate))
        (>>-ok (require_history_match s.resolution_events b b.criteria_revision_number) _
          (subst (λ o. require_history_match s.resolution_events b o ≡ ok tt) (sym numbered)
            (history_match_ok s.resolution_events b n (Checks-current_resolutions P s b q active)
              (ap (λ r. r.final_acceptance) same ∙ q.final)))
          (active_integrity-eq_ok b
            (subst (λ o. require_active_integrity o ≡ ok tt) active q.integrity)))

  history-after :
      each (require_historical_bundle P s.resolution_events) after.analysis_history ≡ ok tt
  history-after =
      each-append (require_historical_bundle P s.resolution_events) s.analysis_history
        (bundle_list s.bundle) q.history (of_active s.bundle refl)
    where
      of_active :
          (o : Option ReviewBundle)
          → s.bundle ≡ o
          → each (require_historical_bundle P s.resolution_events) (bundle_list o) ≡ ok tt
      of_active none active = refl
      of_active (some b) active = rw (active-historical b active) refl

  matches-after : require_active_match after none ≡ ok tt
  unfolding require_active_match
  matches-after = rw (active_events-next s found.known) refl

  replays-after : require_event_history_integrity after ≡ ok tt
  unfolding require_event_history_integrity check_revision_events
  replays-after =
      each-weaken (λ m. check_revision_events s m (bundle_of_revision s m))
        (λ m. check_revision_events after m (bundle_of_revision after m))
        (distinct (map (λ e. e.criteria_revision_number) s.resolution_events)) keep q.replays
    where
      of_bundle :
          (m : ℕ) (o : Option ReviewBundle)
          → check_revision_events s m o ≡ ok tt
          → check_revision_events after m o ≡ ok tt
      of_bundle m (some b) h = h
      of_bundle m none h = raise_if-ok (not (has_unknown_history after && ltb m (n + 1))) _ (
          missing_later s after m refl
            (λ p.
              any-append (λ b. is_none b.criteria_revision_number) s.analysis_history
                (bundle_list s.bundle)
              ∙ ground arith)
            (raise_if-eq_ok (not (has_unknown_history s && ltb m n)) _ h))

      keep :
          (m : ℕ)
          → check_revision_events s m (bundle_of_revision s m) ≡ ok tt
          → check_revision_events after m (bundle_of_revision after m) ≡ ok tt
      keep m h = rw append-nil (of_bundle m (bundle_of_revision s m) h)

-- A revision of the criteria keeps the state valid: `revise_criteria` does not validate the state
-- that it builds, and every check of a stored state holds of it.
pub revise_criteria-valid :
    (P : Platform) (now : ℕ) (s : ReviewState) (criteria : List Criterion) (text : String)
    {t : ReviewState}
    → revise_criteria P now s criteria text ≡ ok t
    → (check_review_state P t ≡ ok tt) × (t ≡ revised_state now s criteria text)
unfolding revise_criteria
revise_criteria-valid P now s criteria text {t} h =
    let (s', valid, h1) = >>=-eq_ok (validated_review_state P s) _ h in
    let (checked, same) = validated_review_state-eq_ok P s s' valid in
    let (_, h2) = >>-eq_ok (raise_if (is_empty criteria) _) _ h1 in
    let (revised, h3) = >>-eq_ok (validate_revision P (next_revision now s' criteria text)) _ h2 in
    let result : t ≡ revised_state now s' criteria text = cc in
    let q : Checks P s' = check_review_state→Checks P s' checked in
    rw (same, result)
      (
        Checks→check_review_state P (after P now s' criteria text q) (record {
          parts = parts-after P now s' criteria text q revised;
          identity = identity-after P now s' criteria text q;
          gate = no_gate P;
          history = history-after P now s' criteria text q;
          matches = matches-after P now s' criteria text q;
          final = sym (final_acceptance-next s' (found P now s' criteria text q).known);
          replays = replays-after P now s' criteria text q;
          integrity = no_integrity;
        }),
        refl,
      )
