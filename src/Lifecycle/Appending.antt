-- ===== src/Lifecycle/Appending.antt =====
-- What the operations of scopeproof_core/reviews/lifecycle.py that append resolution events return.
use scope_proof.Base.{
  ℕ, ◌≡◌, refl, ◌∙◌, sym, ap, String, false, Option, none, some, [], ◌∷◌, ◌++◌, ok, raise_if, any,
  >>=-eq_ok, >>-eq_ok, raise_if-eq_ok,
}
use scope_proof.Schema.{
  Platform, Review, ReviewBundle, ReviewState, ResolutionEvent, RuntimeEvidence,
}
use scope_proof.Events.{validate_event, current_resolutions}
use scope_proof.Records.{validate_runtime_evidence}
use scope_proof.Validation.{check_review_state, validated_review_state}
use scope_proof.Validation.Laws.{validated_review_state-eq_ok}
use scope_proof.Lifecycle.Decisions.{
  recalculate, recalculate_bundle, recalculated, accepted_review, append_resolution,
  append_external_verification, bind_event, with_event, has_event_id, guard_resolution, guard_pair,
  guard_verification, has_runtime_id, verify_on,
}

-- What a review is a review of.
abbrev pub lineage : Review → String × String × ℕ × String
lineage r = (r.review_id, r.repository, r.pr_number, r.head_sha)

-- The history that a new event may not touch, and the event at its end.
pub record IsAppended (P : Platform) (s : ReviewState) (e : ResolutionEvent) (t : ReviewState)
    : Type 0 where
  pub valid : check_review_state P t ≡ ok tt
  pub events : t.resolution_events ≡ s.resolution_events ++ bind_event s e ∷ []
  pub unused_id : any (has_event_id e.event_id) s.resolution_events ≡ false
  pub revision : t.criteria_revision ≡ s.criteria_revision
  pub history : t.analysis_history ≡ s.analysis_history
  pub same_lineage : lineage t.review ≡ lineage s.review

-- `_recalculate` changes the review and the active bundle only.
pub record IsRecalculated (s t : ReviewState) : Type 0 where
  pub events : t.resolution_events ≡ s.resolution_events
  pub revision : t.criteria_revision ≡ s.criteria_revision
  pub history : t.analysis_history ≡ s.analysis_history
  pub same_lineage : lineage t.review ≡ lineage s.review

recalculate_lem : (P : Platform) (s t : ReviewState) → recalculate P s ≡ ok t → IsRecalculated s t
unfolding recalculate
recalculate_lem P s t h = split s.bundle h
  where
    split : (b : Option ReviewBundle) → recalculate_bundle P s b ≡ ok t → IsRecalculated s t
    split none p =
        let e : s ≡ t = cc in
        rw (← e) (record { events = refl; revision = refl; history = refl; same_lineage = refl })
    split (some b) p =
        let (rs, found, done) =
          >>=-eq_ok (current_resolutions s.resolution_events (some s.criteria_revision.number)) _
            p in
        let e : recalculated P s b (accepted_review s) rs ≡ t = cc in
        rw (← e) (record { events = refl; revision = refl; history = refl; same_lineage = refl })

-- The end of both operations.
recalculate-IsAppended :
    (P : Platform) (s : ReviewState) (e : ResolutionEvent) (w u : ReviewState) {t : ReviewState}
    → any (has_event_id e.event_id) s.resolution_events ≡ false
    → IsRecalculated (with_event s e) w
    → recalculate P w ≡ ok u
    → validated_review_state P u ≡ ok t
    → IsAppended P s e t
recalculate-IsAppended P s e w u {t} unique q recalculates validates =
    let (checked, result) = validated_review_state-eq_ok P u t validates in
    let kept = recalculate_lem P w u recalculates in
    record {
      valid = checked;
      events = ap (λ x. x.resolution_events) (sym result) ∙ kept.events ∙ q.events;
      unused_id = unique;
      revision = ap (λ x. x.criteria_revision) (sym result) ∙ kept.revision ∙ q.revision;
      history = ap (λ x. x.analysis_history) (sym result) ∙ kept.history ∙ q.history;
      same_lineage = ap (λ x. lineage x.review) (sym result) ∙ kept.same_lineage ∙ q.same_lineage;
    }

-- A recorded resolution: the new state passes every check; its events are those of the given state
-- and the new one, bound to the active revision, whose ID is new; and neither the criteria revision
-- nor an earlier analysis has changed.
pub append_resolution-IsAppended :
    (P : Platform) (s : ReviewState) (e : ResolutionEvent) {t : ReviewState}
    → append_resolution P s e ≡ ok t
    → IsAppended P s e t
unfolding append_resolution
append_resolution-IsAppended P s e {t} h =
    let (s', valid, h1) = >>=-eq_ok (validated_review_state P s) _ h in
    let (_, same) = validated_review_state-eq_ok P s s' valid in
    let (_, h2) = >>-eq_ok (validate_event e) _ h1 in
    let (unique, h3) =
      >>-eq_ok (raise_if (any (has_event_id e.event_id) s'.resolution_events) _) _ h2 in
    let (_, h4) = >>-eq_ok (guard_resolution P s' e s'.bundle) _ h3 in
    let (_, h5) = >>-eq_ok (validate_event (bind_event s' e)) _ h4 in
    let (u, recalculates, h6) = >>=-eq_ok (recalculate P (with_event s' e)) _ h5 in
    rw same (
      recalculate-IsAppended P s' e (with_event s' e) u
        (raise_if-eq_ok (any (has_event_id e.event_id) s'.resolution_events) _ unique)
        (record { events = refl; revision = refl; history = refl; same_lineage = refl })
        recalculates h6)

guard_verification-fresh :
    (s : ReviewState) (evidence : RuntimeEvidence) (e : ResolutionEvent) (b : ReviewBundle)
    → guard_verification s evidence e b ≡ ok tt
    → any (has_event_id e.event_id) s.resolution_events ≡ false
guard_verification-fresh s evidence e b h =
    let (_, h1) = >>-eq_ok (guard_pair s evidence e b) _ h in
    let (_, h2) =
      >>-eq_ok (raise_if (any (has_runtime_id evidence.runtime_evidence_id) b.runtime_evidence) _) _
        h1 in
    let (unique, _) =
      >>-eq_ok (raise_if (any (has_event_id e.event_id) s.resolution_events) _) _ h2 in
    raise_if-eq_ok (any (has_event_id e.event_id) s.resolution_events) _ unique

-- A recorded external verification: the same holds of its resolution event.
pub append_external_verification-IsAppended :
    (P : Platform) (s : ReviewState) (evidence : RuntimeEvidence) (e : ResolutionEvent)
    {t : ReviewState}
    → append_external_verification P s evidence e ≡ ok t
    → IsAppended P s e t
unfolding append_external_verification
append_external_verification-IsAppended P s evidence e {t} h =
    let (s', valid, h1) = >>=-eq_ok (validated_review_state P s) _ h in
    let (_, same) = validated_review_state-eq_ok P s s' valid in
    let (_, h2) = >>-eq_ok (validate_runtime_evidence evidence) _ h1 in
    let (_, h3) = >>-eq_ok (validate_event e) _ h2 in rw same (of_bundle s' s'.bundle h3)
  where
    of_bundle :
        (s' : ReviewState) (b : Option ReviewBundle)
        → verify_on P s' evidence e b ≡ ok t
        → IsAppended P s' e t
    of_bundle s' none p = cc
    of_bundle s' (some b) p =
        let w : ReviewState = record (with_event s' e) {
          bundle = some (record b { runtime_evidence = b.runtime_evidence ++ evidence ∷ [] });
        } in
        let (guarded, p1) = >>-eq_ok (guard_verification s' evidence e b) _ p in
        let (_, p2) = >>-eq_ok (validate_event (bind_event s' e)) _ p1 in
        let (u, recalculates, p3) = >>=-eq_ok (recalculate P w) _ p2 in
        recalculate-IsAppended P s' e w u (guard_verification-fresh s' evidence e b guarded)
          (record { events = refl; revision = refl; history = refl; same_lineage = refl })
          recalculates p3
