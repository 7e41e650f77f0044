-- ===== src/Validation/Active.antt =====
-- The checks of `_check_review_state` of scopeproof_core/gates/validation.py, taken apart.
use scope_proof.Base.{
  ◌≡◌, refl, subst, Bool, true, false, not, some, ok, raise_if, each, >>=-eq_ok, >>-eq_ok,
  raise_if-eq_ok, arith, ◌==◌, bool_eq, list_eq, nat_eq,
}
use scope_proof.Schema.{Platform, ReviewBundle, ReviewState, resolution_eq}
use scope_proof.Events.{current_resolutions, final_acceptance}
use scope_proof.Validation.{
  check_review_state, require_active_gate, require_historical_bundle, require_active_match,
  require_active_integrity,
}
use scope_proof.Validation.States.{
  validate_identity, validate_state_parts, validate_active_review_identity,
}
use scope_proof.Validation.Histories.{require_event_history_integrity}

pub record Checks (P : Platform) (s : ReviewState) : Type 0 where
  pub parts : validate_state_parts P s ≡ ok tt
  pub identity : validate_active_review_identity s ≡ ok tt
  pub gate : require_active_gate P s.bundle ≡ ok tt
  pub history : each (require_historical_bundle P s.resolution_events) s.analysis_history ≡ ok tt
  pub matches : require_active_match s s.bundle ≡ ok tt
  pub final :
      s.review.final_acceptance ≡ final_acceptance s.resolution_events s.criteria_revision.number
  pub replays : require_event_history_integrity s ≡ ok tt
  pub integrity : require_active_integrity s.bundle ≡ ok tt

abbrev pub has_stale_acceptance : ReviewState → Bool
has_stale_acceptance s =
    not
      (s.review.final_acceptance == final_acceptance s.resolution_events s.criteria_revision.number)

same_of_test : (a b : Bool) → not (a == b) ≡ false → a ≡ b
same_of_test a b h = ground arith

test_of_same : (a : Bool) → not (a == a) ≡ false
test_of_same true = refl
test_of_same false = refl

pub check_review_state→Checks :
    (P : Platform) (s : ReviewState) → check_review_state P s ≡ ok tt → Checks P s
unfolding check_review_state validate_identity
check_review_state→Checks P s h =
    let (identified, h1) = >>-eq_ok (validate_identity P s) _ h in
    let (parted, identity) = >>-eq_ok (validate_state_parts P s) _ identified in
    let (gated, h2) = >>-eq_ok (require_active_gate P s.bundle) _ h1 in
    let (historical, h3) =
      >>-eq_ok (each (require_historical_bundle P s.resolution_events) s.analysis_history) _ h2 in
    let (matched, h4) = >>-eq_ok (require_active_match s s.bundle) _ h3 in
    let (accepted, h5) = >>-eq_ok (raise_if (has_stale_acceptance s) _) _ h4 in
    let (replayed, integral) = >>-eq_ok (require_event_history_integrity s) _ h5 in
    record {
      parts = parted;
      identity = identity;
      gate = gated;
      history = historical;
      matches = matched;
      final =
          same_of_test s.review.final_acceptance
            (final_acceptance s.resolution_events s.criteria_revision.number)
            (raise_if-eq_ok (has_stale_acceptance s) _ accepted);
      replays = replayed;
      integrity = integral;
    }

pub Checks→check_review_state :
    (P : Platform) (s : ReviewState) → Checks P s → check_review_state P s ≡ ok tt
unfolding check_review_state validate_identity
Checks→check_review_state P s q =
    rw (q.parts, q.identity, q.gate, q.history, q.matches)
      (rw (← q.final, test_of_same s.review.final_acceptance, q.replays) q.integrity)

-- The resolutions of the active analysis are those that the events decide.
pub Checks-current_resolutions :
    (P : Platform) (s : ReviewState) (b : ReviewBundle)
    → Checks P s
    → s.bundle ≡ some b
    → current_resolutions s.resolution_events (some s.criteria_revision.number) ≡ ok b.resolutions
unfolding require_active_match
Checks-current_resolutions P s b q active =
    let matched : require_active_match s (some b) ≡ ok tt =
      subst (λ o. require_active_match s o ≡ ok tt) active q.matches in
    let (rs, found, same) =
      >>=-eq_ok (current_resolutions s.resolution_events (some s.criteria_revision.number)) _
        matched in
    let e : b.resolutions ≡ rs =
      ground (arith, raise_if-eq_ok (not (b.resolutions == rs)) _ same) in
    rw e found
