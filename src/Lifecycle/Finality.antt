-- ===== src/Lifecycle/Finality.antt =====
-- Final acceptance in scopeproof_core/reviews/lifecycle.py: when it may be recorded, and what a
-- recorded decision or acceptance changes.
use scope_proof.Base.{
  ◌≡◌, refl, ◌∙◌, subst, String, Bool, true, false, not, ◌&&◌, ◌||◌, Option, none, some, List, [],
  ◌∷◌, Result, ok, ◌>>=◌, raise_if, any, all, All, all-eq_true→All, >>=-eq_ok, >>-eq_ok,
  raise_if-eq_ok, arith, nat_eq, string_eq, option_eq, if◌then◌else◌, is_some, is_empty,
}
use scope_proof.Schema.{
  Platform, ReviewBundle, ReviewState, ResolutionEvent, IngestionState, CheckState, is_complete,
  is_passing, provenance_eq,
}
use scope_proof.Events.{validate_event, decides_manually, final_acceptance, is_final_event, flag}
use scope_proof.Events.Laws.{resolution_for, decides}
use scope_proof.Gate.{has_open_files}
use scope_proof.FileScope.{unresolved_changed_file_paths}
use scope_proof.Validation.{check_review_state, validated_review_state}
use scope_proof.Validation.Laws.{validated_review_state-eq_ok}
use scope_proof.Validation.Active.{Checks, check_review_state→Checks, Checks-current_resolutions}
use scope_proof.Lifecycle.Decisions.{
  append_resolution, bind_event, has_event_id, guard_resolution, guard_final, guard_manual,
  can_record_final_acceptance, can_record_on, acceptable_criteria, acceptable_criterion,
  is_acceptable, is_acceptance_ready, has_no_criteria,
}
use scope_proof.Lifecycle.Appending.{append_resolution-IsAppended}
use scope_proof.Lifecycle.Current.{IsAppended-final}

-- What a state has that may record final acceptance: an active analysis on a complete, confirmed
-- and passing review with every changed file accounted for, and for each of its criteria an accepted
-- current resolution, which is linked to runtime evidence where it is a manual verification.
pub record IsAcceptable (P : Platform) (s : ReviewState) (b : ReviewBundle) : Type 0 where
  pub valid : check_review_state P s ≡ ok tt
  pub active : s.bundle ≡ some b
  pub pending : s.review.final_acceptance ≡ false
  pub confirmed : s.review.criteria_confirmed ≡ true
  pub sourced : is_some s.review.criteria_source_provenance ≡ true
  pub complete : s.review.ingestion_state ≡ IngestionState.complete
  pub no_warnings : s.review.ingestion_warnings ≡ []
  pub no_skips : s.review.skipped_files ≡ []
  pub passing : s.review.check_state ≡ CheckState.passing
  pub all_files :
      unresolved_changed_file_paths s.review b.findings b.evidence b.file_scope_decisions ≡ some []
  pub decided :
      All (λ c. is_acceptable (resolution_for c.criterion_id b.resolutions) ≡ true) b.criteria

is_empty→≡ : (xs : List String) → is_empty xs ≡ true → xs ≡ []
is_empty→≡ [] h = refl
is_empty→≡ (x ∷ xs) h = cc

complete_of_test : (s : IngestionState) → is_complete s ≡ true → s ≡ IngestionState.complete
complete_of_test s h = ground arith

passing_of_test : (s : CheckState) → is_passing s ≡ true → s ≡ CheckState.passing
passing_of_test s h = ground arith

files_of_test : (o : Option (List String)) → not (has_open_files o) ≡ true → o ≡ some []
files_of_test none h = cc
files_of_test (some []) h = refl
files_of_test (some (x ∷ xs)) h = cc

ten_of :
    (a b c d e f g h i j : Bool)
    → (a && b && c && d && e && f && g && h && i && j) ≡ true
    → (a ≡ true)
      × (b ≡ true)
      × (e ≡ true)
      × (f ≡ true)
      × (g ≡ true)
      × (h ≡ true)
      × (i ≡ true)
      × (j ≡ true)
ten_of a b c d e f g h i j p = ground arith

allowed_if :
    (b : Bool) (m : Result Bool)
    → (if b then m else ok false) ≡ ok true
    → (b ≡ true) × (m ≡ ok true)
allowed_if true m h = (refl, h)
allowed_if false m h = cc

allowed_unless : (b : Bool) (m : Result Bool) → (if b then ok false else m) ≡ ok true → m ≡ ok true
allowed_unless true m h = cc
allowed_unless false m h = h

acceptable_criteria→All :
    (P : Platform) (s : ReviewState) (b : ReviewBundle)
    → Checks P s
    → s.bundle ≡ some b
    → acceptable_criteria s b ≡ ok true
    → All (λ c. is_acceptable (resolution_for c.criterion_id b.resolutions) ≡ true) b.criteria
acceptable_criteria→All P s b q active h =
    all-eq_true→All (acceptable_criterion b.resolutions) b.criteria (
      let decided : (ok b.resolutions >>= λ rs. ok (all (acceptable_criterion rs) b.criteria))
          ≡ ok true =
        subst (λ m. (m >>= λ rs. ok (all (acceptable_criterion rs) b.criteria)) ≡ ok true)
          (Checks-current_resolutions P s b q active) h in
      ground arith)

-- `can_record_final_acceptance` allows it only in such a state.
pub can_record_final_acceptance-IsAcceptable :
    (P : Platform) (s : ReviewState)
    → can_record_final_acceptance P s ≡ ok true
    → (b : ReviewBundle) × IsAcceptable P s b
unfolding can_record_final_acceptance
can_record_final_acceptance-IsAcceptable P s h =
    let (s', valid, h1) =
      >>=-eq_ok (validated_review_state P s) (λ x. can_record_on x x.bundle)
        (allowed_unless (is_empty s.criteria_revision.criteria || has_no_criteria s.bundle) _ h) in
    let (checked, same) = validated_review_state-eq_ok P s s' valid in
    rw same (of_bundle s' checked s'.bundle refl h1)
  where
    of_ready :
        (s' : ReviewState) (b : ReviewBundle)
        → check_review_state P s' ≡ ok tt
        → s'.bundle ≡ some b
        → is_acceptance_ready s' b ≡ true
        → acceptable_criteria s' b ≡ ok true
        → IsAcceptable P s' b
    of_ready s' b checked active ready p =
        let (pending, sourced, confirmed, complete, no_warnings, no_skips, passing, all_files) =
          ten_of (not s'.review.final_acceptance) (is_some s'.review.criteria_source_provenance) _ _
            s'.review.criteria_confirmed (is_complete s'.review.ingestion_state)
            (is_empty s'.review.ingestion_warnings) (is_empty s'.review.skipped_files)
            (is_passing s'.review.check_state) _ ready in
        record {
          valid = checked;
          active = active;
          pending = ground arith;
          confirmed = confirmed;
          sourced = sourced;
          complete = complete_of_test s'.review.ingestion_state complete;
          no_warnings = is_empty→≡ s'.review.ingestion_warnings no_warnings;
          no_skips = is_empty→≡ s'.review.skipped_files no_skips;
          passing = passing_of_test s'.review.check_state passing;
          all_files =
              files_of_test
                (unresolved_changed_file_paths s'.review b.findings b.evidence
                  b.file_scope_decisions)
                all_files;
          decided =
              acceptable_criteria→All P s' b (check_review_state→Checks P s' checked) active p;
        }

    of_bundle :
        (s' : ReviewState)
        → check_review_state P s' ≡ ok tt
        → (o : Option ReviewBundle) → s'.bundle ≡ o
        → can_record_on s' o ≡ ok true
        → (b : ReviewBundle) × IsAcceptable P s' b
    of_bundle s' checked none active p = cc
    of_bundle s' checked (some b) active p =
        let (ready, decides) = allowed_if (is_acceptance_ready s' b) (acceptable_criteria s' b) p in
        (b, of_ready s' b checked active ready decides)

append_resolution-guarded :
    (P : Platform) (s : ReviewState) (e : ResolutionEvent) {t : ReviewState}
    → append_resolution P s e ≡ ok t
    → guard_resolution P s e s.bundle ≡ ok tt
unfolding append_resolution
append_resolution-guarded P s e h =
    let (s', valid, h1) = >>=-eq_ok (validated_review_state P s) _ h in
    let (_, same) = validated_review_state-eq_ok P s s' valid in
    let (_, h2) = >>-eq_ok (validate_event e) _ h1 in
    let (_, h3) = >>-eq_ok (raise_if (any (has_event_id e.event_id) s'.resolution_events) _) _ h2 in
    rw same (>>-eq_ok (guard_resolution P s' e s'.bundle) _ h3).0

guard_final-allowed :
    (P : Platform) (s : ReviewState) (e : ResolutionEvent) (o : Option ReviewBundle)
    → guard_resolution P s e o ≡ ok tt
    → e.final_acceptance ≡ some true
    → can_record_final_acceptance P s ≡ ok true
guard_final-allowed P s e none h flagged = cc
guard_final-allowed P s e (some b) h flagged =
    let (_, h1) = >>-eq_ok (raise_if (decides_manually e.decision) _) _ h in
    let (_, h2) = >>-eq_ok (guard_manual s e.criterion_id) _ h1 in
    let (guarded, _) = >>-eq_ok (guard_final P s e.final_acceptance) _ h2 in
    let (allowed, found, unraised) =
      >>=-eq_ok (can_record_final_acceptance P s) _
        (subst (λ o. guard_final P s o ≡ ok tt) flagged guarded) in
    let yes : allowed ≡ true = ground (arith, raise_if-eq_ok (not allowed) _ unraised) in
    rw (← yes) found

-- A final acceptance is recorded only where `can_record_final_acceptance` allows it, and it sets the
-- flag of the review.
pub append_resolution-final :
    (P : Platform) (s : ReviewState) (e : ResolutionEvent) {t : ReviewState}
    → append_resolution P s e ≡ ok t
    → e.criterion_id ≡ none
    → e.final_acceptance ≡ some true
    → ((b : ReviewBundle) × IsAcceptable P s b) × (t.review.final_acceptance ≡ true)
unfolding flag
append_resolution-final P s e {t} h final flagged = (
  can_record_final_acceptance-IsAcceptable P s
      (guard_final-allowed P s e s.bundle (append_resolution-guarded P s e h) flagged),
  IsAppended-final P s t e (append_resolution-IsAppended P s e h) ∙ set,
)
  where
    set :
        (if is_final_event s.criteria_revision.number (bind_event s e)
          then flag (some (bind_event s e))
          else final_acceptance s.resolution_events s.criteria_revision.number)
        ≡ true
    set = ground (arith, final, flagged)
