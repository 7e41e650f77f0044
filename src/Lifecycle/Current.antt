-- ===== src/Lifecycle/Current.antt =====
-- What a recorded event of scopeproof_core/reviews/lifecycle.py changes: the resolutions and the flag.
use scope_proof.Base.{
  ◌≡◌, ◌∙◌, subst, ℕ, String, some, [], ◌∷◌, ◌++◌, ok, nat_eq, string_eq, option_eq, if◌then◌else◌,
}
use scope_proof.Schema.{Platform, ReviewBundle, ReviewState, ResolutionEvent, provenance_eq}
use scope_proof.Events.{current_resolutions, final_acceptance, is_final_event, flag}
use scope_proof.Events.Laws.{
  StandsFor, resolution_for, decides, latest_event, current_resolutions-latest, latest_event-append,
  final_acceptance-append,
}
use scope_proof.Validation.Active.{check_review_state→Checks, Checks-current_resolutions}
use scope_proof.Lifecycle.Decisions.{bind_event}
use scope_proof.Lifecycle.Appending.{IsAppended}

-- In a state with a new event, the resolution of a criterion is the one that the new event stands
-- for, if it decides the criterion, and otherwise the one of the latest event before it.
pub IsAppended-current :
    (P : Platform) (s t : ReviewState) (e : ResolutionEvent) (b : ReviewBundle) (c : String)
    → IsAppended P s e t
    → t.bundle ≡ some b
    → StandsFor
        (if decides s.criteria_revision.number c (bind_event s e)
          then some (bind_event s e)
          else latest_event s.criteria_revision.number c s.resolution_events)
        (resolution_for c b.resolutions)
IsAppended-current P s t e b c q active =
    let n : ℕ = s.criteria_revision.number in
    let current : current_resolutions (s.resolution_events ++ bind_event s e ∷ []) (some n)
        ≡ ok b.resolutions =
      subst (λ (es, m). current_resolutions es (some m) ≡ ok b.resolutions)
        (λ i. (q.events i, (q.revision i).number))
        (Checks-current_resolutions P t b (check_review_state→Checks P t q.valid) active) in
    subst (λ o. StandsFor o (resolution_for c b.resolutions))
      (latest_event-append s.resolution_events (bind_event s e) n c)
      (current_resolutions-latest (s.resolution_events ++ bind_event s e ∷ []) n c current)

pub IsAppended-final :
    (P : Platform) (s t : ReviewState) (e : ResolutionEvent)
    → IsAppended P s e t
    → t.review.final_acceptance ≡ (
        if is_final_event s.criteria_revision.number (bind_event s e)
        then flag (some (bind_event s e))
        else final_acceptance s.resolution_events s.criteria_revision.number)
IsAppended-final P s t e q =
    (check_review_state→Checks P t q.valid).final
    ∙ (λ i. final_acceptance (q.events i) (q.revision i).number)
    ∙ final_acceptance-append s.resolution_events (bind_event s e) s.criteria_revision.number
