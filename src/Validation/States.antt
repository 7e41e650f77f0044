-- ===== src/Validation/States.antt =====
-- `ReviewState.model_validate` of scopeproof_core/schemas/models.py: the validators of the parts,
-- then `validate_active_review_identity`.
use scope_proof.Base.{
  ℕ, String, Bool, false, not, ◌&&◌, ◌||◌, Option, none, some, List, [], ◌∷◌, map, Result, ok, ◌>>◌,
  raise_if, each, any, nodup, filter_map, ltb, leb, ◌==◌, string_eq, nat_eq, bool_eq, option_eq,
  list_eq,
}
use scope_proof.Schema.{
  Platform, Review, ReviewBundle, ReviewState, ResolutionEvent, review_eq, provenance_eq,
  criterion_eq,
}
use scope_proof.Events.{validate_event}
use scope_proof.Records.{validate_review, validate_revision}
use scope_proof.Bundle.{validate_bundle}

unfoldable pub validate_active_bundle : Platform → Option ReviewBundle → Result (Unit {0})
validate_active_bundle P none = ok tt
validate_active_bundle P (some b) = validate_bundle P b

unfoldable pub validate_state_parts : Platform → ReviewState → Result (Unit {0})
validate_state_parts P s = do
  validate_review s.review
  validate_revision P s.criteria_revision
  validate_active_bundle P s.bundle
  each (validate_bundle P) s.analysis_history
  each validate_event s.resolution_events

abbrev pub event_ids : List ResolutionEvent → List String
event_ids = map (λ e. e.event_id)

-- The revision of an event does not exist.
abbrev pub is_stray : ReviewState → ResolutionEvent → Bool
is_stray s e =
    ltb e.criteria_revision_number 1 || ltb s.criteria_revision.number e.criteria_revision_number

-- The conditions on the active bundle, in the order of the source; the check of the confirmation and
-- that of the provenance come between them.
unfoldable pub check_bundle_identity : ReviewState → Option ReviewBundle → Result (Unit {0})
check_bundle_identity s none = ok tt
check_bundle_identity s (some b) = do
  raise_if (not (b.review == s.review)) "active bundle review must match lifecycle review"
  raise_if (not (b.criteria_revision_number == some s.criteria_revision.number))
      "active bundle revision must match the active criteria revision"

unfoldable pub check_bundle_provenance : ReviewState → Option ReviewBundle → Result (Unit {0})
check_bundle_provenance s none = ok tt
check_bundle_provenance s (some b) = do
  raise_if (not (b.review.criteria_source_provenance == s.review.criteria_source_provenance))
      "active criteria source provenance must match lifecycle review and active revision"
  raise_if (not s.criteria_revision.confirmed)
      "active bundle requires a confirmed criteria revision"
  raise_if (not (b.criteria == s.criteria_revision.criteria))
      "active bundle criteria must match the active revision"
  raise_if (not (b.source_text == s.criteria_revision.source_text))
      "active bundle source must match the active revision"

-- The lineage of a historical bundle.
unfoldable pub check_lineage : Review → ReviewBundle → Result (Unit {0})
check_lineage r b =
    raise_if
      (not (
        b.review.review_id == r.review_id
        && b.review.repository == r.repository
        && b.review.pr_number == r.pr_number))
      "historical bundle review lineage must match lifecycle review"

-- `known_historical_revisions`
abbrev pub known_revisions : List ReviewBundle → List ℕ
known_revisions = filter_map (λ b. b.criteria_revision_number)

-- `any(earlier >= later for earlier, later in pairwise(numbers))`
abbrev pub out_of_order : List ℕ → Bool
out_of_order [] = false
out_of_order (n ∷ []) = false
out_of_order (n ∷ m ∷ ns) = leb m n || out_of_order (m ∷ ns)

unfoldable pub validate_active_review_identity : ReviewState → Result (Unit {0})
unfolding check_bundle_identity check_bundle_provenance check_lineage
validate_active_review_identity s = do
  raise_if (not (nodup (event_ids s.resolution_events))) "resolution event IDs must be unique"
  raise_if (any (is_stray s) s.resolution_events)
      "resolution event revisions must reference an existing criteria revision"
  check_bundle_identity s s.bundle
  raise_if (not (s.review.criteria_confirmed == s.criteria_revision.confirmed))
      "criteria confirmation must match the active revision"
  raise_if (not (s.review.criteria_source_provenance == s.criteria_revision.source_provenance))
      "active criteria source provenance must match lifecycle review and active revision"
  check_bundle_provenance s s.bundle
  each (check_lineage s.review) s.analysis_history
  raise_if (any (λ n. leb s.criteria_revision.number n) (known_revisions s.analysis_history))
      "historical bundle revisions must be lower than the active revision"
  raise_if (out_of_order (known_revisions s.analysis_history))
      "known historical bundle revisions must be unique and strictly increasing"

unfoldable pub validate_identity : Platform → ReviewState → Result (Unit {0})
validate_identity P s = do validate_state_parts P s; validate_active_review_identity s
