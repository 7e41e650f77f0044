-- ===== src/Lifecycle/Revisions.antt =====
-- The operations of scopeproof_core/reviews/lifecycle.py that change the criteria revision or the
-- analysis that belongs to it.
use scope_proof.Base.{
  ℕ, String, Bool, true, false, not, ◌&&◌, ◌||◌, Option, none, some, List, [], ◌++◌, Result, ok,
  err, ◌>>=◌, ◌>>◌, raise_if, is_empty, is_some, ltb, ◌==◌, ◌+◌, list_eq, option_eq, string_eq,
}
use scope_proof.Schema.{
  Platform, Review, ReviewBundle, ReviewState, Criterion, CriteriaRevision,
  CriteriaSourceProvenance, provenance_eq, criterion_eq, review_eq,
}
use scope_proof.Records.{validate_revision}
use scope_proof.Bundle.{validate_bundle}
use scope_proof.Validation.{validated_review_bundle, validated_review_state}
use scope_proof.Validation.States.{validate_active_review_identity}
use scope_proof.Validation.Histories.{bundle_list}

-- The records that only people add must be absent from a new analysis.
unfoldable pub require_bare_analysis : ReviewBundle → Result (Unit {0})
require_bare_analysis b = do
  raise_if (is_empty b.criteria) "analysis requires at least one criterion"
  raise_if (not (is_empty b.resolutions)) "analysis must not contain human resolutions"
  raise_if b.review.final_acceptance "analysis must not contain final acceptance"
  raise_if (not (is_empty b.junit_evidence_imports) || not (is_empty b.junit_import_events))
      "analysis must not contain JUnit imports"

-- The revision that a first analysis brings.
abbrev pub first_revision : ℕ → ReviewBundle → CriteriaSourceProvenance → CriteriaRevision
first_revision now b p = record {
  number = 1;
  criteria = b.criteria;
  source_text = b.source_text;
  confirmed = b.review.criteria_confirmed;
  created_at = now;
  confirmed_at = some p.confirmed_at;
  source_provenance = some p;
}

abbrev pub first_state : ℕ → ReviewBundle → CriteriaSourceProvenance → ReviewState
first_state now b p = record {
  review = b.review;
  criteria_revision = first_revision now b p;
  bundle = some (record b { criteria_revision_number = some 1 });
  analysis_history = [];
  resolution_events = [];
}

abbrev start_review :
    Platform → ℕ → ReviewBundle → Option CriteriaSourceProvenance → Result ReviewState
start_review P now b none = err "initial analysis bundle requires criteria source provenance"
start_review P now b (some p) = do
  validate_revision P (first_revision now b p)
  validate_active_review_identity (first_state now b p)
  ok (first_state now b p)

unfoldable pub new_review_state : Platform → ℕ → ReviewBundle → Result ReviewState
unfolding require_bare_analysis
new_review_state P now bundle = do
  validate_bundle P bundle
  require_bare_analysis bundle
  b ← validated_review_bundle P bundle
  start_review P now b b.review.criteria_source_provenance

-- The unconfirmed revision that follows the active one.
abbrev pub next_revision : ℕ → ReviewState → List Criterion → String → CriteriaRevision
next_revision now s criteria source_text = record {
  number = s.criteria_revision.number + 1;
  criteria = criteria;
  source_text = source_text;
  confirmed = false;
  created_at = now;
  confirmed_at = none;
  source_provenance = none;
}

abbrev pub unconfirmed : Review → Review
unconfirmed r = record r {
  criteria_confirmed = false;
  criteria_source_provenance = none;
  final_acceptance = false;
}

-- The state after a revision: the active analysis joins the history.
abbrev pub revised_state : ℕ → ReviewState → List Criterion → String → ReviewState
revised_state now s criteria source_text = record s {
  review = unconfirmed s.review;
  criteria_revision = next_revision now s criteria source_text;
  bundle = none;
  analysis_history = s.analysis_history ++ bundle_list s.bundle;
}

unfoldable pub revise_criteria :
    Platform → ℕ → ReviewState → List Criterion → String → Result ReviewState
revise_criteria P now state criteria source_text = do
  s ← validated_review_state P state
  raise_if (is_empty criteria) "criteria revision requires at least one criterion"
  validate_revision P (next_revision now s criteria source_text)
  ok (revised_state now s criteria source_text)

abbrev pub confirmed_revision : CriteriaRevision → CriteriaSourceProvenance → CriteriaRevision
confirmed_revision r p = record r {
  confirmed = true;
  confirmed_at = some p.confirmed_at;
  source_provenance = some p;
}

abbrev pub confirmed_review : Review → CriteriaSourceProvenance → Review
confirmed_review r p = record r {
  criteria_confirmed = true;
  criteria_source_provenance = some p;
  final_acceptance = false;
}

unfoldable pub confirm_criteria :
    Platform → ReviewState → CriteriaSourceProvenance → Result ReviewState
confirm_criteria P state provenance = do
  s ← validated_review_state P state
  raise_if (is_empty s.criteria_revision.criteria)
      "criteria confirmation requires at least one criterion"
  raise_if (is_some s.bundle)
      "criteria confirmation requires a pending revision without an active bundle"
  raise_if (ltb provenance.confirmed_at s.criteria_revision.created_at)
      "criteria source confirmation predates the active revision"
  validate_revision P (confirmed_revision s.criteria_revision provenance)
  validated_review_state P (record s {
    criteria_revision = confirmed_revision s.criteria_revision provenance;
    review = confirmed_review s.review provenance;
  })

-- The provenance of the revision, of the analysis and of the review agree.
abbrev pub same_provenance : ReviewState → ReviewBundle → Bool
same_provenance s b =
    is_some s.criteria_revision.source_provenance
    && b.review.criteria_source_provenance == s.criteria_revision.source_provenance
    && s.review.criteria_source_provenance == s.criteria_revision.source_provenance

-- The analysis's review, under the identity of the lifecycle's.
abbrev pub rebound_review : ReviewState → ReviewBundle → Review
rebound_review s b = record b.review {
  review_id = s.review.review_id;
  created_at = s.review.created_at;
}

-- The lifecycle's review, with the analysis's producer metadata.
abbrev pub active_review : ReviewState → ReviewBundle → Review
active_review s b = record s.review {
  tool_version = b.review.tool_version;
  ruleset_version = b.review.ruleset_version;
  analysis_source_identity = b.review.analysis_source_identity;
}

unfoldable pub attach_analysis : Platform → ReviewState → ReviewBundle → Result ReviewState
unfolding require_bare_analysis
attach_analysis P state bundle = do
  s ← validated_review_state P state
  raise_if (is_empty s.criteria_revision.criteria)
      "analysis attachment requires at least one criterion"
  raise_if (is_some s.bundle)
      "analysis attachment requires a pending revision without an active bundle"
  raise_if (not s.criteria_revision.confirmed)
      "analysis attachment requires a confirmed criteria revision"
  validate_bundle P bundle
  require_bare_analysis bundle
  b ← validated_review_bundle P bundle
  raise_if (not (same_provenance s b))
      "attached analysis criteria source provenance must match the active revision"
  raise_if (not (b.criteria == s.criteria_revision.criteria))
      "attached analysis criteria must match the active revision"
  raise_if (not (b.source_text == s.criteria_revision.source_text))
      "attached analysis source must match the active revision"
  raise_if (not (rebound_review s b == active_review s b))
      "attached analysis review must match the lifecycle review"
  validated_review_state P (record s {
    review = active_review s b;
    bundle = some (record b {
      criteria_revision_number = some s.criteria_revision.number;
      review = active_review s b;
    });
  })
