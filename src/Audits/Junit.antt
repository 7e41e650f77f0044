-- ===== src/Audits/Junit.antt =====
-- withdraw_junit_evidence_import of scopeproof_core/reviews/junit_audit.py and
-- correct_junit_mappings of scopeproof_core/reviews/junit_correction.py. The event's ID and time,
-- which default to a new UUID and the current time, are arguments.
use scope_proof.Validation.Laws.{validated_review_state-eq_ok}
use scope_proof.Base.{
  ◌≡◌, ap, ◌∙◌, arith, ==→≡, >>=-eq_ok, ok-injective, ℕ, String, Bool, false, not, ◌||◌, Option,
  none, some, List, [], ◌∷◌, ◌++◌, Result, ok, err, ◌>>=◌, ◌>>◌, raise_if, contains, find_first,
  is_empty, length, ltb, ◌==◌, string_eq,
}
use scope_proof.Schema.{
  Platform, ReviewBundle, ReviewState, JunitEvidenceImport, JunitImportEvent, JunitAction,
  JunitCriterionMapping,
}
use scope_proof.Records.Imports.{junit_mapping_sha256, validate_import_event}
use scope_proof.Validation.{validated_review_state}
use scope_proof.Audits.Projections.{
  active_junit_import_ids, effective_junit_mappings, junit_mapping_correction_events,
}

-- `JsonReviewStore.state_fingerprint`; `digest` is SHA-256 of the state's JSON.
unfoldable pub state_fingerprint : Platform → (ReviewState → String) → ReviewState → Result String
state_fingerprint P digest state = do s ← validated_review_state P state; ok (digest s)

-- A request that names the fingerprint knew the state.
pub fresh_request :
    (P : Platform) (digest : ReviewState → String) (s : ReviewState) (expected : String)
    {current : String}
    → state_fingerprint P digest s ≡ ok current
    → not (current == expected) ≡ false
    → digest s ≡ expected
unfolding state_fingerprint
fresh_request P digest s expected {current} h k =
    let (s', valid, r) = >>=-eq_ok (validated_review_state P s) _ h in
    let (_, same) = validated_review_state-eq_ok P s s' valid in
    let known : digest s' ≡ current = ok-injective _ _ r in
    ap digest same ∙ (known ∙ ==→≡ current expected (ground arith))

-- The last event's ID, of those that are given.
unfoldable pub last_event_id : List JunitImportEvent → Option String
last_event_id [] = none
last_event_id (e ∷ []) = some e.event_id
last_event_id (e ∷ f ∷ es) = last_event_id (f ∷ es)

-- What the caller of both operations gives.
pub record Request : Type 0 where
  pub import_id : String
  pub reviewer : String
  pub reason : String
  pub expected_state_fingerprint : String
  pub event_id : String
  pub occurred_at : ℕ

abbrev pub event_on : ReviewState → JunitEvidenceImport → Request → JunitAction → JunitImportEvent
event_on s target q action = record {
  action = action;
  event_id = q.event_id;
  import_id = target.import_id;
  artifact_sha256 = target.artifact_sha256;
  review_id = s.review.review_id;
  repository = target.repository;
  pr_number = target.pr_number;
  head_sha = target.head_sha;
  criteria_revision_number = target.criteria_revision_number;
  confirmed_criteria_sha256 = target.confirmed_criteria_sha256;
  criteria_source_provenance = target.criteria_source_provenance;
  reviewer = q.reviewer;
  reason = q.reason;
  occurred_at = q.occurred_at;
}

-- `updated.bundle.junit_import_events.append(event)`
abbrev pub with_import_event : JunitImportEvent → ReviewBundle → ReviewBundle
with_import_event e b = record b { junit_import_events = b.junit_import_events ++ (e ∷ []) }

-- The last test of both operations, `_without_audit(updated) != _without_audit(state)`, compares all
-- that the new state takes from the old; it does not raise, and is left out.
abbrev pub record_import_event :
    Platform → ReviewState → ReviewBundle → JunitImportEvent → Result ReviewState
record_import_event P s b e = do
  validate_import_event e
  validated_review_state P (record s { bundle = some (with_import_event e b) })

abbrev pub withdraw_target :
    Platform
    → ReviewState
    → Request
    → ReviewBundle
    → Option JunitEvidenceImport
    → Result ReviewState
withdraw_target P s q b none = err "JUnit withdrawal target must be an active retained import"
withdraw_target P s q b (some target) = do
  raise_if (not (contains (active_junit_import_ids b) q.import_id))
      "JUnit withdrawal target must be an active retained import"
  record_import_event P s b (event_on s target q JunitAction.withdrawn)

abbrev pub withdraw_on : Platform → ReviewState → Request → Option ReviewBundle → Result ReviewState
withdraw_on P s q none = err "JUnit withdrawal requires a confirmed active analysis"
withdraw_on P s q (some b) = do
  raise_if (not s.criteria_revision.confirmed)
      "JUnit withdrawal requires a confirmed active analysis"
  withdraw_target P s q b (find_first (λ i. i.import_id == q.import_id) b.junit_evidence_imports)

unfoldable pub withdraw_junit_evidence_import :
    Platform → (ReviewState → String) → ReviewState → Request → Result ReviewState
unfolding state_fingerprint active_junit_import_ids
withdraw_junit_evidence_import P digest state q = do
  s ← validated_review_state P state
  current ← state_fingerprint P digest s
  raise_if (not (current == q.expected_state_fingerprint))
      "JUnit withdrawal request is stale; reopen the saved review"
  withdraw_on P s q s.bundle

-- `_validated_target`, of a state with the bundle.
unfoldable pub validated_target : ReviewState → ReviewBundle → String → Result JunitEvidenceImport
unfolding active_junit_import_ids
validated_target s b import_id = do
  raise_if (not s.criteria_revision.confirmed)
      "JUnit correction requires a confirmed active analysis"
  raise_if (not (contains (active_junit_import_ids b) import_id))
      "JUnit correction target must be an active retained import"
  elim (find_first (λ i. i.import_id == import_id) b.junit_evidence_imports) [
    | none ↦ err "StopIteration"
    | some target ↦ ok target
  ]

-- `JUnitMappingCorrectionEvent(**data)` takes at least one mapping and 5,000 at most.
abbrev pub correct_on :
    Platform
    → ReviewState
    → Request
    → List JunitCriterionMapping
    → Option ReviewBundle
    → Result ReviewState
correct_on P s q mappings none = err "JUnit correction requires a confirmed active analysis"
correct_on P s q mappings (some b) = do
  target ← validated_target s b q.import_id
  previous ← effective_junit_mappings b q.import_id
  events ← junit_mapping_correction_events b q.import_id
  previous_digest ← junit_mapping_sha256 P previous
  raise_if (is_empty mappings || ltb 5000 (length mappings)) "1 to 5000 items are allowed"
  record_import_event P s b (
      event_on s target q
        (JunitAction.mapping_corrected previous_digest (last_event_id events) mappings))

unfoldable pub correct_junit_mappings :
    Platform
    → (ReviewState → String)
    → ReviewState
    → Request
    → List JunitCriterionMapping
    → (confirm_whole_import : Bool) → Result ReviewState
unfolding state_fingerprint validated_target last_event_id effective_junit_mappings
    junit_mapping_correction_events junit_mapping_sha256
correct_junit_mappings P digest state q mappings confirm_whole_import = do
  raise_if (not confirm_whole_import) "explicit whole-import confirmation is required"
  s ← validated_review_state P state
  current ← state_fingerprint P digest s
  raise_if (not (current == q.expected_state_fingerprint))
      "JUnit correction request is stale; reopen the saved review"
  correct_on P s q mappings s.bundle
