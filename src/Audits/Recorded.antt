-- ===== src/Audits/Recorded.antt =====
-- An accepted withdrawal or correction of a JUnit import adds one event to the state and changes
-- nothing else: scopeproof_core/reviews/junit_audit.py and junit_correction.py.
use mathlib.Core.Option.{some-injective}
use scope_proof.Base.{
  ◌≡◌, refl, sym, ap, ◌∙◌, subst, arith, String, Bool, true, false, not, ◌||◌, Option, none, some,
  List, [], ◌∷◌, ok, err, contains, find_first, is_some, is_empty, ltb, length, ◌==◌, string_eq,
  lookup, raise_if, >>=-eq_ok, >>-eq_ok, raise_if-eq_ok, ok-injective, if◌then◌else◌, Bool-cases,
  inl, inr, ==→≡,
}
use scope_proof.Schema.{
  Platform, ReviewBundle, ReviewState, JunitEvidenceImport, JunitImportEvent, JunitAction,
  JunitCriterionMapping,
}
use scope_proof.Records.Imports.{junit_mapping_sha256, validate_import_event}
use scope_proof.Validation.{validated_review_state}
use scope_proof.Validation.Laws.{validated_review_state-eq_ok}
use scope_proof.Lifecycle.Extending.{IsExtended}
use scope_proof.Audits.Projections.{
  active_junit_import_ids, effective_junit_mappings, all_effective_mappings,
  junit_mapping_correction_events,
}
use scope_proof.Audits.Junit.{
  fresh_request, record_import_event, Request, state_fingerprint, event_on, with_import_event,
  withdraw_junit_evidence_import, withdraw_on, withdraw_target, correct_junit_mappings, correct_on,
  validated_target, last_event_id,
}

pub find_first-named :
    (i : String) (imports : List JunitEvidenceImport) {target : JunitEvidenceImport}
    → find_first (λ x. x.import_id == i) imports ≡ some target
    → target.import_id ≡ i
find_first-named i [] h = cc
find_first-named i (x ∷ xs) {target} h = elim (Bool-cases (x.import_id == i)) [
  | inl p ↦
      let same : x ≡ target = some-injective x target (
        subst (λ b. (if b then some x else find_first (λ y. y.import_id == i) xs) ≡ some target) p
          h) in
      ap (λ y. y.import_id) (sym same) ∙ ==→≡ x.import_id i p
  | inr p ↦
      find_first-named i xs {target = target} (
        subst (λ b. (if b then some x else find_first (λ y. y.import_id == i) xs) ≡ some target) p
          h)
]

pub not-false : (b : Bool) → not b ≡ false → b ≡ true
not-false b h = ground arith

-- The state with one more event on an import that was active, by a request that knew the state.
pub record IsRecorded (P : Platform) (digest : ReviewState → String) (q : Request)
    (action : JunitAction) (s t : ReviewState) : Type 0 where
  pub event : JunitImportEvent
  pub extends : IsExtended P (with_import_event event) s t
  pub of_action : event.action ≡ action
  pub of_import : event.import_id ≡ q.import_id
  pub was_active : contains (active_junit_import_ids extends.before) q.import_id ≡ true
  pub not_stale : digest s ≡ q.expected_state_fingerprint

-- The last steps of both operations: the event is checked and recorded.
pub recorded :
    (P : Platform) (digest : ReviewState → String) (q : Request) (action : JunitAction)
    (s : ReviewState) (b : ReviewBundle) (target : JunitEvidenceImport) {t : ReviewState}
    → digest s ≡ q.expected_state_fingerprint
    → s.bundle ≡ some b
    → target.import_id ≡ q.import_id
    → contains (active_junit_import_ids b) q.import_id ≡ true
    → record_import_event P s b (event_on s target q action) ≡ ok t
    → IsRecorded P digest q action s t
recorded P digest q action s b target known active same listed h =
    let event = event_on s target q action in
    let (_, stored) = >>-eq_ok (validate_import_event event) _ h in
    let (checked, result) =
      validated_review_state-eq_ok P (record s { bundle = some (with_import_event event b) }) _
        stored in
    record {
      event = event;
      extends = record { valid = checked; before = b; active = active; result = sym result };
      of_action = refl;
      of_import = same;
      was_active = listed;
      not_stale = known;
    }

-- A withdrawal adds one event to the state, on an import that was active, and nothing else.
pub withdraw-IsRecorded :
    (P : Platform) (digest : ReviewState → String) (s : ReviewState) (q : Request) {t : ReviewState}
    → withdraw_junit_evidence_import P digest s q ≡ ok t
    → IsRecorded P digest q JunitAction.withdrawn s t
unfolding withdraw_junit_evidence_import
withdraw-IsRecorded P digest s q {t} h =
    let (s', valid, h1) = >>=-eq_ok (validated_review_state P s) _ h in
    let (_, same) = validated_review_state-eq_ok P s s' valid in
    let (current, read, h2) = >>=-eq_ok (state_fingerprint P digest s') _ h1 in
    let (guard, h3) = >>-eq_ok (raise_if (not (current == q.expected_state_fingerprint)) _) _ h2 in
    let known =
      fresh_request P digest s' q.expected_state_fingerprint read (raise_if-eq_ok _ _ guard) in
    rw same (of_bundle s' s'.bundle refl known h3)
  where
    of_target :
        (s' : ReviewState) (b : ReviewBundle) (o : Option JunitEvidenceImport)
        → find_first (λ i. i.import_id == q.import_id) b.junit_evidence_imports ≡ o
        → s'.bundle ≡ some b
        → digest s' ≡ q.expected_state_fingerprint
        → withdraw_target P s' q b o ≡ ok t
        → IsRecorded P digest q JunitAction.withdrawn s' t
    of_target s' b none found active known p = cc
    of_target s' b (some target) found active known p =
        let (listed, p1) =
          >>-eq_ok (raise_if (not (contains (active_junit_import_ids b) q.import_id)) _) _ p in
        recorded P digest q JunitAction.withdrawn s' b target known active
          (find_first-named q.import_id b.junit_evidence_imports found)
          (not-false _ (raise_if-eq_ok _ _ listed)) p1

    of_bundle :
        (s' : ReviewState) (o : Option ReviewBundle)
        → s'.bundle ≡ o
        → digest s' ≡ q.expected_state_fingerprint
        → withdraw_on P s' q o ≡ ok t
        → IsRecorded P digest q JunitAction.withdrawn s' t
    of_bundle s' none active known p = cc
    of_bundle s' (some b) active known p =
        let (_, p1) = >>-eq_ok (raise_if (not s'.criteria_revision.confirmed) _) _ p in
        of_target s' b _ refl active known p1

-- The guard of a correction finds the import of the request, which is active.
pub validated_target-eq_ok :
    (s : ReviewState) (b : ReviewBundle) (i : String) {target : JunitEvidenceImport}
    → validated_target s b i ≡ ok target
    → (target.import_id ≡ i) × (contains (active_junit_import_ids b) i ≡ true)
unfolding validated_target
validated_target-eq_ok s b i {target} h =
    let (_, h1) = >>-eq_ok (raise_if (not s.criteria_revision.confirmed) _) _ h in
    let (listed, h2) = >>-eq_ok (raise_if (not (contains (active_junit_import_ids b) i)) _) _ h1 in
    (of_found _ refl h2, not-false _ (raise_if-eq_ok _ _ listed))
  where
    of_found :
        (o : Option JunitEvidenceImport)
        → find_first (λ x. x.import_id == i) b.junit_evidence_imports ≡ o
        → elim o [ none ↦ err "StopIteration" | some x ↦ ok x ] ≡ ok target
        → target.import_id ≡ i
    of_found none found p = cc
    of_found (some x) found p =
        ap (λ y. y.import_id) (sym (ok-injective _ _ p))
        ∙ find_first-named i b.junit_evidence_imports found

-- The import of an accepted correction has mappings in effect.
pub effective_junit_mappings-eq_ok :
    (b : ReviewBundle) (i : String) {mappings : List JunitCriterionMapping}
    → effective_junit_mappings b i ≡ ok mappings
    → lookup i (all_effective_mappings b) ≡ some mappings
unfolding effective_junit_mappings
effective_junit_mappings-eq_ok b i {mappings} h =
    of_found (lookup i (all_effective_mappings b)) refl h
  where
    of_found :
        (o : Option (List JunitCriterionMapping))
        → lookup i (all_effective_mappings b) ≡ o
        → elim o [ none ↦ err "unknown retained JUnit import" | some m ↦ ok m ] ≡ ok mappings
        → lookup i (all_effective_mappings b) ≡ some mappings
    of_found none found p = cc
    of_found (some m) found p = found ∙ ap some (ok-injective _ _ p)

-- A correction by the mappings is recorded, of those that were in effect.
abbrev pub IsCorrected :
    (P : Platform) (digest : ReviewState → String) (q : Request)
    (mappings : List JunitCriterionMapping) (s t : ReviewState)
    → Type 0
IsCorrected P digest q mappings s t =
    (previous_digest : String) × (chain : Option String) × (r : IsRecorded P digest q
      (JunitAction.mapping_corrected previous_digest chain mappings) s t)
    × (is_some (lookup q.import_id (all_effective_mappings r.extends.before)) ≡ true)

-- A correction adds one event with the mappings to the state, on an import that was active, and
-- nothing else.
pub correct-IsRecorded :
    (P : Platform) (digest : ReviewState → String) (s : ReviewState) (q : Request)
    (mappings : List JunitCriterionMapping) (confirm : Bool) {t : ReviewState}
    → correct_junit_mappings P digest s q mappings confirm ≡ ok t
    → IsCorrected P digest q mappings s t
unfolding correct_junit_mappings
correct-IsRecorded P digest s q mappings confirm {t} h =
    let (_, h0) = >>-eq_ok (raise_if (not confirm) _) _ h in
    let (s', valid, h1) = >>=-eq_ok (validated_review_state P s) _ h0 in
    let (_, same) = validated_review_state-eq_ok P s s' valid in
    let (current, read, h2) = >>=-eq_ok (state_fingerprint P digest s') _ h1 in
    let (guard, h3) = >>-eq_ok (raise_if (not (current == q.expected_state_fingerprint)) _) _ h2 in
    let known =
      fresh_request P digest s' q.expected_state_fingerprint read (raise_if-eq_ok _ _ guard) in
    rw same (of_bundle s' s'.bundle refl known h3)
  where
    of_bundle :
        (s' : ReviewState) (o : Option ReviewBundle)
        → s'.bundle ≡ o
        → digest s' ≡ q.expected_state_fingerprint
        → correct_on P s' q mappings o ≡ ok t
        → IsCorrected P digest q mappings s' t
    of_bundle s' none active known p = cc
    of_bundle s' (some b) active known p =
        let (target, found, p1) = >>=-eq_ok (validated_target s' b q.import_id) _ p in
        let (previous, effective, p2) = >>=-eq_ok (effective_junit_mappings b q.import_id) _ p1 in
        let (events, _, p3) = >>=-eq_ok (junit_mapping_correction_events b q.import_id) _ p2 in
        let (previous_digest, _, p4) = >>=-eq_ok (junit_mapping_sha256 P previous) _ p3 in
        let (_, p5) =
          >>-eq_ok (raise_if (is_empty mappings || ltb 5000 (length mappings)) _) _ p4 in
        let (same, listed) = validated_target-eq_ok s' b q.import_id found in
        let action =
          JunitAction.mapping_corrected previous_digest (last_event_id events) mappings in
        let r = recorded P digest q action s' b target known active same listed p5 in
        let own : r.extends.before ≡ b = some-injective _ _ (sym r.extends.active ∙ active) in
        (
          previous_digest,
          last_event_id events,
          r,
          ap (λ x. is_some (lookup q.import_id (all_effective_mappings x))) own
              ∙ ap is_some (effective_junit_mappings-eq_ok b q.import_id effective),
        )
