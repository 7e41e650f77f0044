-- ===== src/Lifecycle/Extending.antt =====
-- What the operations of scopeproof_core/reviews/lifecycle.py that add context return: the state
-- with one record more in the active analysis, which passes every check.
use scope_proof.Base.{
  ◌≡◌, refl, sym, Option, none, some, [], ◌∷◌, ◌++◌, ok, raise_if, >>=-eq_ok, >>-eq_ok,
  raise_if-eq_ok, arith, string_eq, nat_eq, option_eq, length, leb, ◌<◌,
}
use scope_proof.Schema.{
  Platform, ReviewBundle, ReviewState, RuntimeEvidence, FileScopeDecision, JunitEvidenceImport,
  provenance_eq,
}
use scope_proof.Records.{validate_runtime_evidence}
use scope_proof.Validation.{check_review_state, validated_review_state}
use scope_proof.Validation.Laws.{validated_review_state-eq_ok}
use scope_proof.Lifecycle.Decisions.{with_gate}
use scope_proof.Lifecycle.Context.{
  append_runtime_evidence, runtime_on, guard_runtime, guard_scope, guard_import,
  append_file_scope_decision, scope_on, append_junit_evidence_import, import_on,
}

-- `t` is `s` with `extend` done to its active analysis, and passes every check.
pub record IsExtended (P : Platform) (extend : ReviewBundle → ReviewBundle) (s t : ReviewState)
    : Type 0 where
  pub valid : check_review_state P t ≡ ok tt
  pub before : ReviewBundle
  pub active : s.bundle ≡ some before
  pub result : t ≡ record s { bundle = some (extend before) }

abbrev pub add_runtime : RuntimeEvidence → ReviewBundle → ReviewBundle
add_runtime e b = record b { runtime_evidence = b.runtime_evidence ++ e ∷ [] }

abbrev pub add_import : JunitEvidenceImport → ReviewBundle → ReviewBundle
add_import i b = record b { junit_evidence_imports = b.junit_evidence_imports ++ i ∷ [] }

abbrev pub add_decision : Platform → FileScopeDecision → ReviewBundle → ReviewBundle
add_decision P d b =
    with_gate P (record b { file_scope_decisions = b.file_scope_decisions ++ d ∷ [] })

extended :
    (P : Platform) (extend : ReviewBundle → ReviewBundle) (s : ReviewState) (b : ReviewBundle)
    {t : ReviewState}
    → s.bundle ≡ some b
    → validated_review_state P (record s { bundle = some (extend b) }) ≡ ok t
    → IsExtended P extend s t
extended P extend s b {t} active h =
    let (checked, same) =
      validated_review_state-eq_ok P (record s { bundle = some (extend b) }) t h in
    record { valid = checked; before = b; active = active; result = sym same }

pub append_runtime_evidence-IsExtended :
    (P : Platform) (s : ReviewState) (e : RuntimeEvidence) {t : ReviewState}
    → append_runtime_evidence P s e ≡ ok t
    → IsExtended P (add_runtime e) s t
unfolding append_runtime_evidence
append_runtime_evidence-IsExtended P s e {t} h =
    let (s', valid, h1) = >>=-eq_ok (validated_review_state P s) _ h in
    let (_, same) = validated_review_state-eq_ok P s s' valid in
    let (_, h2) = >>-eq_ok (validate_runtime_evidence e) _ h1 in
    rw same (of_bundle s' s'.bundle refl h2)
  where
    of_bundle :
        (s' : ReviewState) (o : Option ReviewBundle)
        → s'.bundle ≡ o
        → runtime_on P s' e o ≡ ok t
        → IsExtended P (add_runtime e) s' t
    of_bundle s' none active p = cc
    of_bundle s' (some b) active p =
        extended P (add_runtime e) s' b active (>>-eq_ok (guard_runtime s' e b) _ p).1

pub append_file_scope_decision-IsExtended :
    (P : Platform) (s : ReviewState) (d : FileScopeDecision) {t : ReviewState}
    → append_file_scope_decision P s d ≡ ok t
    → IsExtended P (add_decision P d) s t
unfolding append_file_scope_decision
append_file_scope_decision-IsExtended P s d {t} h =
    let (s', valid, h1) = >>=-eq_ok (validated_review_state P s) _ h in
    let (_, same) = validated_review_state-eq_ok P s s' valid in
    rw same (of_bundle s' s'.bundle refl h1)
  where
    of_bundle :
        (s' : ReviewState) (o : Option ReviewBundle)
        → s'.bundle ≡ o
        → scope_on P s' d o ≡ ok t
        → IsExtended P (add_decision P d) s' t
    of_bundle s' none active p = cc
    of_bundle s' (some b) active p =
        extended P (add_decision P d) s' b active (>>-eq_ok (guard_scope s' d b) _ p).1

guard_import-new :
    (P : Platform) (s : ReviewState) (i : JunitEvidenceImport) (b : ReviewBundle)
    → guard_import P s i b ≡ ok tt
    → length b.junit_evidence_imports < 20
guard_import-new P s i b h =
    let (few, _) = >>-eq_ok (raise_if (leb 20 (length b.junit_evidence_imports)) _) _ h in
    ground (arith, raise_if-eq_ok (leb 20 (length b.junit_evidence_imports)) _ few)

-- An appended JUnit import adds itself to the active analysis, which had fewer than 20 of them, and
-- changes nothing else: no finding, resolution, runtime evidence, event, acceptance or gate.
pub append_junit_evidence_import-IsExtended :
    (P : Platform) (s : ReviewState) (i : JunitEvidenceImport) {t : ReviewState}
    → append_junit_evidence_import P s i ≡ ok t
    → IsExtended P (add_import i) s t
      × (b : ReviewBundle) × (s.bundle ≡ some b)
      × (length b.junit_evidence_imports < 20)
unfolding append_junit_evidence_import
append_junit_evidence_import-IsExtended P s i {t} h =
    let (s', valid, h1) = >>=-eq_ok (validated_review_state P s) _ h in
    let (_, same) = validated_review_state-eq_ok P s s' valid in
    rw same (of_bundle s' s'.bundle refl h1)
  where
    of_bundle :
        (s' : ReviewState) (o : Option ReviewBundle)
        → s'.bundle ≡ o
        → import_on P s' i o ≡ ok t
        → IsExtended P (add_import i) s' t
          × (b : ReviewBundle) × (s'.bundle ≡ some b)
          × (length b.junit_evidence_imports < 20)
    of_bundle s' none active p = cc
    of_bundle s' (some b) active p =
        let (guarded, p1) = >>-eq_ok (guard_import P s' i b) _ p in
        (extended P (add_import i) s' b active p1, b, active, guard_import-new P s' i b guarded)
