-- ===== src/Audits/Outcomes.antt =====
-- What a withdrawal and a correction of a JUnit import return.
use mathlib.Core.Option.{some-injective}
use mathlib.Core.Bool.{true≢false}
use scope_proof.Base.{
  ◌≡◌, refl, sym, ap, ◌∙◌, arith, String, Bool, true, false, not, some, List, [], ◌∷◌, ok, filter,
  contains, ◌==◌, string_eq, lookup, if◌then◌else◌,
}
use scope_proof.Schema.{Platform, ReviewBundle, ReviewState, JunitAction, JunitCriterionMapping}
use scope_proof.Validation.{check_review_state}
use scope_proof.Audits.Projections.{active_junit_import_ids, all_effective_mappings}
use scope_proof.Audits.Junit.{
  Request, with_import_event, withdraw_junit_evidence_import, correct_junit_mappings,
}
use scope_proof.Audits.Effective.{
  active-withdrawn, active-corrected, effective-with_import_event, apply_event-withdrawn,
  apply_event-corrected,
}
use scope_proof.Audits.Recorded.{IsRecorded, withdraw-IsRecorded, correct-IsRecorded}

-- What an accepted withdrawal does: the import is active no more, every other one is what it was,
-- and the mappings in effect stay.
pub withdraw-active :
    (P : Platform) (digest : ReviewState → String) (s : ReviewState) (q : Request) {t : ReviewState}
    → withdraw_junit_evidence_import P digest s q ≡ ok t
    → (before after : ReviewBundle) × (s.bundle ≡ some before)
      × (t.bundle ≡ some after)
      × (check_review_state P t ≡ ok tt)
      × (contains (active_junit_import_ids before) q.import_id ≡ true)
      × (active_junit_import_ids after
          ≡ filter (λ i. not (i == q.import_id)) (active_junit_import_ids before))
      × (all_effective_mappings after ≡ all_effective_mappings before)
withdraw-active P digest s q h =
    let r = withdraw-IsRecorded P digest s q h in
    let e = r.event in
    let b = r.extends.before in
    (
      b,
      with_import_event e b,
      r.extends.active,
      ap (λ x. x.bundle) r.extends.result,
      r.extends.valid,
      r.was_active,
      active-withdrawn e q.import_id b r.of_action r.of_import,
      effective-with_import_event e b
          ∙ apply_event-withdrawn e (all_effective_mappings b) r.of_action,
    )

-- What an accepted correction does: the mappings in effect of the import are the given ones, those
-- of the others stay, and so do the active imports.
pub correct-effective :
    (P : Platform) (digest : ReviewState → String) (s : ReviewState) (q : Request)
    (mappings : List JunitCriterionMapping) (confirm : Bool) {t : ReviewState}
    → correct_junit_mappings P digest s q mappings confirm ≡ ok t
    → (before after : ReviewBundle) × (s.bundle ≡ some before)
      × (t.bundle ≡ some after)
      × (check_review_state P t ≡ ok tt)
      × (active_junit_import_ids after ≡ active_junit_import_ids before)
      × ((j : String)
          → lookup j (all_effective_mappings after) ≡ (
              if j == q.import_id then some mappings else lookup j (all_effective_mappings before)))
correct-effective P digest s q mappings confirm h =
    let (previous_digest, chain, r, known) = correct-IsRecorded P digest s q mappings confirm h in
    let e = r.event in
    let b = r.extends.before in
    (
      b,
      with_import_event e b,
      r.extends.active,
      ap (λ x. x.bundle) r.extends.result,
      r.extends.valid,
      active-corrected e b r.of_action,
      λ j.
          ap (lookup j) (effective-with_import_event e b)
          ∙ apply_event-corrected e q.import_id (all_effective_mappings b) j r.of_action r.of_import
              known,
    )

filter-out : (i : String) (ids : List String) → contains (filter (λ j. not (j == i)) ids) i ≡ false
filter-out i [] = refl
filter-out i (j ∷ ids) = ground (arith, filter-out i ids)

-- A withdrawal ends the audit of its import: on the state that it returns, every further withdrawal
-- or correction of the same import is refused.
pub withdraw-final :
    (P : Platform) (digest : ReviewState → String) (s t : ReviewState) (q again : Request)
    (mappings : List JunitCriterionMapping) (confirm : Bool)
    → withdraw_junit_evidence_import P digest s q ≡ ok t
    → again.import_id ≡ q.import_id
    → ((u : ReviewState) → ¬ (withdraw_junit_evidence_import P digest t again ≡ ok u))
      × ((u : ReviewState) → ¬ (correct_junit_mappings P digest t again mappings confirm ≡ ok u))
withdraw-final P digest s t q again mappings confirm h same =
    let (b, after, active, now, valid, was, ids, kept) = withdraw-active P digest s q h in
    let gone : contains (active_junit_import_ids after) again.import_id ≡ false =
      rw (ids, same) (filter-out q.import_id (active_junit_import_ids b)) in
    (
      λ u w. let r = withdraw-IsRecorded P digest t again w in closed after gone now r,
      λ u w.
          let r = correct-IsRecorded P digest t again mappings confirm w in
          closed after gone now r.2,
    )
  where
    closed :
        (after : ReviewBundle) {action : JunitAction} {u : ReviewState}
        → contains (active_junit_import_ids after) again.import_id ≡ false
        → t.bundle ≡ some after
        → IsRecorded P digest again action t u
        → ⊥
    closed after gone now r =
        let own : r.extends.before ≡ after = some-injective _ _ (sym r.extends.active ∙ now) in
        true≢false (
          sym r.was_active
          ∙ (ap (λ x. contains (active_junit_import_ids x) again.import_id) own ∙ gone))
