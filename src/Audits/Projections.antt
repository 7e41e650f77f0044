-- ===== src/Audits/Projections.antt =====
-- What the events of a bundle make of its JUnit imports: `active_junit_import_ids` and
-- `effective_junit_mappings` of ReviewBundle in scopeproof_core/schemas/models.py, and the
-- projections of scopeproof_core/reviews/junit_audit.py.
use mathlib.Core.List.{flat_map}
use scope_proof.Base.{
  String, Bool, true, false, not, ◌&&◌, Option, none, some, List, [], ◌∷◌, ◌++◌, map, Result, ok,
  err, ◌>>=◌, ◌>>◌, raise_if, filter, contains, find_first, is_some, ◌==◌, string_eq, Dict, lookup,
  insert, if◌then◌else◌,
}
use scope_proof.Schema.{
  ReviewBundle, JunitEvidenceImport, JunitImportEvent, JunitAction, JunitCriterionMapping,
}
use scope_proof.Records.Imports.{mapped_criteria}

abbrev pub is_withdrawal : JunitImportEvent → Bool
is_withdrawal e = elim e.action [
  | JunitAction.withdrawn ↦ true
  | JunitAction.mapping_corrected digest previous mappings ↦ false
]

abbrev pub import_ids : List JunitEvidenceImport → List String
import_ids = map (λ i. i.import_id)

-- `withdrawn`
abbrev pub withdrawn_ids : List JunitImportEvent → List String
withdrawn_ids events = map (λ e. e.import_id) (filter is_withdrawal events)

unfoldable pub active_junit_import_ids : ReviewBundle → List String
active_junit_import_ids b =
    filter (λ i. not (contains (withdrawn_ids b.junit_import_events) i))
      (import_ids b.junit_evidence_imports)

-- One round of the loop over the events.
unfoldable pub apply_event :
    JunitImportEvent
    → Dict String (List JunitCriterionMapping)
    → Dict String (List JunitCriterionMapping)
unfolding lookup insert
apply_event e result = elim e.action [
  | JunitAction.withdrawn ↦ result
  | JunitAction.mapping_corrected digest previous mappings ↦
      if is_some (lookup e.import_id result) then insert e.import_id mappings result else result
]

unfoldable pub apply_events :
    List JunitImportEvent
    → Dict String (List JunitCriterionMapping)
    → Dict String (List JunitCriterionMapping)
unfolding apply_event
apply_events [] result = result
apply_events (e ∷ es) result = apply_events es (apply_event e result)

-- `{item.import_id: item.criterion_mappings for item in imports}`, onto a dictionary.
unfoldable pub original_mappings :
    List JunitEvidenceImport
    → Dict String (List JunitCriterionMapping)
    → Dict String (List JunitCriterionMapping)
unfolding insert
original_mappings [] result = result
original_mappings (i ∷ is) result =
    original_mappings is (insert i.import_id i.criterion_mappings result)

-- `ReviewBundle.effective_junit_mappings`
unfoldable pub all_effective_mappings : ReviewBundle → Dict String (List JunitCriterionMapping)
unfolding original_mappings apply_events
all_effective_mappings b =
    apply_events b.junit_import_events (original_mappings b.junit_evidence_imports [])

unfoldable pub effective_junit_mappings :
    ReviewBundle → String → Result (List JunitCriterionMapping)
unfolding all_effective_mappings lookup
effective_junit_mappings b import_id = elim (lookup import_id (all_effective_mappings b)) [
  | none ↦ err "unknown retained JUnit import"
  | some mappings ↦ ok mappings
]

unfoldable pub junit_import_withdrawal_event :
    ReviewBundle → String → Result (Option JunitImportEvent)
junit_import_withdrawal_event b import_id = do
  raise_if (not (contains (import_ids b.junit_evidence_imports) import_id))
      "unknown retained JUnit import"
  ok (find_first (λ e. e.import_id == import_id && is_withdrawal e) b.junit_import_events)

pub data ImportStatus : Type 0 where
  active withdrawn : ImportStatus

unfoldable pub junit_import_status : ReviewBundle → String → Result ImportStatus
unfolding junit_import_withdrawal_event
junit_import_status b import_id = do
  event ← junit_import_withdrawal_event b import_id
  ok (if is_some event then ImportStatus.withdrawn else ImportStatus.active)

unfoldable pub junit_mapping_correction_events :
    ReviewBundle → String → Result (List JunitImportEvent)
unfolding effective_junit_mappings
junit_mapping_correction_events b import_id = do
  mappings ← effective_junit_mappings b import_id
  ok (filter (λ e. e.import_id == import_id && not (is_withdrawal e)) b.junit_import_events)

-- `event.criterion_mappings`, of a correction.
abbrev event_mappings : JunitImportEvent → List JunitCriterionMapping
event_mappings e = elim e.action [
  | JunitAction.withdrawn ↦ []
  | JunitAction.mapping_corrected digest previous mappings ↦ mappings
]

-- The set of IDs, as a list.
unfoldable pub junit_mapping_criterion_ids : ReviewBundle → String → Result (List String)
unfolding effective_junit_mappings junit_mapping_correction_events
junit_mapping_criterion_ids b import_id = do
  current ← effective_junit_mappings b import_id
  events ← junit_mapping_correction_events b import_id
  elim (find_first (λ i. i.import_id == import_id) b.junit_evidence_imports) [
    | none ↦ err "StopIteration"
    | some original ↦ ok (
        mapped_criteria
          (original.criterion_mappings ++ (current ++ flat_map event_mappings events)))
  ]
