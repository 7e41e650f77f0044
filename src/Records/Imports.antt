-- ===== src/Records/Imports.antt =====
-- The validators of JUnit imports and their audit events, of scopeproof_core/schemas/models.py, and
-- `replay_junit_mapping_events`.
use mathlib.Core.List.{flat_map}
use scope_proof.Base.{
  ℕ, ◌+◌, String, Bool, true, false, not, ◌&&◌, ◌||◌, Option, none, some, List, [], ◌∷◌, map,
  Result, ok, ◌>>=◌, ◌>>◌, raise_if, filter, any, contains, nodup, distinct, sorted, length, ◌==◌,
  string_eq, list_eq, option_eq, nat_eq,
}
use scope_proof.Schema.{
  Platform, JunitEvidenceImport, JunitCaseResult, JunitCaseStatus, JunitCriterionMapping,
  JunitImportEvent, JunitAction, mapping_eq,
}

-- `value == sorted(set(value))`
abbrev pub is_canonical : List String → Bool
is_canonical xs = xs == sorted (distinct xs)

abbrev pub mapped_criteria : List JunitCriterionMapping → List String
mapped_criteria = map (λ m. m.criterion_id)

abbrev pub mapped_cases : List JunitCriterionMapping → List String
mapped_cases = flat_map (λ m. m.test_case_ids)

abbrev pub case_ids : JunitEvidenceImport → List String
case_ids i = map (λ c. c.test_case_id) i.test_cases

abbrev pub same_status : JunitCaseStatus → JunitCaseStatus → Bool
same_status JunitCaseStatus.passed JunitCaseStatus.passed = true
same_status JunitCaseStatus.failure JunitCaseStatus.failure = true
same_status JunitCaseStatus.error JunitCaseStatus.error = true
same_status JunitCaseStatus.skipped JunitCaseStatus.skipped = true
same_status _ _ = false

-- `observed[status]`
abbrev pub observed : JunitCaseStatus → List JunitCaseResult → ℕ
observed status cases = length (filter (λ c. same_status c.status status) cases)

abbrev pub totals_match : JunitEvidenceImport → Bool
totals_match i =
    i.totals.total == length i.test_cases
    && i.totals.passed == observed JunitCaseStatus.passed i.test_cases
    && i.totals.failures == observed JunitCaseStatus.failure i.test_cases
    && i.totals.errors == observed JunitCaseStatus.error i.test_cases
    && i.totals.skipped == observed JunitCaseStatus.skipped i.test_cases

-- `JUnitResultTotals.require_categories_to_sum_to_total`, then
-- `JUnitEvidenceImport.validate_result_and_mapping_cross_references`.
unfoldable pub validate_import : JunitEvidenceImport → Result (Unit {0})
unfolding sorted
validate_import i = do
  raise_if
      (not (
        i.totals.passed + i.totals.failures + i.totals.errors + i.totals.skipped == i.totals.total))
      "JUnit result categories must sum to total"
  raise_if (not (is_canonical (case_ids i))) "JUnit test case IDs must be sorted and unique"
  raise_if (not (totals_match i)) "JUnit totals must match sanitized test case results"
  raise_if (not (is_canonical (mapped_criteria i.criterion_mappings)))
      "JUnit criterion mappings must be sorted and unique"
  raise_if (any (λ c. not (contains (case_ids i) c)) (mapped_cases i.criterion_mappings))
      "mapped test case IDs must resolve"
  raise_if (not (nodup (mapped_cases i.criterion_mappings)))
      "one JUnit test case must not map to multiple criteria"

-- `_validate_junit_mapping_snapshot`
unfoldable pub validate_mapping_snapshot : List JunitCriterionMapping → Result (Unit {0})
unfolding sorted
validate_mapping_snapshot mappings = do
  raise_if (not (is_canonical (mapped_criteria mappings)))
      "JUnit criterion mappings must be sorted and unique"
  raise_if (not (nodup (mapped_cases mappings)))
      "one JUnit test case must not map to multiple criteria"

-- `JUnitMappingCorrectionEvent.canonical_mappings`; a withdrawal has no mappings to check.
unfoldable pub validate_import_event : JunitImportEvent → Result (Unit {0})
unfolding validate_mapping_snapshot
validate_import_event e = elim e.action [
  | JunitAction.withdrawn ↦ ok tt
  | JunitAction.mapping_corrected previous chain mappings ↦ validate_mapping_snapshot mappings
]

-- `junit_mapping_sha256`
unfoldable pub junit_mapping_sha256 : Platform → List JunitCriterionMapping → Result String
unfolding validate_mapping_snapshot
junit_mapping_sha256 P mappings = do
  validate_mapping_snapshot mappings
  ok (P.mappings_sha256 mappings)

-- The variables of the replay loop.
pub record Replay : Type 0 where
  pub current : List JunitCriterionMapping
  pub previous_id : Option String
  pub terminal : Bool
  pub seen_ids : List String

module _ (P : Platform) (known_case_ids known_criterion_ids : List String) where
  -- A correction, behind the checks that all events pass.
  abbrev pub replay_correction :
      JunitImportEvent
      → String
      → Option String
      → List JunitCriterionMapping
      → Replay
      → Result Replay
  replay_correction event previous_digest previous mappings r = do
    digest ← junit_mapping_sha256 P r.current
    raise_if (not (previous_digest == digest) || not (previous == r.previous_id))
        "JUnit correction chain must match its previous mapping and event"
    raise_if (mappings == r.current) "JUnit correction must change the current mappings"
    raise_if (any (λ c. not (contains known_criterion_ids c)) (mapped_criteria mappings))
        "JUnit correction mappings must reference known criteria"
    raise_if (any (λ c. not (contains known_case_ids c)) (mapped_cases mappings))
        "JUnit correction mapped test case IDs must resolve in retained import"
    ok (record r {
      current = mappings;
      previous_id = some event.event_id;
      seen_ids = event.event_id ∷ r.seen_ids;
    })

  unfoldable pub replay_event : JunitImportEvent → Replay → Result Replay
  unfolding junit_mapping_sha256
  replay_event event r = do
    raise_if (contains r.seen_ids event.event_id || r.terminal)
        "JUnit audit events must be unique and withdrawal is terminal"
    elim event.action [
      | JunitAction.withdrawn ↦
          ok (record r { terminal = true; seen_ids = event.event_id ∷ r.seen_ids })
      | JunitAction.mapping_corrected digest previous mappings ↦
          replay_correction event digest previous mappings r
    ]

  unfoldable pub replay_events : List JunitImportEvent → Replay → Result Replay
  replay_events [] r = ok r
  replay_events (e ∷ es) r = replay_event e r >>= replay_events es

  -- `replay_junit_mapping_events`
  unfoldable pub replay_junit_mapping_events :
      List JunitCriterionMapping → List JunitImportEvent → Result (List JunitCriterionMapping)
  unfolding replay_event replay_events
  replay_junit_mapping_events original events = do
    let start : Replay = record {
      current = original;
      previous_id = none;
      terminal = false;
      seen_ids = [];
    }
    r ← replay_events events start
    ok r.current
