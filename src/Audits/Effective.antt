-- ===== src/Audits/Effective.antt =====
-- What one event more does to the projections of a bundle's JUnit imports, and that the mappings in
-- effect are those of the replay that validates the events.
use scope_proof.Base.{
  ◌≡◌, refl, ap, ◌∙◌, arith, String, Bool, true, not, ◌&&◌, ◌||◌, Option, some, List, [], ◌∷◌, ◌++◌,
  filter, contains, is_some, ◌==◌, string_eq, Dict, lookup, lookup-insert, if◌then◌else◌,
}
use scope_proof.Schema.{ReviewBundle, JunitImportEvent, JunitAction, JunitCriterionMapping}
use scope_proof.Audits.Projections.{
  is_withdrawal, withdrawn_ids, active_junit_import_ids, apply_event, apply_events,
  all_effective_mappings, import_ids,
}
use scope_proof.Audits.Junit.{with_import_event}

withdrawn_ids-snoc :
    (events : List JunitImportEvent) (e : JunitImportEvent) (i : String)
    → contains (withdrawn_ids (events ++ (e ∷ []))) i
      ≡ (contains (withdrawn_ids events) i || is_withdrawal e && i == e.import_id)
withdrawn_ids-snoc [] e i = ground arith
withdrawn_ids-snoc (f ∷ events) e i = ground (arith, withdrawn_ids-snoc events e i)

filter-apart :
    (old new : String → Bool) (ids : List String)
    → filter (λ i. not (old i || new i)) ids
      ≡ filter (λ i. not (new i)) (filter (λ i. not (old i)) ids)
filter-apart old new [] = refl
filter-apart old new (i ∷ ids) = ground (arith, filter-apart old new ids)

filter-ext :
    (p q : String → Bool) (ids : List String)
    → ((i : String) → p i ≡ q i)
    → filter p ids ≡ filter q ids
filter-ext p q [] h = refl
filter-ext p q (i ∷ ids) h = ground (arith, h i, filter-ext p q ids h)

-- An import is active after one event more if it was and the event does not withdraw it.
pub active-with_import_event :
    (e : JunitImportEvent) (b : ReviewBundle)
    → active_junit_import_ids (with_import_event e b)
      ≡ filter (λ i. not (is_withdrawal e && i == e.import_id)) (active_junit_import_ids b)
unfolding active_junit_import_ids
active-with_import_event e b =
    filter-ext _ _ (import_ids b.junit_evidence_imports)
      (λ i. ap not (withdrawn_ids-snoc b.junit_import_events e i))
    ∙ filter-apart (contains (withdrawn_ids b.junit_import_events))
        (λ i. is_withdrawal e && i == e.import_id) (import_ids b.junit_evidence_imports)

apply_events-snoc :
    (events : List JunitImportEvent) (e : JunitImportEvent)
    (result : Dict String (List JunitCriterionMapping))
    → apply_events (events ++ (e ∷ [])) result ≡ apply_event e (apply_events events result)
unfolding apply_events
apply_events-snoc [] e result = refl
apply_events-snoc (f ∷ events) e result = apply_events-snoc events e (apply_event f result)

pub effective-with_import_event :
    (e : JunitImportEvent) (b : ReviewBundle)
    → all_effective_mappings (with_import_event e b) ≡ apply_event e (all_effective_mappings b)
unfolding all_effective_mappings
effective-with_import_event e b = apply_events-snoc b.junit_import_events e _

-- A withdrawal leaves all mappings as they are.
pub apply_event-withdrawn :
    (e : JunitImportEvent) (result : Dict String (List JunitCriterionMapping))
    → e.action ≡ JunitAction.withdrawn
    → apply_event e result ≡ result
unfolding apply_event
apply_event-withdrawn e result h = rw (apply_event, h) refl

-- A correction sets the mappings of its import, if it is known, and no other.
pub apply_event-corrected :
    (e : JunitImportEvent) (i : String) {digest : String} {previous : Option String}
    {mappings : List JunitCriterionMapping} (result : Dict String (List JunitCriterionMapping))
    (j : String)
    → e.action ≡ JunitAction.mapping_corrected digest previous mappings
    → e.import_id ≡ i
    → is_some (lookup i result) ≡ true
    → lookup j (apply_event e result) ≡ (if j == i then some mappings else lookup j result)
unfolding apply_event
apply_event-corrected e i {mappings = mappings} result j h same k =
    rw (apply_event, h, same, k) (lookup-insert j i mappings result)

-- A withdrawn import is active no more.
pub active-withdrawn :
    (e : JunitImportEvent) (i : String) (b : ReviewBundle)
    → e.action ≡ JunitAction.withdrawn
    → e.import_id ≡ i
    → active_junit_import_ids (with_import_event e b)
      ≡ filter (λ j. not (j == i)) (active_junit_import_ids b)
active-withdrawn e i b h same =
    active-with_import_event e b
    ∙ filter-ext _ _ (active_junit_import_ids b) (λ j. rw (h, same) refl)

filter-all : (ids : List String) → filter (λ i. true) ids ≡ ids
filter-all [] = refl
filter-all (i ∷ ids) = ap (λ xs. i ∷ xs) (filter-all ids)

-- A correction leaves the active imports as they are.
pub active-corrected :
    (e : JunitImportEvent) {digest : String} {previous : Option String}
    {mappings : List JunitCriterionMapping} (b : ReviewBundle)
    → e.action ≡ JunitAction.mapping_corrected digest previous mappings
    → active_junit_import_ids (with_import_event e b) ≡ active_junit_import_ids b
active-corrected e b h =
    active-with_import_event e b
    ∙ (filter-ext _ (λ j. true) (active_junit_import_ids b) (λ j. rw h refl)
        ∙ filter-all (active_junit_import_ids b))
