-- ===== src/Audits/Retained.antt =====
-- The mappings of an import after its events, by the replay of Records/Imports and by the pass over
-- all events of a bundle (scopeproof_core/schemas/models.py).
use scope_proof.Base.{
  ◌≡◌, refl, sym, ap, ◌∙◌, arith, String, Bool, true, false, not, ◌||◌, Option, some, List, [], ◌∷◌,
  any, option_eq, list_eq, ok, filter, contains, nodup, is_some, ◌==◌, string_eq, Dict, lookup,
  insert, lookup-insert, raise_if, ≡→==, if◌then◌else◌, >>=-eq_ok, >>-eq_ok, ok-injective, All,
}
use scope_proof.Schema.{
  Platform, JunitEvidenceImport, JunitImportEvent, JunitAction, JunitCriterionMapping, mapping_eq,
}
use scope_proof.Records.Imports.{
  mapped_criteria, mapped_cases, Replay, replay_correction, replay_event, replay_events,
  junit_mapping_sha256,
}
use scope_proof.Audits.Projections.{apply_event, apply_events, original_mappings, import_ids}

-- The mappings after one event of the import.
abbrev pub after_action : JunitAction → List JunitCriterionMapping → List JunitCriterionMapping
after_action JunitAction.withdrawn mappings = mappings
after_action (JunitAction.mapping_corrected digest previous corrected) mappings = corrected

-- The mappings of an import after the events, from those before.
pub retained :
    String → List JunitImportEvent → List JunitCriterionMapping → List JunitCriterionMapping
retained i [] mappings = mappings
retained i (e ∷ es) mappings =
    retained i es (if e.import_id == i then after_action e.action mappings else mappings)

module _ (P : Platform) (known_cases known_criteria : List String) where
  replay_correction-current :
      (e : JunitImportEvent) (digest : String) (previous : Option String)
      (mappings : List JunitCriterionMapping) (r : Replay) {next : Replay}
      → replay_correction P known_cases known_criteria e digest previous mappings r ≡ ok next
      → next.current ≡ mappings
  replay_correction-current e digest previous mappings r h =
      let (current, _, h1) = >>=-eq_ok (junit_mapping_sha256 P r.current) _ h in
      let (_, h2) =
        >>-eq_ok (raise_if (not (digest == current) || not (previous == r.previous_id)) _) _ h1 in
      let (_, h3) = >>-eq_ok (raise_if (mappings == r.current) _) _ h2 in
      let (_, h4) =
        >>-eq_ok
          (raise_if (any (λ c. not (contains known_criteria c)) (mapped_criteria mappings)) _) _
          h3 in
      let (_, h5) =
        >>-eq_ok (raise_if (any (λ c. not (contains known_cases c)) (mapped_cases mappings)) _) _
          h4 in
      ap (λ x. x.current) (sym (ok-injective _ _ h5))

  replay_event-current :
      (e : JunitImportEvent) (r : Replay) {next : Replay}
      → replay_event P known_cases known_criteria e r ≡ ok next
      → next.current ≡ after_action e.action r.current
  unfolding replay_event
  replay_event-current e r {next} h =
      let (_, h1) = >>-eq_ok (raise_if (contains r.seen_ids e.event_id || r.terminal) _) _ h in
      of_action e.action refl h1
    where
      of_action :
          (a : JunitAction)
          → e.action ≡ a
          → elim a [
            | JunitAction.withdrawn ↦
                ok (record r { terminal = true; seen_ids = e.event_id ∷ r.seen_ids })
            | JunitAction.mapping_corrected digest previous mappings ↦
                replay_correction P known_cases known_criteria e digest previous mappings r
          ]
            ≡ ok next
          → next.current ≡ after_action a r.current
      of_action JunitAction.withdrawn same p =
          ap (λ x. x.current)
            (sym (
              ok-injective (record r { terminal = true; seen_ids = e.event_id ∷ r.seen_ids }) next
                p))
      of_action (JunitAction.mapping_corrected digest previous mappings) same p =
          replay_correction-current e digest previous mappings r p

  pub replay_events-retained :
      (i : String) (es : List JunitImportEvent) (r : Replay) {last : Replay}
      → replay_events P known_cases known_criteria (filter (λ e. e.import_id == i) es) r ≡ ok last
      → last.current ≡ retained i es r.current
  unfolding replay_events retained
  replay_events-retained i [] r h = ap (λ x. x.current) (sym (ok-injective _ _ h))
  replay_events-retained i (e ∷ es) r {last} h =
      of_owner (e.import_id == i) (λ start p. replay_events-retained i es start p) h
    where
      of_owner :
          (own : Bool)
          → ((start : Replay)
              → replay_events P known_cases known_criteria (filter (λ e. e.import_id == i) es) start
                ≡ ok last
              → last.current ≡ retained i es start.current)
          → replay_events P known_cases known_criteria
              (if own
                then e ∷ filter (λ e. e.import_id == i) es
                else filter (λ e. e.import_id == i) es)
              r
            ≡ ok last
          → last.current
            ≡ retained i es (if own then after_action e.action r.current else r.current)
      of_owner true rest p =
          let (next, q, p1) =
            >>=-eq_ok (replay_event P known_cases known_criteria e r)
              (replay_events P known_cases known_criteria (filter (λ e. e.import_id == i) es)) p in
          rest next p1 ∙ ap (retained i es) (replay_event-current e r q)
      of_owner false rest p = rest r p

pub lookup-apply_event :
    (i : String) (e : JunitImportEvent) (d : Dict String (List JunitCriterionMapping))
    {mappings : List JunitCriterionMapping}
    → lookup i d ≡ some mappings
    → lookup i (apply_event e d)
      ≡ some (if e.import_id == i then after_action e.action mappings else mappings)
unfolding apply_event
lookup-apply_event i e d {mappings} h = of_action e.action
  where
    of_action :
        (a : JunitAction)
        → lookup i (elim a [
          | JunitAction.withdrawn ↦ d
          | JunitAction.mapping_corrected digest previous corrected ↦
              if is_some (lookup e.import_id d) then insert e.import_id corrected d else d
        ])
          ≡ some (if e.import_id == i then after_action a mappings else mappings)
    of_action JunitAction.withdrawn = ground (arith, h)
    of_action (JunitAction.mapping_corrected digest previous corrected) =
        ground (arith, h, lookup-insert i e.import_id corrected d)

pub lookup-apply_events :
    (i : String) (es : List JunitImportEvent) (d : Dict String (List JunitCriterionMapping))
    {mappings : List JunitCriterionMapping}
    → lookup i d ≡ some mappings
    → lookup i (apply_events es d) ≡ some (retained i es mappings)
unfolding apply_events retained
lookup-apply_events i [] d h = h
lookup-apply_events i (e ∷ es) d h =
    lookup-apply_events i es (apply_event e d) (lookup-apply_event i e d h)

pub lookup-original-other :
    (j : String) (imports : List JunitEvidenceImport) (d : Dict String (List JunitCriterionMapping))
    → contains (import_ids imports) j ≡ false
    → lookup j (original_mappings imports d) ≡ lookup j d
unfolding original_mappings
lookup-original-other j [] d h = refl
lookup-original-other j (i ∷ is) d h = ground (
  arith,
  lookup-original-other j is (insert i.import_id i.criterion_mappings d),
  lookup-insert j i.import_id i.criterion_mappings d,
)

pub lookup-original :
    (imports : List JunitEvidenceImport) (d : Dict String (List JunitCriterionMapping))
    → nodup (import_ids imports) ≡ true
    → All
        (λ i. lookup i.import_id (original_mappings imports d) ≡ some i.criterion_mappings)
        imports
unfolding original_mappings
lookup-original [] d n = tt
lookup-original (i ∷ is) d n = (
  lookup-original-other i.import_id is (insert i.import_id i.criterion_mappings d) (ground arith)
      ∙ (lookup-insert i.import_id i.import_id i.criterion_mappings d
          ∙ rw (≡→== i.import_id i.import_id refl) refl),
  lookup-original is (insert i.import_id i.criterion_mappings d) (ground arith),
)
