-- ===== src/Audits/Replays.antt =====
-- On a valid bundle the mappings in effect (`effective_junit_mappings`, one pass over all events)
-- are those that the validating replay of each import's own events computes.
use scope_proof.Base.{
  ◌≡◌, sym, ap, ◌∙◌, arith, String, Bool, true, false, not, none, some, List, [], ◌∷◌, length, ltb,
  option_eq, list_eq, ok, filter, nodup, ◌==◌, string_eq, lookup, raise_if, each, >>=-eq_ok,
  >>-eq_ok, raise_if-eq_ok, ok-injective, All, each-eq_ok→All,
}
use scope_proof.Schema.{
  Platform, ReviewBundle, JunitEvidenceImport, JunitImportEvent, JunitCriterionMapping, mapping_eq,
}
use scope_proof.Gate.{criterion_ids}
use scope_proof.Records.Imports.{Replay, replay_events, replay_junit_mapping_events, case_ids}
use scope_proof.Bundle.{validate_bundle, validate_parts, validate_cross_references}
use scope_proof.Bundle.Selected.{check_criteria, check_references}
use scope_proof.Bundle.Candidates.{
  check_file_scope_decisions, check_evidence, check_diagnostics, check_findings,
}
use scope_proof.Bundle.Records.{
  check_runtime, check_imports, check_replay, check_import_events, is_mapping_correction,
}
use scope_proof.Validation.{check_review_bundle}
use scope_proof.Audits.Projections.{original_mappings, all_effective_mappings, import_ids}
use scope_proof.Audits.Retained.{
  replay_events-retained, retained, lookup-apply_events, lookup-original,
}

not-false : (b : Bool) → not b ≡ false → b ≡ true
not-false b h = ground arith

All-both {ℓ} :
    {A : Type ℓ} {B C D : A → Type 0} (xs : List A)
    → ((x : A) → B x → C x → D x)
    → All B xs
    → All C xs
    → All D xs
All-both [] f p q = tt
All-both (x ∷ xs) f p q = (f x p.0 q.0, All-both xs f p.1 q.1)

-- The checks of the imports that a valid bundle has passed.
checked_imports :
    (P : Platform) (b : ReviewBundle)
    → check_review_bundle P b ≡ ok tt
    → (nodup (import_ids b.junit_evidence_imports) ≡ true)
      × All (λ i. check_replay P b i ≡ ok tt) b.junit_evidence_imports
unfolding check_review_bundle validate_bundle validate_cross_references check_imports
checked_imports P b h =
    let (bundled, _) = >>-eq_ok (validate_bundle P b) _ h in
    let (_, crossed) = >>-eq_ok (validate_parts b) _ bundled in
    let (_, h1) = >>-eq_ok (check_criteria P b) _ crossed in
    let (_, h2) = >>-eq_ok (check_references P b) _ h1 in
    let (_, h3) = >>-eq_ok (check_file_scope_decisions P b) _ h2 in
    let (_, h4) = >>-eq_ok (check_evidence P b) _ h3 in
    let (_, h5) = >>-eq_ok (check_diagnostics b) _ h4 in
    let (_, h6) = >>-eq_ok (check_findings b) _ h5 in
    let (_, h7) = >>-eq_ok (check_runtime b) _ h6 in
    let (imported, _) = >>-eq_ok (check_imports P b) _ h7 in
    let (unique, i1) =
      >>-eq_ok (raise_if (not (nodup (import_ids b.junit_evidence_imports))) _) _ imported in
    let (_, i2) =
      >>-eq_ok (raise_if (ltb 20 (length (filter is_mapping_correction b.junit_import_events))) _) _
        i1 in
    let (_, i3) = >>-eq_ok (check_import_events b [] b.junit_import_events) _ i2 in
    let (replayed, _) = >>-eq_ok (each (check_replay P b) b.junit_evidence_imports) _ i3 in
    (
      not-false _ (raise_if-eq_ok _ _ unique),
      each-eq_ok→All (check_replay P b) b.junit_evidence_imports replayed,
    )

replayed_mappings :
    (P : Platform) (b : ReviewBundle) (i : JunitEvidenceImport)
    → check_replay P b i ≡ ok tt
    → (mappings : List JunitCriterionMapping) × (replay_junit_mapping_events P
          (case_ids i)
          (criterion_ids b.criteria)
          i.criterion_mappings
          (filter (λ e. e.import_id == i.import_id) b.junit_import_events)
        ≡ ok mappings)
unfolding check_replay
replayed_mappings P b i h =
    let (mappings, p, _) =
      >>=-eq_ok
        (replay_junit_mapping_events P (case_ids i) (criterion_ids b.criteria) i.criterion_mappings
          (filter (λ e. e.import_id == i.import_id) b.junit_import_events))
        _ h in
    (mappings, p)

replay-retained :
    (P : Platform) (known_cases known_criteria : List String) (i : String)
    (events : List JunitImportEvent) (original : List JunitCriterionMapping)
    {mappings : List JunitCriterionMapping}
    → replay_junit_mapping_events P known_cases known_criteria original
        (filter (λ e. e.import_id == i) events)
      ≡ ok mappings
    → mappings ≡ retained i events original
unfolding replay_junit_mapping_events
replay-retained P known_cases known_criteria i events original h =
    let start : Replay = record {
      current = original;
      previous_id = none;
      terminal = false;
      seen_ids = [];
    } in
    let own = filter (λ e. e.import_id == i) events in
    let (last, p, q) = >>=-eq_ok (replay_events P known_cases known_criteria own start) _ h in
    sym (ok-injective _ _ q) ∙ replay_events-retained P known_cases known_criteria i events start p

-- On a bundle that passes validation, the mappings in effect of each import are what the replay of
-- its own events, with all the checks of the replay, makes of its original mappings.
pub effective-replay :
    (P : Platform) (b : ReviewBundle)
    → check_review_bundle P b ≡ ok tt
    → All
        (λ i.
          (mappings : List JunitCriterionMapping) × (replay_junit_mapping_events P
              (case_ids i)
              (criterion_ids b.criteria)
              i.criterion_mappings
              (filter (λ e. e.import_id == i.import_id) b.junit_import_events)
            ≡ ok mappings)
          × (lookup i.import_id (all_effective_mappings b) ≡ some mappings))
        b.junit_evidence_imports
unfolding all_effective_mappings
effective-replay P b h =
    let (distinct_ids, replays) = checked_imports P b h in
    All-both b.junit_evidence_imports
      (λ i replayed original.
        let (mappings, p) = replayed_mappings P b i replayed in
        (
          mappings,
          p,
          lookup-apply_events i.import_id b.junit_import_events
                (original_mappings b.junit_evidence_imports []) original
              ∙ ap some (
                  sym (
                    replay-retained P (case_ids i) (criterion_ids b.criteria) i.import_id
                      b.junit_import_events i.criterion_mappings p)),
        ))
      replays (lookup-original b.junit_evidence_imports [] distinct_ids)
