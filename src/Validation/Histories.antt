-- ===== src/Validation/Histories.antt =====
-- `_require_event_history_integrity` of scopeproof_core/gates/validation.py: a replay of the events
-- of each revision against the bundle that they decide.
use scope_proof.Base.{
  ℕ, String, Bool, true, false, not, ◌&&◌, ◌||◌, Option, none, some, List, [], ◌∷◌, ◌++◌, map,
  Result, ok, ◌>>=◌, ◌>>◌, raise_if, each, any, filter, is_empty, is_none, is_some, distinct,
  find_last, ltb, Dict, lookup, insert, ◌==◌, string_eq, nat_eq, bool_eq, option_eq,
}
use scope_proof.Schema.{
  Review, ReviewBundle, ReviewState, RuntimeEvidence, HumanDecision, ResolutionEvent, EvidenceLevel,
  is_manual, is_complete, is_passing, is_resolved_decision, evidence_level_eq,
}
use scope_proof.Bundle.Records.{runtime_by_id, is_of_review}

-- `_review_allows_final_acceptance`, on the bundle's review.
abbrev pub review_allows_final_acceptance : Review → Bool
review_allows_final_acceptance r =
    r.criteria_confirmed
    && is_complete r.ingestion_state
    && is_empty r.ingestion_warnings
    && is_empty r.skipped_files
    && is_passing r.check_state

-- The runtime record has the bundle's identity and the given criterion, reviewer and level.
abbrev is_match :
    ReviewBundle → String → String → Option EvidenceLevel → Option RuntimeEvidence → Bool
is_match b criterion reviewer level none = false
is_match b criterion reviewer level (some e) =
    is_of_review b.review e
    && e.criterion_id == criterion
    && e.reviewer == reviewer
    && level == some e.evidence_level

abbrev pub is_paired : ReviewBundle → String → String → Option EvidenceLevel → Option String → Bool
is_paired b criterion reviewer level none = false
is_paired b criterion reviewer level (some id) =
    is_match b criterion reviewer level (runtime_by_id b.runtime_evidence id)

abbrev pub is_manual_option : Option HumanDecision → Bool
is_manual_option none = false
is_manual_option (some d) = is_manual d

abbrev pub is_accepted_option : Option HumanDecision → Bool
is_accepted_option none = false
is_accepted_option (some d) = is_resolved_decision d

-- The variables of the replay.
pub record Progress : Type 0 where
  pub decisions : Dict String HumanDecision
  pub final_acceptance_recorded : Bool

-- A criterion decision.
abbrev replay_decision :
    ReviewBundle → ResolutionEvent → String → HumanDecision → Progress → Result Progress
replay_decision b e c d p = do
  raise_if (p.final_acceptance_recorded && is_manual_option (lookup c p.decisions))
      "final acceptance must be revoked before replacing manual verification"
  raise_if
      (is_manual d
        && is_some e.runtime_evidence_id
        && not (is_paired b c e.reviewer e.claimed_evidence_level e.runtime_evidence_id))
      "manual verification events require matching runtime evidence"
  ok (record p { decisions = insert c d p.decisions })

-- A final-acceptance event.
abbrev replay_final : ReviewBundle → ResolutionEvent → Progress → Result Progress
replay_final b e p = do
  raise_if
      (e.final_acceptance == some true
        && (not (review_allows_final_acceptance b.review)
            || any (λ c. not (is_accepted_option (lookup c.criterion_id p.decisions))) b.criteria))
      "positive final acceptance event was recorded before prerequisites"
  ok (record p { final_acceptance_recorded = e.final_acceptance == some true })

abbrev replay_kind :
    ReviewBundle
    → ResolutionEvent
    → Option String
    → Option HumanDecision
    → Progress
    → Result Progress
replay_kind b e (some c) (some d) p = replay_decision b e c d p
replay_kind b e (some c) none p = replay_final b e p
replay_kind b e none d p = replay_final b e p

unfoldable pub replay_event : ReviewBundle → ResolutionEvent → Progress → Result Progress
unfolding lookup insert
replay_event b e p = replay_kind b e e.criterion_id e.decision p

unfoldable pub replay_events : ReviewBundle → List ResolutionEvent → Progress → Result Progress
replay_events b [] p = ok p
replay_events b (e ∷ es) p = replay_event b e p >>= replay_events b es

abbrev pub fresh : Progress
fresh = record { decisions = []; final_acceptance_recorded = false }

abbrev pub bundle_list : Option ReviewBundle → List ReviewBundle
bundle_list none = []
bundle_list (some b) = b ∷ []

-- `bundles_by_revision.get(n)`
abbrev pub bundle_of_revision : ReviewState → ℕ → Option ReviewBundle
bundle_of_revision s n =
    find_last (λ b. b.criteria_revision_number == some n)
      (s.analysis_history ++ bundle_list s.bundle)

-- `has_unknown_history`
abbrev pub has_unknown_history : ReviewState → Bool
has_unknown_history s = any (λ b. is_none b.criteria_revision_number) s.analysis_history

abbrev pub events_of_revision : ℕ → List ResolutionEvent → List ResolutionEvent
events_of_revision n = filter (λ e. e.criteria_revision_number == n)

-- The events of one revision, against its bundle.
unfoldable pub check_revision_events : ReviewState → ℕ → Option ReviewBundle → Result (Unit {0})
unfolding replay_event replay_events
check_revision_events s n none =
    raise_if (not (has_unknown_history s && ltb n s.criteria_revision.number))
      "resolution event history requires its matching analysis bundle"
check_revision_events s n (some b) = do
  done ← replay_events b (events_of_revision n s.resolution_events) fresh
  ok tt

unfoldable pub require_event_history_integrity : ReviewState → Result (Unit {0})
unfolding check_revision_events
require_event_history_integrity s =
    each (λ n. check_revision_events s n (bundle_of_revision s n))
      (distinct (map (λ e. e.criteria_revision_number) s.resolution_events))
