-- ===== src/Events.antt =====
-- scopeproof_core/resolution_events.py and `resolution_event_statuses` of
-- scopeproof_core/reviews/lifecycle.py: the current decisions, read from append-only events.
pub mod Laws
pub mod Status
pub mod Totality
use scope_proof.Base.{
  ℕ, String, Bool, true, false, not, ◌&&◌, Option, none, some, List, [], ◌∷◌, Result, ok, err,
  ◌>>=◌, ◌>>◌, raise_if, map_ok, if◌then◌else◌, leb, is_some, is_none, is_blank, ◌==◌, nat_eq,
  string_eq, bool_eq, find_last, Dict, lookup, insert, sorted_items,
}
use scope_proof.Schema.{ResolutionEvent, HumanResolution, HumanDecision, is_manual}

-- `HumanResolution.manual_verification_needs_level`
unfoldable pub validate_resolution : HumanResolution → Result (Unit {0})
unfolding is_blank
validate_resolution r = do
  raise_if (is_some r.runtime_evidence_id && not (is_manual r.decision))
      "runtime evidence ID is reserved for manually verified decisions"
  raise_if (is_manual r.decision && is_none r.claimed_evidence_level)
      "manually verified decisions require a claimed evidence level"
  raise_if (is_manual r.decision && is_blank r.comment)
      "manually verified decisions require a reviewer note"

-- The call of HumanResolution with the fields of an event: a criterion and a decision are
-- required, and the record's validator runs.
construct : ResolutionEvent → Option String → Option HumanDecision → Result HumanResolution
construct e (some criterion_id) (some decision) =
    let r : HumanResolution = record {
      criterion_id = criterion_id;
      decision = decision;
      comment = e.comment;
      evidence_url = e.evidence_url;
      claimed_evidence_level = e.claimed_evidence_level;
      runtime_evidence_id = e.runtime_evidence_id;
      reviewer = e.reviewer;
      timestamp = e.timestamp;
    } in
    do validate_resolution r; ok r
construct e (some criterion_id) none = err "decision is required"
construct e none decision = err "criterion_id is required"

unfoldable pub to_resolution : ResolutionEvent → Result HumanResolution
unfolding construct validate_resolution
to_resolution e = construct e e.criterion_id e.decision

-- `max(revision_numbers, default=1)`
highest : Option ℕ → List ResolutionEvent → ℕ
highest none [] = 1
highest (some n) [] = n
highest none (e ∷ es) = highest (some e.criteria_revision_number) es
highest (some n) (e ∷ es) =
    highest (some (if leb n e.criteria_revision_number then e.criteria_revision_number else n)) es

unfoldable pub selected_revision : List ResolutionEvent → Option ℕ → ℕ
unfolding highest
selected_revision events none = highest none events
selected_revision events (some n) = n

-- One round of the loop that fills `latest`.
record_event : ℕ → ResolutionEvent → Dict String ResolutionEvent → Dict String ResolutionEvent
record_event n e latest = elim e.criterion_id [
  | none ↦ latest
  | some c ↦ if e.criteria_revision_number == n then insert c e latest else latest
]

unfoldable pub fill_latest :
    ℕ → List ResolutionEvent → Dict String ResolutionEvent → Dict String ResolutionEvent
unfolding record_event
fill_latest n [] latest = latest
fill_latest n (e ∷ es) latest = fill_latest n es (record_event n e latest)

unfoldable pub current_resolutions : List ResolutionEvent → Option ℕ → Result (List HumanResolution)
unfolding fill_latest selected_revision to_resolution sorted_items insert
current_resolutions events revision =
    map_ok (λ (_, e). to_resolution e)
      (sorted_items (fill_latest (selected_revision events revision) events []))

abbrev pub is_final_event : ℕ → ResolutionEvent → Bool
is_final_event n e = e.criteria_revision_number == n && is_none e.criterion_id

-- A final event whose flag is None does not occur: `validate_event` refuses it.
unfoldable pub flag : Option ResolutionEvent → Bool
flag none = false
flag (some e) = elim e.final_acceptance [ some b ↦ b | none ↦ false ]

unfoldable pub final_acceptance : List ResolutionEvent → ℕ → Bool
unfolding flag
final_acceptance events n = flag (find_last (is_final_event n) events)

abbrev pub decides_manually : Option HumanDecision → Bool
decides_manually none = false
decides_manually (some d) = is_manual d

-- `ResolutionEvent.validate_event_kind`, behind the checks of the text fields.
unfoldable pub validate_event : ResolutionEvent → Result (Unit {0})
unfolding is_blank
validate_event e = do
  raise_if (is_blank e.event_id) "event ID must contain non-whitespace text"
  raise_if (is_blank e.reviewer) "reviewer must contain non-whitespace text"
  let manual = decides_manually e.decision
  raise_if
      ((is_some e.criterion_id && is_some e.decision)
        == (is_none e.criterion_id && is_some e.final_acceptance))
      "event must be either a criterion decision or a final acceptance"
  raise_if (is_some e.runtime_evidence_id && not manual)
      "runtime evidence ID is reserved for manually verified decisions"
  raise_if (is_some e.claimed_evidence_level && not manual)
      "claimed evidence level is reserved for manually verified decisions"
  raise_if (manual && is_none e.claimed_evidence_level)
      "manually verified events require a claimed evidence level"
  raise_if (manual && is_blank e.comment) "manually verified decisions require a reviewer note"
