-- ===== src/Bundle/Audit.antt =====
-- `validate_reference_audit` of scopeproof_core/reviews/reference_audit.py.
use scope_proof.Base.{
  ℕ, suc, String, Bool, true, not, ◌&&◌, ◌||◌, Option, none, some, List, [], ◌∷◌, map, Result, ok,
  err, ◌>>=◌, ◌>>◌, raise_if, filter, any, contains, nodup, last_by, length, ltb, leb,
  if◌then◌else◌, ◌==◌, string_eq, nat_eq,
}
use scope_proof.Schema.{
  ReviewerSelectedReference, SelectedReferenceEvent, ReferenceAction, provenance_eq,
  source_scope_eq,
}

-- `_owner(a) == _owner(b)` for two references, and for an event and a reference.
abbrev pub same_owner : ReviewerSelectedReference → ReviewerSelectedReference → Bool
same_owner a b =
    a.review_id == b.review_id
    && a.repository == b.repository
    && a.pr_number == b.pr_number
    && a.head_sha == b.head_sha
    && a.criteria_revision_number == b.criteria_revision_number
    && a.confirmed_criteria_sha256 == b.confirmed_criteria_sha256

abbrev pub owned_by : SelectedReferenceEvent → ReviewerSelectedReference → Bool
owned_by e b =
    e.review_id == b.review_id
    && e.repository == b.repository
    && e.pr_number == b.pr_number
    && e.head_sha == b.head_sha
    && e.criteria_revision_number == b.criteria_revision_number
    && e.confirmed_criteria_sha256 == b.confirmed_criteria_sha256

abbrev pub reference_ids : List ReviewerSelectedReference → List String
reference_ids = map (λ r. r.reference_id)

-- `by_id.get(id)`
abbrev pub by_id : List ReviewerSelectedReference → String → Option ReviewerSelectedReference
by_id references id = last_by (λ r. r.reference_id) id references

abbrev pub by_optional_id :
    List ReviewerSelectedReference → Option String → Option ReviewerSelectedReference
by_optional_id references none = none
by_optional_id references (some id) = by_id references id

-- `positions[id]`, counted from `i`; the IDs are distinct where it is read.
unfoldable pub position : String → ℕ → List ReviewerSelectedReference → ℕ
position id i [] = i
position id i (r ∷ rs) =
    let rest = position id (suc i) rs in if r.reference_id == id then i else rest

-- The sets of the loop over the events.
pub record Seen : Type 0 where
  pub event_ids : List String
  pub terminal : List String
  pub incoming : List String

module _ (references : List ReviewerSelectedReference) where
  -- The condition under which a correction's replacement is refused; `terminal` has the target.
  unfoldable pub refuses_replacement :
      SelectedReferenceEvent
      → ReviewerSelectedReference
      → Seen
      → Option ReviewerSelectedReference
      → Bool
  unfolding position
  refuses_replacement event target seen none = true
  refuses_replacement event target seen (some replacement) =
      contains seen.incoming replacement.reference_id
      || contains seen.terminal replacement.reference_id
      || leb (position replacement.reference_id 0 references)
          (position target.reference_id 0 references)
      || not (same_owner replacement target)
      || not (replacement.criterion_id == target.criterion_id)
      || not (replacement.criteria_source_provenance == target.criteria_source_provenance)
      || not (replacement.reviewer == event.reviewer)
      || not (replacement.selected_at == event.occurred_at)

  abbrev enter : Option ReviewerSelectedReference → Seen → Seen
  enter none seen = seen
  enter (some replacement) seen = record seen {
    incoming = replacement.reference_id ∷ seen.incoming;
  }

  -- The last step of a round, for an event whose target is active.
  abbrev close : SelectedReferenceEvent → ReviewerSelectedReference → Seen → Result Seen
  close event target seen = elim event.action [
    | ReferenceAction.withdrawn ↦ ok seen
    | ReferenceAction.corrected ↦
        let replacement = by_optional_id references event.replacement_reference_id in
        do
          raise_if (refuses_replacement event target seen replacement)
              "correction requires a later unique matching replacement"
          ok (enter replacement seen)
  ]

  abbrev audit_target :
      SelectedReferenceEvent → Seen → Option ReviewerSelectedReference → Result Seen
  audit_target event seen none = err "reference audit target must match its owning analysis"
  audit_target event seen (some target) = do
    raise_if (not (owned_by event target)) "reference audit target must match its owning analysis"
    raise_if (contains seen.terminal event.reference_id) "reference audit target must be active"
    close event target (record seen { terminal = event.reference_id ∷ seen.terminal })

  unfoldable pub audit_event : SelectedReferenceEvent → Seen → Result Seen
  unfolding refuses_replacement
  audit_event event seen = do
    raise_if (contains seen.event_ids event.event_id) "selected reference event IDs must be unique"
    audit_target event (record seen { event_ids = event.event_id ∷ seen.event_ids })
        (by_id references event.reference_id)

  unfoldable pub audit_events : List SelectedReferenceEvent → Seen → Result Seen
  audit_events [] seen = ok seen
  audit_events (e ∷ es) seen = audit_event e seen >>= audit_events es

-- `(criterion_id, source_scope, file_path, line_number)` is the same.
abbrev pub same_location : ReviewerSelectedReference → ReviewerSelectedReference → Bool
same_location a b =
    a.criterion_id == b.criterion_id
    && a.source_scope == b.source_scope
    && a.file_path == b.file_path
    && a.line_number == b.line_number

abbrev pub distinct_locations : List ReviewerSelectedReference → Bool
distinct_locations [] = true
distinct_locations (r ∷ rs) = not (any (same_location r) rs) && distinct_locations rs

abbrev pub active_of : List String → List ReviewerSelectedReference → List ReviewerSelectedReference
active_of terminal = filter (λ r. not (contains terminal r.reference_id))

unfoldable pub validate_reference_audit :
    List ReviewerSelectedReference → List SelectedReferenceEvent → Result (Unit {0})
unfolding audit_event audit_events
validate_reference_audit references events = do
  raise_if (ltb 128 (length references) || ltb 128 (length events))
      "selected reference audit history limit exceeded"
  raise_if (not (nodup (reference_ids references))) "selected reference IDs must be unique"
  let start : Seen = record { event_ids = []; terminal = []; incoming = [] }
  seen ← audit_events references events start
  raise_if (ltb 32 (length (active_of seen.terminal references)))
      "analysis may contain at most 32 active references"
  raise_if (not (distinct_locations (active_of seen.terminal references)))
      "active selected reference criterion locations must be unique"
