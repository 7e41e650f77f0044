-- ===== src/Events/Status.antt =====
-- `resolution_event_statuses` of scopeproof_core/reviews/lifecycle.py.
use scope_proof.Base.{
  ℕ, suc, ◌≡◌, refl, String, Bool, ◌&&◌, Option, none, some, List, [], ◌∷◌, if◌then◌else◌, ◌==◌,
  nat_eq, string_eq, option_eq, any, Dict, lookup, insert, lookup-insert, arith, is_some,
  Option-cases, inl, inr, ◌≤◌,
}
use scope_proof.Schema.{ResolutionEvent}

pub data ResolutionEventStatus : Type 0 where
  current superseded prior_revision : ResolutionEventStatus

-- The first loop, from position `i`: the last position of each target in the active revision. The
-- target `(criterion_id is None, criterion_id)` is the optional criterion.
unfoldable pub index_targets :
    ℕ → ℕ → List ResolutionEvent → Dict (Option String) ℕ → Dict (Option String) ℕ
unfolding insert
index_targets n i [] latest = latest
index_targets n i (e ∷ es) latest =
    index_targets n (suc i) es
      (if e.criteria_revision_number == n then insert e.criterion_id i latest else latest)

-- The second loop.
unfoldable pub classify :
    ℕ → Dict (Option String) ℕ → ℕ → List ResolutionEvent → List ResolutionEventStatus
unfolding lookup
classify n latest i [] = []
classify n latest i (e ∷ es) =
    let rest = classify n latest (suc i) es in
    (if e.criteria_revision_number == n
      then if lookup e.criterion_id latest == some i then current else superseded
      else prior_revision)
    ∷ rest

unfoldable pub resolution_event_statuses : List ResolutionEvent → ℕ → List ResolutionEventStatus
unfolding index_targets classify
resolution_event_statuses events n = classify n (index_targets n 0 events []) 0 events

-- A later event of the same revision and target.
abbrev pub replaces : ℕ → Option String → ResolutionEvent → Bool
replaces n target e = e.criteria_revision_number == n && e.criterion_id == target

-- The meaning of the statuses: an event of the active revision is current as long as no later event
-- of that revision has its target.
abbrev pub status_reference : ℕ → List ResolutionEvent → List ResolutionEventStatus
status_reference n [] = []
status_reference n (e ∷ es) =
    (if e.criteria_revision_number == n
      then if any (replaces n e.criterion_id) es then superseded else current
      else prior_revision)
    ∷ status_reference n es

-- The position, counted from `i`, of the last event that has the target.
abbrev last_position : ℕ → Option String → ℕ → List ResolutionEvent → Option ℕ
last_position n t i [] = none
last_position n t i (e ∷ es) = elim (last_position n t (suc i) es) [
  | some j ↦ some j
  | none ↦ if replaces n t e then some i else none
]

abbrev or_else_position : Option ℕ → Option ℕ → Option ℕ
or_else_position (some j) o = some j
or_else_position none o = o

lookup-index_targets :
    (n i : ℕ) (es : List ResolutionEvent) (d : Dict (Option String) ℕ) (t : Option String)
    → lookup t (index_targets n i es d) ≡ or_else_position (last_position n t i es) (lookup t d)
unfolding index_targets
lookup-index_targets n i [] d t = refl
lookup-index_targets n i (e ∷ es) d t = ground (
  arith,
  lookup-index_targets n (suc i) es
      (if e.criteria_revision_number == n then insert e.criterion_id i d else d) t,
  lookup-insert t e.criterion_id i d,
)

last_position-ge :
    (n : ℕ) (t : Option String) (i : ℕ) (es : List ResolutionEvent) (j : ℕ)
    → last_position n t i es ≡ some j
    → i ≤ j
last_position-ge n t i [] j h = cc
last_position-ge n t i (e ∷ es) j h = ground (arith, last_position-ge n t (suc i) es j)

is_some-last_position :
    (n : ℕ) (t : Option String) (i : ℕ) (es : List ResolutionEvent)
    → is_some (last_position n t i es) ≡ any (replaces n t) es
is_some-last_position n t i [] = refl
is_some-last_position n t i (e ∷ es) = ground (arith, is_some-last_position n t (suc i) es)

-- Every target of the rest of the list stands in the dictionary with its last position.
abbrev Agrees : ℕ → Dict (Option String) ℕ → ℕ → List ResolutionEvent → Type 0
Agrees n d i es =
    (t : Option String) (j : ℕ) → last_position n t i es ≡ some j → lookup t d ≡ some j

Agrees-tail :
    (n : ℕ) (d : Dict (Option String) ℕ) (i : ℕ) (e : ResolutionEvent) (es : List ResolutionEvent)
    → Agrees n d i (e ∷ es)
    → Agrees n d (suc i) es
Agrees-tail n d i e es h t j p = h t j (ground arith)

classify-status_reference :
    (n : ℕ) (d : Dict (Option String) ℕ) (i : ℕ) (es : List ResolutionEvent)
    → Agrees n d i es
    → classify n d i es ≡ status_reference n es
unfolding classify
classify-status_reference n d i [] h = refl
classify-status_reference n d i (e ∷ es) h =
    rw (classify-status_reference n d (suc i) es (Agrees-tail n d i e es h))
      (elim (Option-cases (last_position n e.criterion_id (suc i) es)) [
        | inl none_later ↦
            ground (arith, h e.criterion_id i, is_some-last_position n e.criterion_id (suc i) es)
        | inr (j, later) ↦ ground (
          arith,
          h e.criterion_id j,
          last_position-ge n e.criterion_id (suc i) es j later,
          is_some-last_position n e.criterion_id (suc i) es,
        )
      ])

-- The two passes over the events compute the status that each event has by its meaning.
pub statuses-status_reference :
    (events : List ResolutionEvent) (n : ℕ)
    → resolution_event_statuses events n ≡ status_reference n events
unfolding resolution_event_statuses
statuses-status_reference events n =
    classify-status_reference n _ 0 events
      (λ t j p. ground (arith, lookup-index_targets n 0 events [] t))
