-- ===== src/Audits/References.antt =====
-- The operations of scopeproof_core/reviews/reference_audit.py on a state: the status of a selected
-- reference and its withdrawal. The event's ID and time are arguments.
use scope_proof.Base.{
  ℕ, ◌≡◌, refl, sym, ap, ◌∙◌, subst, arith, String, Bool, true, false, not, ◌||◌, Option, none,
  some, List, [], ◌∷◌, ◌++◌, map, Result, ok, err, ◌>>=◌, ◌>>◌, raise_if, filter, contains,
  find_first, filter-All, find_first-eq_some, ◌==◌, string_eq, ==→≡, >>=-eq_ok, >>-eq_ok,
  raise_if-eq_ok, ok-injective, option_eq,
}
use scope_proof.Schema.{
  Platform, ReviewBundle, ReviewState, ReviewerSelectedReference, SelectedReferenceEvent,
  ReferenceAction,
}
use scope_proof.Bundle.Audit.{validate_reference_audit, reference_ids}
use scope_proof.Validation.{validated_review_state}
use scope_proof.Validation.Laws.{validated_review_state-eq_ok}
use scope_proof.Lifecycle.Extending.{IsExtended}
use scope_proof.Audits.Junit.{state_fingerprint, fresh_request}

pub data ReferenceStatus : Type 0 where
  active : ReferenceStatus
  ended : ReferenceAction → ReferenceStatus

unfoldable pub reference_status :
    List ReviewerSelectedReference → List SelectedReferenceEvent → String → Result ReferenceStatus
unfolding validate_reference_audit
reference_status references events reference_id = do
  validate_reference_audit references events
  raise_if (not (contains (reference_ids references) reference_id)) "unknown selected reference"
  elim (find_first (λ e. e.reference_id == reference_id) events) [
    | none ↦ ok ReferenceStatus.active
    | some event ↦ ok (ReferenceStatus.ended event.action)
  ]

-- `terminal` of `ReviewBundle.active_reviewer_selected_reference_ids`
abbrev pub terminal_ids : List SelectedReferenceEvent → List String
terminal_ids = map (λ e. e.reference_id)

unfoldable pub active_reviewer_selected_reference_ids : ReviewBundle → List String
active_reviewer_selected_reference_ids b =
    filter (λ i. not (contains (terminal_ids b.selected_reference_events) i))
      (reference_ids b.reviewer_selected_references)

unfoldable pub active_references : ReviewBundle → List ReviewerSelectedReference
unfolding active_reviewer_selected_reference_ids
active_references b =
    filter (λ r. contains (active_reviewer_selected_reference_ids b) r.reference_id)
      b.reviewer_selected_references

abbrev pick_target :
    ReviewBundle
    → Option ReviewerSelectedReference
    → Result (ReviewBundle × ReviewerSelectedReference)
pick_target b none = err "reference audit target must be an active selected reference"
pick_target b (some target) = ok (b, target)

-- `_target`, from the bundle on.
abbrev pub target_on :
    ReviewState → String → Option ReviewBundle → Result (ReviewBundle × ReviewerSelectedReference)
target_on s reference_id none = err "reference audit requires a confirmed active analysis"
target_on s reference_id (some b) = do
  raise_if (not s.criteria_revision.confirmed)
      "reference audit requires a confirmed active analysis"
  pick_target b (find_first (λ r. r.reference_id == reference_id) (active_references b))

-- What the caller gives.
pub record AuditRequest : Type 0 where
  pub reference_id : String
  pub reviewer : String
  pub reason : String
  pub expected_state_fingerprint : String
  pub event_id : String
  pub occurred_at : ℕ

abbrev pub withdrawal_event : ReviewerSelectedReference → AuditRequest → SelectedReferenceEvent
withdrawal_event target q = record {
  event_id = q.event_id;
  action = ReferenceAction.withdrawn;
  reference_id = target.reference_id;
  replacement_reference_id = none;
  review_id = target.review_id;
  repository = target.repository;
  pr_number = target.pr_number;
  head_sha = target.head_sha;
  criteria_revision_number = target.criteria_revision_number;
  confirmed_criteria_sha256 = target.confirmed_criteria_sha256;
  reviewer = q.reviewer;
  reason = q.reason;
  occurred_at = q.occurred_at;
}

abbrev pub with_reference_event : SelectedReferenceEvent → ReviewBundle → ReviewBundle
with_reference_event e b = record b {
  selected_reference_events = b.selected_reference_events ++ (e ∷ []);
}

unfoldable pub withdraw_reviewer_selected_reference :
    Platform → (ReviewState → String) → ReviewState → AuditRequest → Result ReviewState
unfolding state_fingerprint active_references
withdraw_reviewer_selected_reference P digest state q = do
  s ← validated_review_state P state
  current ← state_fingerprint P digest s
  raise_if (not (current == q.expected_state_fingerprint))
      "reference audit request is stale; refresh the active review"
  raise_if s.review.final_acceptance "revoke final acceptance before changing selected references"
  found ← target_on s q.reference_id s.bundle
  validated_review_state P
      (record s { bundle = some (with_reference_event (withdrawal_event found.1 q) found.0) })

terminal_ids-snoc :
    (events : List SelectedReferenceEvent) (e : SelectedReferenceEvent) (i : String)
    → contains (terminal_ids (events ++ (e ∷ []))) i
      ≡ (contains (terminal_ids events) i || i == e.reference_id)
terminal_ids-snoc [] e i = ground arith
terminal_ids-snoc (f ∷ events) e i = ground (arith, terminal_ids-snoc events e i)

filter-without :
    (old : String → Bool) (new : String → Bool) (gone : String) (ids : List String)
    → ((i : String) → new i ≡ (old i || i == gone))
    → filter (λ i. not (new i)) ids ≡ filter (λ i. not (i == gone)) (filter (λ i. not (old i)) ids)
filter-without old new gone [] h = refl
filter-without old new gone (i ∷ ids) h = ground (arith, h i, filter-without old new gone ids h)

-- One event more ends the reference that it names, and no other.
active-with_reference_event :
    (e : SelectedReferenceEvent) (b : ReviewBundle)
    → active_reviewer_selected_reference_ids (with_reference_event e b)
      ≡ filter (λ i. not (i == e.reference_id)) (active_reviewer_selected_reference_ids b)
unfolding active_reviewer_selected_reference_ids
active-with_reference_event e b =
    filter-without (contains (terminal_ids b.selected_reference_events))
      (contains (terminal_ids (b.selected_reference_events ++ (e ∷ [])))) e.reference_id
      (reference_ids b.reviewer_selected_references)
      (terminal_ids-snoc b.selected_reference_events e)

-- The state with one event more, which ends an active reference; all else stays.
pub record IsWithdrawn (P : Platform) (digest : ReviewState → String) (q : AuditRequest)
    (s t : ReviewState) : Type 0 where
  pub event : SelectedReferenceEvent
  pub extends : IsExtended P (with_reference_event event) s t
  pub of_action : event.action ≡ ReferenceAction.withdrawn
  pub of_reference : event.reference_id ≡ q.reference_id
  pub was_active :
      contains (active_reviewer_selected_reference_ids extends.before) q.reference_id ≡ true
  pub not_stale : digest s ≡ q.expected_state_fingerprint
  pub not_final : s.review.final_acceptance ≡ false

-- The guard of the audit finds an active reference of the active analysis.
target_on-eq_ok :
    (s : ReviewState) (i : String) (o : Option ReviewBundle) {b : ReviewBundle}
    {target : ReviewerSelectedReference}
    → target_on s i o ≡ ok (b, target)
    → (o ≡ some b)
      × (target.reference_id ≡ i)
      × (contains (active_reviewer_selected_reference_ids b) i ≡ true)
unfolding active_references
target_on-eq_ok s i none h = cc
target_on-eq_ok s i (some b) {b = b'} {target = target} h =
    let (_, h1) = >>-eq_ok (raise_if (not s.criteria_revision.confirmed) _) _ h in
    of_found _ refl h1
  where
    of_found :
        (o : Option ReviewerSelectedReference)
        → find_first (λ r. r.reference_id == i) (active_references b) ≡ o
        → pick_target b o ≡ ok (b', target)
        → (some b ≡ some b')
          × (target.reference_id ≡ i)
          × (contains (active_reviewer_selected_reference_ids b') i ≡ true)
    of_found none found p = cc
    of_found (some r) found p =
        let pairs = ok-injective (b, r) (b', target) p in
        let own : b ≡ b' = ap (λ x. x.0) pairs in
        let same : r ≡ target = ap (λ x. x.1) pairs in
        let listed =
          filter-All (λ x. contains (active_reviewer_selected_reference_ids b) x.reference_id)
            b.reviewer_selected_references in
        let (named, known) =
          find_first-eq_some
            (λ x. contains (active_reviewer_selected_reference_ids b) x.reference_id ≡ true)
            (λ x. x.reference_id == i) (active_references b) listed found in
        let name = ==→≡ r.reference_id i named in
        (
          ap some own,
          ap (λ x. x.reference_id) (sym same) ∙ name,
          subst (λ x. contains (active_reviewer_selected_reference_ids x) i ≡ true) own
              (subst (λ j. contains (active_reviewer_selected_reference_ids b) j ≡ true) name
                known),
        )

-- A withdrawal is recorded only by a request that knew the state, on a review without final
-- acceptance, and adds one event that ends an active reference; nothing else changes.
pub withdraw_reference-IsWithdrawn :
    (P : Platform) (digest : ReviewState → String) (s : ReviewState) (q : AuditRequest)
    {t : ReviewState}
    → withdraw_reviewer_selected_reference P digest s q ≡ ok t
    → IsWithdrawn P digest q s t
unfolding withdraw_reviewer_selected_reference
withdraw_reference-IsWithdrawn P digest s q {t} h =
    let (s', valid, h1) = >>=-eq_ok (validated_review_state P s) _ h in
    let (_, same) = validated_review_state-eq_ok P s s' valid in
    let (current, read, h2) = >>=-eq_ok (state_fingerprint P digest s') _ h1 in
    let (guard, h3) = >>-eq_ok (raise_if (not (current == q.expected_state_fingerprint)) _) _ h2 in
    let known =
      fresh_request P digest s' q.expected_state_fingerprint read (raise_if-eq_ok _ _ guard) in
    let (unaccepted, h4) = >>-eq_ok (raise_if s'.review.final_acceptance _) _ h3 in
    let (found, p, stored) = >>=-eq_ok (target_on s' q.reference_id s'.bundle) _ h4 in
    let (analysed, name, listed) = target_on-eq_ok s' q.reference_id s'.bundle p in
    let event = withdrawal_event found.1 q in
    let (checked, result) =
      validated_review_state-eq_ok P
        (record s' { bundle = some (with_reference_event event found.0) }) t stored in
    rw same record {
      event = event;
      extends = record {
        valid = checked;
        before = found.0;
        active = analysed;
        result = sym result;
      };
      of_action = refl;
      of_reference = name;
      was_active = listed;
      not_stale = known;
      not_final = raise_if-eq_ok _ _ unaccepted;
    }

-- After a withdrawal the active references are those before it but the withdrawn one.
pub IsWithdrawn-active :
    (P : Platform) (digest : ReviewState → String) (q : AuditRequest) (s t : ReviewState)
    → IsWithdrawn P digest q s t
    → (before after : ReviewBundle) × (s.bundle ≡ some before)
      × (t.bundle ≡ some after)
      × (active_reviewer_selected_reference_ids after
          ≡ filter (λ i. not (i == q.reference_id)) (active_reviewer_selected_reference_ids before))
IsWithdrawn-active P digest q s t r = (
  r.extends.before,
  with_reference_event r.event r.extends.before,
  r.extends.active,
  ap (λ x. x.bundle) r.extends.result,
  subst
      (λ i.
        active_reviewer_selected_reference_ids (with_reference_event r.event r.extends.before)
        ≡ filter (λ j. not (j == i)) (active_reviewer_selected_reference_ids r.extends.before))
      r.of_reference (active-with_reference_event r.event r.extends.before),
)
