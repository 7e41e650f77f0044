-- ===== src/Events/Totality.antt =====
-- `current_resolutions` of scopeproof_core/resolution_events.py on events that are valid.
use scope_proof.Base.{
  ◌≡◌, refl, subst, ℕ, String, Bool, true, false, Option, none, some, List, [], ◌∷◌, ok, raise_if,
  each, each-eq_ok→All, All, map_ok, >>-eq_ok, raise_if-eq_ok, Dict, Entries, insert-Entries,
  sorted_items, sorted_items-Entries, ◌==◌, nat_eq, arith, Bool-cases, Option-cases, inl, inr, ◌⊎◌,
  is_some, is_none, ◌&&◌, not, is_blank, bool_eq, string_eq,
}
use scope_proof.Schema.{ResolutionEvent, HumanResolution, HumanDecision, is_manual}
use scope_proof.Events.{
  construct, to_resolution, validate_resolution, validate_event, fill_latest, record_event,
  current_resolutions, decides_manually,
}
use scope_proof.Events.Laws.{HasKey, fill_latest-Entries}

-- The two kinds of events are told apart by what they carry.
abbrev is_mixed : ResolutionEvent → Bool
is_mixed e =
    (is_some e.criterion_id && is_some e.decision)
    == (is_none e.criterion_id && is_some e.final_acceptance)

-- What the validator has established of a criterion decision.
record Decided (e : ResolutionEvent) : Type 0 where
  decided : is_some e.decision ≡ true
  unlinked : (is_some e.runtime_evidence_id && not (decides_manually e.decision)) ≡ false
  claimed : (decides_manually e.decision && is_none e.claimed_evidence_level) ≡ false
  noted : (decides_manually e.decision && is_blank e.comment) ≡ false

validate_event→Decided :
    (e : ResolutionEvent) (k : String)
    → e.criterion_id ≡ some k
    → validate_event e ≡ ok tt
    → Decided e
unfolding validate_event
validate_event→Decided e k here h =
    let (_, h1) = >>-eq_ok (raise_if (is_blank e.event_id) _) _ h in
    let (_, h2) = >>-eq_ok (raise_if (is_blank e.reviewer) _) _ h1 in
    let (kind, h3) = >>-eq_ok (raise_if (is_mixed e) _) _ h2 in
    let (link, h4) =
      >>-eq_ok (raise_if (is_some e.runtime_evidence_id && not (decides_manually e.decision)) _) _
        h3 in
    let (_, h5) =
      >>-eq_ok (raise_if (is_some e.claimed_evidence_level && not (decides_manually e.decision)) _)
        _ h4 in
    let (claim, note) =
      >>-eq_ok (raise_if (decides_manually e.decision && is_none e.claimed_evidence_level) _) _
        h5 in
    record {
      decided = ground (arith, here, raise_if-eq_ok (is_mixed e) _ kind);
      unlinked =
          raise_if-eq_ok (is_some e.runtime_evidence_id && not (decides_manually e.decision)) _
            link;
      claimed =
          raise_if-eq_ok (decides_manually e.decision && is_none e.claimed_evidence_level) _ claim;
      noted = raise_if-eq_ok (decides_manually e.decision && is_blank e.comment) _ note;
    }

abbrev built : ResolutionEvent → String → HumanDecision → HumanResolution
built e k d = record {
  criterion_id = k;
  decision = d;
  comment = e.comment;
  evidence_url = e.evidence_url;
  claimed_evidence_level = e.claimed_evidence_level;
  runtime_evidence_id = e.runtime_evidence_id;
  reviewer = e.reviewer;
  timestamp = e.timestamp;
}

construct-total :
    (e : ResolutionEvent) (k : String) (d : Option HumanDecision)
    → e.decision ≡ d
    → Decided e
    → (r : HumanResolution) × (construct e (some k) d ≡ ok r)
unfolding construct validate_resolution
construct-total e k none p q = absurd (ground (arith, q.decided, p))
construct-total e k (some d) p q = (built e k d, rw (unlinked, claimed, noted) refl)
  where
    unlinked : (is_some e.runtime_evidence_id && not (is_manual d)) ≡ false
    unlinked =
        subst (λ o. (is_some e.runtime_evidence_id && not (decides_manually o)) ≡ false) p
          q.unlinked

    claimed : (is_manual d && is_none e.claimed_evidence_level) ≡ false
    claimed =
        subst (λ o. (decides_manually o && is_none e.claimed_evidence_level) ≡ false) p q.claimed

    noted : (is_manual d && is_blank e.comment) ≡ false
    noted = subst (λ o. (decides_manually o && is_blank e.comment) ≡ false) p q.noted

to_resolution-total :
    (e : ResolutionEvent) (k : String)
    → e.criterion_id ≡ some k
    → validate_event e ≡ ok tt
    → (r : HumanResolution) × (to_resolution e ≡ ok r)
unfolding to_resolution
to_resolution-total e k here h =
    rw here (construct-total e k e.decision refl (validate_event→Decided e k here h))

abbrev Valid : String → ResolutionEvent → Type 0
Valid k e = validate_event e ≡ ok tt

fill_latest-Valid :
    (n : ℕ) (es : List ResolutionEvent) (d : Dict String ResolutionEvent)
    → All (λ e. validate_event e ≡ ok tt) es
    → Entries Valid d
    → Entries Valid (fill_latest n es d)
unfolding fill_latest
fill_latest-Valid n [] d q h = h
fill_latest-Valid n (e ∷ es) d q h =
    fill_latest-Valid n es (record_event n e d) q.1 (step (Option-cases e.criterion_id))
  where
    step :
        (e.criterion_id ≡ none) ⊎ ((k : String) × (e.criterion_id ≡ some k))
        → Entries Valid (record_event n e d)
    step (inl absent) = rw (absent, record_event) h
    step (inr (k, here)) = elim (Bool-cases (e.criteria_revision_number == n)) [
      | inl active ↦ rw (here, active, record_event) (insert-Entries Valid k e d q.0 h)
      | inr other ↦ rw (here, other, record_event) h
    ]

map_ok-total :
    (d : Dict String ResolutionEvent)
    → Entries HasKey d
    → Entries Valid d
    → (rs : List HumanResolution) × (map_ok (λ (_, e). to_resolution e) d ≡ ok rs)
map_ok-total [] keyed valid = ([], refl)
map_ok-total ((k, e) ∷ d) keyed valid =
    let (r, first) = to_resolution-total e k keyed.0 valid.0 in
    let (rs, rest) = map_ok-total d keyed.1 valid.1 in (r ∷ rs, rw (first, rest) refl)

-- On events that are valid one by one, `current_resolutions` returns: the resolutions that it builds
-- pass their own validation.
pub current_resolutions-total :
    (events : List ResolutionEvent) (n : ℕ)
    → each validate_event events ≡ ok tt
    → (rs : List HumanResolution) × (current_resolutions events (some n) ≡ ok rs)
unfolding current_resolutions
current_resolutions-total events n h =
    map_ok-total (sorted_items (fill_latest n events []))
      (sorted_items-Entries HasKey (fill_latest n events []) (fill_latest-Entries n events [] tt))
      (sorted_items-Entries Valid (fill_latest n events [])
        (fill_latest-Valid n events [] (each-eq_ok→All validate_event events h) tt))
