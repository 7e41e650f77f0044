-- ===== src/Gate/Wellformed.antt =====
-- The lists of criterion IDs in a gate decision.
use scope_proof.Base.{
  ◌≡◌, refl, String, Bool, true, ◌&&◌, ◌||◌, List, [], ◌∷◌, ◌==◌, Option, string_eq, contains,
  nodup, subset, subset-of_members, distinct, distinct_onto-nodup, contains-distinct_onto, sorted,
  sorted-nodup, contains-sorted, is_empty, arith, Bool-cases, inl, inr,
}
use scope_proof.Schema.{
  Platform, Review, Criterion, Finding, HumanResolution, EvidenceItem, FileScopeDecision,
  GateDecision, GateVerdict,
}
use scope_proof.Gate.{
  Tally, no_tally, criterion_ids, input_faults, invalid_gate_input, tally_criteria, decide_gate,
  evaluate_gate,
}
use scope_proof.FileScope.{unresolved_changed_file_paths}
use scope_proof.Gate.Rounds.{
  Part, blocking, conditional, unresolved, exceptions, part, calls, stands_in,
  contains-tally_criteria, tally_criteria-nodup,
}

-- The list of a gate decision that shows a set.
abbrev pub gate_list : Part → GateDecision → List String
gate_list blocking g = g.blocking_criteria
gate_list conditional g = g.conditional_criteria
gate_list unresolved g = g.unresolved_criteria
gate_list exceptions g = g.resolved_exceptions

-- No ID twice, and only IDs of the criteria.
pub record IsListing (ids : List String) (ks : List String) : Type 0 where
  pub unique : nodup ks ≡ true
  pub known : subset ks ids ≡ true

calls-known :
    (findings : List Finding) (resolutions : List HumanResolution) (p : Part) (k : String)
    (cs : List Criterion)
    → calls findings resolutions p k cs ≡ true
    → contains (criterion_ids cs) k ≡ true
calls-known findings resolutions p k [] h = cc
calls-known findings resolutions p k (c ∷ cs) h =
    known (k == c.criterion_id) (stands_in findings resolutions p c)
      (calls findings resolutions p k cs) (contains (criterion_ids cs) k)
      (calls-known findings resolutions p k cs) h
  where
    known :
        (same in_set later listed : Bool)
        → (later ≡ true → listed ≡ true)
        → ((same && in_set) || later) ≡ true
        → (same || listed) ≡ true
    known same in_set later listed f h = ground arith

sorted-IsListing :
    (ids ks : List String)
    → nodup ks ≡ true
    → ((k : String) → contains ks k ≡ true → contains ids k ≡ true)
    → IsListing ids (sorted ks)
sorted-IsListing ids ks u h = record {
  unique = sorted-nodup ks u;
  known = subset-of_members (sorted ks) ids (λ k m. h k (rw contains-sorted at m));
}

nil-IsListing : (ids : List String) → IsListing ids []
nil-IsListing ids = record { unique = refl; known = refl }

part-no_tally : (p : Part) → part p no_tally ≡ []
part-no_tally blocking = refl
part-no_tally conditional = refl
part-no_tally unresolved = refl
part-no_tally exceptions = refl

module _ (review : Review) (criteria : List Criterion) (findings : List Finding)
    (resolutions : List HumanResolution) where
  abbrev tally : Tally
  tally = tally_criteria findings resolutions criteria no_tally

  part-tally-known :
      (p : Part) (k : String)
      → contains (part p tally) k ≡ true
      → contains (criterion_ids criteria) k ≡ true
  part-tally-known p k m = calls-known findings resolutions p k criteria (
      rw (contains-tally_criteria findings resolutions p criteria no_tally k, part-no_tally p) at m)

  part-tally-IsListing : (p : Part) → IsListing (criterion_ids criteria) (sorted (part p tally))
  part-tally-IsListing p =
      sorted-IsListing (criterion_ids criteria) (part p tally)
        (tally_criteria-nodup findings resolutions p criteria no_tally (rw (part-no_tally p)))
        (part-tally-known p)

  decide_gate-IsListing :
      (files : Option (List String)) (p : Part)
      → IsListing (criterion_ids criteria) (gate_list p (decide_gate review criteria tally files))
  unfolding decide_gate
  decide_gate-IsListing files blocking = part-tally-IsListing blocking
  decide_gate-IsListing files conditional = part-tally-IsListing conditional
  decide_gate-IsListing files unresolved = part-tally-IsListing unresolved
  decide_gate-IsListing files exceptions = part-tally-IsListing exceptions

all_ids-IsListing : (ids : List String) → IsListing ids (sorted (distinct ids))
all_ids-IsListing ids =
    sorted-IsListing ids (distinct ids) (distinct_onto-nodup [] ids refl)
      (λ k m. rw (contains-distinct_onto [] ids k) at m)

-- On every input, also a malformed one, each list of the gate decision names criteria of the review
-- only, and none of them twice.
pub evaluate_gate-IsListing :
    (P : Platform) (review : Review) (criteria : List Criterion) (findings : List Finding)
    (resolutions : List HumanResolution) (evidence : List EvidenceItem)
    (decisions : List FileScopeDecision) (p : Part)
    → IsListing
        (criterion_ids criteria)
        (gate_list p (evaluate_gate P review criteria findings resolutions evidence decisions))
unfolding evaluate_gate invalid_gate_input
evaluate_gate-IsListing P review criteria findings resolutions evidence decisions p =
    elim (Bool-cases (is_empty (input_faults P review criteria findings resolutions))) [
      | inl valid ↦
          rw (valid, evaluate_gate)
            (decide_gate-IsListing review criteria findings resolutions
              (unresolved_changed_file_paths review findings evidence decisions) p)
      | inr malformed ↦ rw (malformed, evaluate_gate) (of_invalid p)
    ]
  where
    of_invalid :
        (q : Part)
        → IsListing (criterion_ids criteria) (
            gate_list q (record {
              verdict = GateVerdict.needs_review;
              blocking_criteria = [];
              conditional_criteria = [];
              unresolved_criteria = sorted (distinct (criterion_ids criteria));
              resolved_exceptions = [];
              reason_codes =
                  "gate_input_invalid" ∷ input_faults P review criteria findings resolutions;
            }))
    of_invalid blocking = nil-IsListing (criterion_ids criteria)
    of_invalid conditional = nil-IsListing (criterion_ids criteria)
    of_invalid unresolved = all_ids-IsListing (criterion_ids criteria)
    of_invalid exceptions = nil-IsListing (criterion_ids criteria)
