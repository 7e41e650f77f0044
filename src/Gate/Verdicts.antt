-- ===== src/Gate/Verdicts.antt =====
-- Which verdict the gate returns.
use scope_proof.Base.{
  ◌≡◌, refl, ◌∙◌, String, Bool, true, false, not, ◌||◌, Option, List, [], if◌then◌else◌, any,
  is_empty, is_none, arith, Bool-cases, inl, inr,
}
use scope_proof.Schema.{
  Platform, Review, Criterion, Finding, HumanResolution, EvidenceItem, FileScopeDecision,
  GateVerdict, is_complete, is_failing,
}
use scope_proof.FileScope.{unresolved_changed_file_paths}
use scope_proof.Gate.{
  Tally, no_tally, input_faults, invalid_gate_input, tally_criteria, evaluate_gate, decide_gate,
  judge, is_blocked, requires_review, has_limitations, has_open_files, is_not_observed,
}
use scope_proof.Gate.Rounds.{
  Part, blocking, conditional, unresolved, exceptions, part, stands_in, is_empty-tally_criteria,
}

-- The test for unresolved criteria moves behind the tests of the review.
regroup :
    (a u b c d e f g : Bool)
    → (a || not (not u) || b || c || d || e || f || g) ≡ ((a || b || c || d || e || f || g) || u)
regroup a u b c d e f g = ground arith

ladder :
    (b r c f : Bool) (codes more : List String)
    → let chosen : GateVerdict × List String =
        if b
        then (GateVerdict.blocked, [])
        else if r
        then (GateVerdict.needs_review, codes)
        else if c
        then (GateVerdict.conditional, codes)
        else if not f
        then (GateVerdict.needs_review, more)
        else (GateVerdict.ready, codes) in
      chosen.0 ≡ (
        if b
        then GateVerdict.blocked
        else if r
        then GateVerdict.needs_review
        else if c
        then GateVerdict.conditional
        else if f
        then GateVerdict.ready
        else GateVerdict.needs_review)
ladder b r c f codes more = ground arith

module _ (P : Platform) (review : Review) (criteria : List Criterion) (findings : List Finding)
    (resolutions : List HumanResolution) (evidence : List EvidenceItem)
    (decisions : List FileScopeDecision) where
  abbrev pub faults : List String
  faults = input_faults P review criteria findings resolutions

  abbrev pub open_files : Option (List String)
  open_files = unresolved_changed_file_paths review findings evidence decisions

  -- Some criterion belongs to the set.
  abbrev pub some_criterion : Part → Bool
  some_criterion p = any (stands_in findings resolutions p) criteria

  -- The review's own limits: confirmation, provenance, ingestion, files and checks.
  abbrev pub is_limited : Bool
  is_limited =
      is_empty criteria
      || not review.criteria_confirmed
      || is_none review.criteria_source_provenance
      || not (is_complete review.ingestion_state)
      || has_limitations review
      || has_open_files open_files
      || is_not_observed review.check_state

  -- The documented precedence: malformed input, then blockers, then what is unresolved, then
  -- exceptions, and final acceptance last.
  abbrev pub verdict_reference : GateVerdict
  verdict_reference =
      if not (is_empty faults)
      then GateVerdict.needs_review
      else if is_failing review.check_state || some_criterion blocking
      then GateVerdict.blocked
      else if is_limited || some_criterion unresolved
      then GateVerdict.needs_review
      else if some_criterion conditional || some_criterion exceptions
      then GateVerdict.conditional
      else if review.final_acceptance
      then GateVerdict.ready
      else GateVerdict.needs_review

  abbrev tally : Tally
  tally = tally_criteria findings resolutions criteria no_tally

  is_empty-part : (p : Part) → is_empty (part p no_tally) ≡ true
  is_empty-part blocking = refl
  is_empty-part conditional = refl
  is_empty-part unresolved = refl
  is_empty-part exceptions = refl

  is_empty-part-tally : (p : Part) → is_empty (part p tally) ≡ not (some_criterion p)
  is_empty-part-tally p =
      is_empty-tally_criteria findings resolutions p criteria no_tally ∙ rw (is_empty-part p)

  is_blocked-tally :
      is_blocked review tally ≡ (is_failing review.check_state || some_criterion blocking)
  unfolding is_blocked
  is_blocked-tally = rw (is_empty-part-tally blocking) (ground arith)

  requires_review-tally :
      requires_review review criteria tally open_files ≡ (is_limited || some_criterion unresolved)
  unfolding requires_review
  requires_review-tally = rw (is_empty-part-tally unresolved) (
      regroup (is_empty criteria) (some_criterion unresolved) (not review.criteria_confirmed)
        (is_none review.criteria_source_provenance) (not (is_complete review.ingestion_state))
        (has_limitations review) (has_open_files open_files) (is_not_observed review.check_state))

  is_conditional-tally :
      (not (is_empty tally.conditional) || not (is_empty tally.exceptions))
      ≡ (some_criterion conditional || some_criterion exceptions)
  is_conditional-tally =
      rw (is_empty-part-tally conditional, is_empty-part-tally exceptions) (ground arith)

  -- The part of the precedence that comes after the test for malformed input.
  abbrev judged_reference : GateVerdict
  judged_reference =
      if is_failing review.check_state || some_criterion blocking
      then GateVerdict.blocked
      else if is_limited || some_criterion unresolved
      then GateVerdict.needs_review
      else if some_criterion conditional || some_criterion exceptions
      then GateVerdict.conditional
      else if review.final_acceptance
      then GateVerdict.ready
      else GateVerdict.needs_review

  verdict-judge : (judge review criteria tally open_files).0 ≡ judged_reference
  unfolding judge
  verdict-judge =
      rw (is_blocked-tally, requires_review-tally, is_conditional-tally)
        (ladder (is_failing review.check_state || some_criterion blocking)
          (is_limited || some_criterion unresolved)
          (some_criterion conditional || some_criterion exceptions) review.final_acceptance _ _)

  evaluate_gate-valid :
      is_empty faults ≡ true
      → evaluate_gate P review criteria findings resolutions evidence decisions
        ≡ decide_gate review criteria tally open_files
  unfolding evaluate_gate invalid_gate_input
  evaluate_gate-valid h = rw (h, evaluate_gate)

  verdict-of_invalid :
      is_empty faults ≡ false
      → (evaluate_gate P review criteria findings resolutions evidence decisions).verdict
        ≡ GateVerdict.needs_review
  unfolding evaluate_gate invalid_gate_input
  verdict-of_invalid h = rw (h, evaluate_gate)

  -- The verdict follows the precedence over the standing of each criterion and the review's limits.
  pub verdict-evaluate_gate :
      (evaluate_gate P review criteria findings resolutions evidence decisions).verdict
      ≡ verdict_reference
  unfolding decide_gate
  verdict-evaluate_gate = elim (Bool-cases (is_empty faults)) [
    | inl valid ↦ rw (evaluate_gate-valid valid, valid) verdict-judge
    | inr malformed ↦ rw malformed (verdict-of_invalid malformed)
  ]
