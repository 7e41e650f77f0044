-- ===== src/Gate.antt =====
-- scopeproof_core/gates/evaluator.py: the gate, from raw records to a verdict with reason codes.
pub mod Rounds
pub mod Verdicts
pub mod Settled
pub mod Ready
pub mod Wellformed
use scope_proof.Base.{
  String, Bool, true, false, not, ◌&&◌, ◌||◌, Option, none, some, List, [], ◌∷◌, ◌++◌, map,
  if◌then◌else◌, ◌==◌, string_eq, contains, nodup, same_members, set_add, distinct, any, all,
  last_by, sorted, is_empty, is_some, is_none,
}
use scope_proof.Schema.{
  Platform, Review, Criterion, Finding, HumanResolution, HumanDecision, EvidenceItem,
  FileScopeDecision, FindingStatus, CheckState, IngestionState, GateDecision, GateVerdict,
  is_must_have, is_complete, is_failing, is_resolved_decision, CriteriaSourceProvenance,
}
use scope_proof.FileScope.{unresolved_changed_file_paths}

-- `if condition: reason_codes.append(code)`
abbrev pub when : Bool → String → List String
when condition code = if condition then code ∷ [] else []

abbrev pub criterion_ids : List Criterion → List String
criterion_ids = map (λ c. c.criterion_id)

abbrev pub finding_ids : List Finding → List String
finding_ids = map (λ f. f.criterion_id)

abbrev pub resolution_ids : List HumanResolution → List String
resolution_ids = map (λ r. r.criterion_id)

-- The provenance of a review without criteria is not compared.
abbrev pub digest_differs : Platform → Option CriteriaSourceProvenance → List Criterion → Bool
digest_differs P none criteria = false
digest_differs P (some p) criteria =
    not (is_empty criteria) && not (p.normalized_criteria_sha256 == P.criteria_sha256 criteria)

-- The reasons that `_invalid_gate_input` collects.
unfoldable pub input_faults :
    Platform → Review → List Criterion → List Finding → List HumanResolution → List String
input_faults P review criteria findings resolutions =
    when (not (nodup (criterion_ids criteria))) "duplicate_criterion_ids"
    ++ (when (not (nodup (finding_ids findings))) "duplicate_finding_ids"
        ++ (when (not (nodup (resolution_ids resolutions))) "duplicate_resolution_ids"
            ++ (when (not (same_members (finding_ids findings) (criterion_ids criteria)))
                  "finding_coverage_mismatch"
                ++ (when
                      (any (λ i. not (contains (criterion_ids criteria) i))
                        (resolution_ids resolutions))
                      "resolution_references_unknown_criteria"
                    ++ when (digest_differs P review.criteria_source_provenance criteria)
                        "criteria_provenance_mismatch"))))

unfoldable pub invalid_gate_input :
    Platform → Review → List Criterion → List Finding → List HumanResolution → Option GateDecision
invalid_gate_input P review criteria findings resolutions =
    let faults = input_faults P review criteria findings resolutions in
    if is_empty faults
    then none
    else some (record {
      verdict = GateVerdict.needs_review;
      blocking_criteria = [];
      conditional_criteria = [];
      unresolved_criteria = sorted (distinct (criterion_ids criteria));
      resolved_exceptions = [];
      reason_codes = "gate_input_invalid" ∷ faults;
    })

-- The sets that the loop over the criteria fills.
pub record Tally : Type 0 where
  pub blocking : List String
  pub conditional : List String
  pub unresolved : List String
  pub exceptions : List String
  pub reconfirmation_required : Bool

abbrev pub no_tally : Tally
no_tally = record {
  blocking = [];
  conditional = [];
  unresolved = [];
  exceptions = [];
  reconfirmation_required = false;
}

abbrev pub is_resolved : Option HumanDecision → Bool
is_resolved none = false
is_resolved (some d) = is_resolved_decision d

-- A criterion with evidence missing or partial.
abbrev pub tally_gap : Criterion → Tally → Tally
tally_gap c t =
    if is_must_have c.priority
    then record t { blocking = set_add c.criterion_id t.blocking }
    else record t { conditional = set_add c.criterion_id t.conditional }

abbrev pub tally_unresolved : Criterion → Tally → Tally
tally_unresolved c t = record t { unresolved = set_add c.criterion_id t.unresolved }

abbrev pub tally_status : Criterion → Option HumanDecision → FindingStatus → Tally → Tally
tally_status c d FindingStatus.missing t = tally_gap c t
tally_status c d FindingStatus.partial t = tally_gap c t
tally_status c d FindingStatus.needs_review t = tally_unresolved c t
tally_status c d _ t =
    if is_must_have c.priority && not (is_resolved d) then tally_unresolved c t else t

abbrev pub tally_finding : Criterion → Option HumanDecision → Option Finding → Tally → Tally
tally_finding c d none t = tally_unresolved c t
tally_finding c d (some f) t = tally_status c d f.status t

-- A decision, with the resolution's runtime evidence ID.
abbrev pub tally_decision :
    Criterion → Option Finding → Option String → HumanDecision → Tally → Tally
tally_decision c f id HumanDecision.change_required t = record t {
  blocking = set_add c.criterion_id t.blocking;
}
tally_decision c f id HumanDecision.accepted_exception t = record t {
  exceptions = set_add c.criterion_id t.exceptions;
  conditional = set_add c.criterion_id t.conditional;
}
tally_decision c f id HumanDecision.not_in_scope t = record t {
  exceptions = set_add c.criterion_id t.exceptions;
}
tally_decision c f none HumanDecision.manually_verified t = record t {
  unresolved = set_add c.criterion_id t.unresolved;
  reconfirmation_required = true;
}
tally_decision c f (some id) HumanDecision.manually_verified t = t
tally_decision c f id HumanDecision.accepted t = t
tally_decision c f id HumanDecision.rejected_finding t =
    tally_finding c (some HumanDecision.rejected_finding) f t

-- The body of the loop.
unfoldable pub tally_criterion : Criterion → Option Finding → Option HumanResolution → Tally → Tally
tally_criterion c f none t = tally_finding c none f t
tally_criterion c f (some r) t = tally_decision c f r.runtime_evidence_id r.decision t

unfoldable pub tally_criteria : List Finding → List HumanResolution → List Criterion → Tally → Tally
unfolding tally_criterion
tally_criteria findings resolutions [] t = t
tally_criteria findings resolutions (c ∷ cs) t = tally_criteria findings resolutions cs (
    tally_criterion c (last_by (λ f. f.criterion_id) c.criterion_id findings)
      (last_by (λ r. r.criterion_id) c.criterion_id resolutions) t)

abbrev pub has_limitations : Review → Bool
has_limitations review =
    not (is_empty review.ingestion_warnings) || not (is_empty review.skipped_files)

-- `check_state in {PENDING, UNAVAILABLE}`
abbrev pub is_not_observed : CheckState → Bool
is_not_observed CheckState.pending = true
is_not_observed CheckState.unavailable = true
is_not_observed _ = false

unfoldable pub is_blocked : Review → Tally → Bool
is_blocked review t = is_failing review.check_state || not (is_empty t.blocking)

abbrev pub ingestion_codes : Review → List String
ingestion_codes review = elim review.ingestion_state [
  | IngestionState.partial ↦ "partial_ingestion" ∷ []
  | IngestionState.failed ↦ "ingestion_failed" ∷ []
  | IngestionState.complete ↦ []
]

abbrev pub file_codes : Option (List String) → List String
file_codes none = "changed_file_inventory_unknown" ∷ []
file_codes (some files) = when (not (is_empty files)) "uncited_changed_files"

-- `unresolved_files is None or unresolved_files`
abbrev pub has_open_files : Option (List String) → Bool
has_open_files none = true
has_open_files (some files) = not (is_empty files)

unfoldable pub requires_review : Review → List Criterion → Tally → Option (List String) → Bool
requires_review review criteria t files =
    is_empty criteria
    || not (is_empty t.unresolved)
    || not review.criteria_confirmed
    || is_none review.criteria_source_provenance
    || not (is_complete review.ingestion_state)
    || has_limitations review
    || has_open_files files
    || is_not_observed review.check_state

-- The codes that are appended before the verdict is chosen.
abbrev pub first_codes : Review → List Criterion → Tally → List String
first_codes review criteria t =
    when (is_empty criteria) "criteria_missing"
    ++ (when (is_failing review.check_state) "required_checks_failing"
        ++ (when (not (is_empty t.blocking)) "blocking_criteria"
            ++ (when (not (is_empty t.conditional)) "conditional_criteria"
                ++ (when (not (is_empty t.unresolved)) "unresolved_criteria"
                    ++ when t.reconfirmation_required
                        "runtime_verification_reconfirmation_required"))))

-- The codes of a review that is not blocked.
abbrev pub review_codes : Review → Option (List String) → List String
review_codes review files =
    when (not review.criteria_confirmed) "criteria_not_confirmed"
    ++ (when (is_none review.criteria_source_provenance) "criteria_source_provenance_missing"
        ++ (ingestion_codes review
            ++ (when (is_not_observed review.check_state) "checks_not_passing"
                ++ (when (has_limitations review && is_complete review.ingestion_state)
                      "ingestion_limitations_present"
                    ++ file_codes files))))

-- The verdict and the codes that its choice appends.
unfoldable pub judge :
    Review → List Criterion → Tally → Option (List String) → GateVerdict × List String
judge review criteria t files =
    if is_blocked review t
    then (GateVerdict.blocked, [])
    else if requires_review review criteria t files
    then (GateVerdict.needs_review, review_codes review files)
    else if not (is_empty t.conditional) || not (is_empty t.exceptions)
    then (GateVerdict.conditional, review_codes review files)
    else if not review.final_acceptance
    then (GateVerdict.needs_review, review_codes review files ++ "final_acceptance_required" ∷ [])
    else (GateVerdict.ready, review_codes review files)

unfoldable pub decide_gate : Review → List Criterion → Tally → Option (List String) → GateDecision
decide_gate review criteria t files =
    let (verdict, codes) = judge review criteria t files in
    record {
      verdict = verdict;
      blocking_criteria = sorted t.blocking;
      conditional_criteria = sorted t.conditional;
      unresolved_criteria = sorted t.unresolved;
      resolved_exceptions = sorted t.exceptions;
      reason_codes = distinct (first_codes review criteria t ++ codes);
    }

unfoldable pub evaluate_gate :
    Platform
    → Review
    → List Criterion
    → List Finding
    → List HumanResolution
    → List EvidenceItem
    → List FileScopeDecision
    → GateDecision
evaluate_gate P review criteria findings resolutions evidence decisions =
    elim (invalid_gate_input P review criteria findings resolutions) [
      | some invalid ↦ invalid
      | none ↦
          decide_gate review criteria (tally_criteria findings resolutions criteria no_tally)
            (unresolved_changed_file_paths review findings evidence decisions)
    ]
