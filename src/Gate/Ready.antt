-- ===== src/Gate/Ready.antt =====
-- What a ready verdict promises.
use scope_proof.Base.{
  ◌≡◌, ◌∙◌, ◌↔◌, Bool, true, false, not, ◌||◌, some, List, [], is_empty, is_some, is_none, arith,
  sym,
}
use scope_proof.Schema.{
  Platform, Review, Criterion, Finding, HumanResolution, EvidenceItem, FileScopeDecision,
  IngestionState, GateVerdict, is_complete, is_failing,
}
use scope_proof.FileScope.{unresolved_changed_file_paths}
use scope_proof.Gate.{input_faults, evaluate_gate, has_limitations, is_not_observed, has_open_files}
use scope_proof.Gate.Rounds.{Part, blocking, conditional, unresolved, exceptions, blocks}
use scope_proof.Gate.Verdicts.{faults, is_limited, verdict_reference, verdict-evaluate_gate}
use scope_proof.Gate.Settled.{
  calls_for, settled_of_sets, sets_of_settled, IsReady, is_empty→≡, complete_of_test,
  passing_of_tests, files_of_test, or-eq_false, chosen-ready, ready-chosen, or_all,
}

module _ (P : Platform) (review : Review) (criteria : List Criterion) (findings : List Finding)
    (resolutions : List HumanResolution) (evidence : List EvidenceItem)
    (decisions : List FileScopeDecision) where
  abbrev limited : Bool
  limited = is_limited P review criteria findings resolutions evidence decisions

  limits :
      limited ≡ false
      → (is_empty criteria ≡ false)
        × (review.criteria_confirmed ≡ true)
        × (is_some review.criteria_source_provenance ≡ true)
        × (review.ingestion_state ≡ IngestionState.complete)
        × (review.ingestion_warnings ≡ [])
        × (review.skipped_files ≡ [])
        × (unresolved_changed_file_paths review findings evidence decisions ≡ some [])
        × (is_not_observed review.check_state ≡ false)
  limits h =
      let (e, c, s, i, l, f, o) =
        or_all (is_empty criteria) (not review.criteria_confirmed)
          (is_none review.criteria_source_provenance) (not (is_complete review.ingestion_state))
          (has_limitations review)
          (has_open_files (unresolved_changed_file_paths review findings evidence decisions))
          (is_not_observed review.check_state) h in
      (
        e,
        ground arith,
        ground arith,
        complete_of_test review.ingestion_state (ground arith),
        is_empty→≡ review.ingestion_warnings (ground arith),
        is_empty→≡ review.skipped_files (ground arith),
        files_of_test (unresolved_changed_file_paths review findings evidence decisions) f,
        o,
      )

  unlimited : IsReady P review criteria findings resolutions evidence decisions → limited ≡ false
  unlimited q =
      rw (q.all_files, q.nonempty, q.confirmed, q.complete, q.no_warnings, q.no_skips, q.passing)
        (ground (arith, q.sourced))

  -- The gate is ready exactly if its input is well formed, every limit of the review is lifted, every
  -- criterion is settled, every changed file is accounted for and final acceptance is recorded.
  pub evaluate_gate-IsReady :
      ((evaluate_gate P review criteria findings resolutions evidence decisions).verdict
        ≡ GateVerdict.ready)
      ↔ IsReady P review criteria findings resolutions evidence decisions
  evaluate_gate-IsReady = (to, from)
    where
      verdict :
          (evaluate_gate P review criteria findings resolutions evidence decisions).verdict
          ≡ verdict_reference P review criteria findings resolutions evidence decisions
      verdict = verdict-evaluate_gate P review criteria findings resolutions evidence decisions

      calls : Part → Bool
      calls p = calls_for findings resolutions p criteria

      to :
          (evaluate_gate P review criteria findings resolutions evidence decisions).verdict
            ≡ GateVerdict.ready
          → IsReady P review criteria findings resolutions evidence decisions
      to h =
          let (i, b, r, d, f) =
            chosen-ready
              (is_empty (faults P review criteria findings resolutions evidence decisions))
              (is_failing review.check_state || calls blocking) (limited || calls unresolved)
              (calls conditional || calls exceptions) review.final_acceptance (sym verdict ∙ h) in
          let (failing, blocks) = or-eq_false (is_failing review.check_state) (calls blocking) b in
          let (free, opens) = or-eq_false limited (calls unresolved) r in
          let (gaps, excepts) = or-eq_false (calls conditional) (calls exceptions) d in
          let (e, c, s, g, w, k, o, n) = limits free in
          record {
            wellformed = is_empty→≡ (input_faults P review criteria findings resolutions) i;
            nonempty = e;
            passing = passing_of_tests review.check_state failing n;
            confirmed = c;
            sourced = s;
            complete = g;
            no_warnings = w;
            no_skips = k;
            all_files = o;
            settled = settled_of_sets findings resolutions criteria (elim [
              | blocking ↦ blocks
              | conditional ↦ gaps
              | unresolved ↦ opens
              | exceptions ↦ excepts
            ]);
            final = f;
          }

      from :
          IsReady P review criteria findings resolutions evidence decisions
          → (evaluate_gate P review criteria findings resolutions evidence decisions).verdict
            ≡ GateVerdict.ready
      from q =
          let held : (p : Part) → calls p ≡ false =
            sets_of_settled findings resolutions criteria q.settled in
          verdict
          ∙ ready-chosen
              (is_empty (faults P review criteria findings resolutions evidence decisions))
              (is_failing review.check_state || calls blocking) (limited || calls unresolved)
              (calls conditional || calls exceptions) review.final_acceptance (rw q.wellformed)
              (rw (q.passing, held blocking)) (rw (unlimited q, held unresolved))
              (rw (held conditional, held exceptions)) q.final
