-- ===== src/Records/Checks.antt =====
-- `CIObservation.validate_check_run_counts` of scopeproof_core/schemas/models.py: the checks on the
-- counts of observed checks and statuses, and the state and reason code that follow from them.
use scope_proof.Base.{
  ℕ, ◌+◌, ◌<◌, ◌≡◌, ◌↔◌, ◌⊎◌, arith, Bool, true, false, not, ◌&&◌, Result, ok, ◌>>◌, raise_if,
  is_empty, ◌==◌, nat_eq, ltb, length, if◌then◌else◌,
}
use scope_proof.Schema.{CiObservation, CheckState, CiReasonCode, check_state_eq, is_passing}

-- A count that is not 0.
abbrev pub any_of : ℕ → Bool
any_of n = ltb 0 n

abbrev pub categorized_runs : CiObservation → ℕ
categorized_runs o =
    o.successful_check_runs + o.pending_check_runs + o.failing_check_runs + o.neutral_check_runs
    + o.skipped_check_runs

abbrev pub categorized_legacy_statuses : CiObservation → ℕ
categorized_legacy_statuses o =
    o.successful_legacy_statuses + o.pending_legacy_statuses + o.failing_legacy_statuses
    + o.neutral_legacy_statuses

abbrev pub failing_observations : CiObservation → ℕ
failing_observations o = o.failing_check_runs + o.failing_legacy_statuses

abbrev pub pending_observations : CiObservation → ℕ
pending_observations o = o.pending_check_runs + o.pending_legacy_statuses

abbrev pub successful_observations : CiObservation → ℕ
successful_observations o = o.successful_check_runs + o.successful_legacy_statuses

unfoldable pub expected_state : CiObservation → CheckState
expected_state o =
    if any_of (failing_observations o)
    then CheckState.failing
    else if any_of (pending_observations o)
    then CheckState.pending
    else if not o.collection_complete
    then CheckState.unavailable
    else if any_of (successful_observations o)
    then CheckState.passing
    else CheckState.unavailable

unfoldable pub validate_ci : CiObservation → Result (Unit {0})
unfolding expected_state
validate_ci o = do
  raise_if (o.collection_complete && not (is_empty o.collection_notes))
      "complete CI collection cannot contain collection notes"
  raise_if (not (o.total_check_runs == categorized_runs o))
      "total_check_runs must equal the categorized check-run counts"
  raise_if (ltb o.skipped_check_runs (length o.skipped_check_names))
      "skipped check names cannot exceed skipped check runs"
  raise_if (not (o.concrete_legacy_status_count == categorized_legacy_statuses o))
      "concrete_legacy_status_count must equal the categorized legacy status counts"
  raise_if (is_passing o.state && not (any_of (successful_observations o)))
      "CI observation cannot be passing without a successful observation"
  raise_if (not (o.state == expected_state o) && not o.collection_complete)
      "CI observation must be unavailable when collection is incomplete"
  raise_if (not (o.state == expected_state o))
      "CI observation state must match its categorized observations"

abbrev is_uncaptured : CiReasonCode → Bool
is_uncaptured CiReasonCode.historical_uncaptured = true
is_uncaptured _ = false

abbrev is_unavailable : CheckState → Bool
is_unavailable CheckState.unavailable = true
is_unavailable _ = false

-- `historical_uncaptured`
abbrev pub is_historical : CiObservation → Bool
is_historical o =
    is_uncaptured o.reason_code
    && is_unavailable o.state
    && not o.collection_complete
    && not (any_of (categorized_runs o))
    && not (any_of (categorized_legacy_statuses o))

-- The category that the validator writes over the one that it was given.
unfoldable pub reason_code_of : CiObservation → CiReasonCode
reason_code_of o =
    if any_of (failing_observations o)
    then (if any_of o.failing_check_runs
        then CiReasonCode.failing_check_runs
        else CiReasonCode.failing_legacy_statuses)
    else if any_of (pending_observations o)
    then (if any_of o.pending_check_runs
        then CiReasonCode.pending_check_runs
        else CiReasonCode.pending_legacy_statuses)
    else if not o.collection_complete
    then (if is_historical o
        then CiReasonCode.historical_uncaptured
        else CiReasonCode.incomplete_collection)
    else if any_of (successful_observations o)
    then (if any_of o.successful_check_runs
        then CiReasonCode.successful_check_runs
        else CiReasonCode.successful_legacy_statuses)
    else if not (any_of (categorized_runs o)) && not (any_of (categorized_legacy_statuses o))
    then CiReasonCode.no_observations
    else CiReasonCode.neutral_or_skipped

-- A valid observation is failing or pending as soon as one check or status is; it is passing only
-- where the collection is complete, nothing fails or waits, and something succeeded.
pub validate_ci-state :
    (o : CiObservation)
    → validate_ci o ≡ ok tt
    → ((o.state ≡ CheckState.failing) ↔ (0 < failing_observations o))
      × ((o.state ≡ CheckState.passing) ↔ (
          (failing_observations o ≡ 0)
          × (pending_observations o ≡ 0)
          × (0 < successful_observations o)
          × (o.collection_complete ≡ true)))
unfolding validate_ci
validate_ci-state o h = (failing_state, passing_state)
  where
    state : o.state ≡ expected_state o
    state = ground arith

    failing_state : (o.state ≡ CheckState.failing) ↔ (0 < failing_observations o)
    failing_state = rw state (λ p. ground arith, λ p. ground arith)

    passing_state : (o.state ≡ CheckState.passing) ↔ (
        (failing_observations o ≡ 0)
        × (pending_observations o ≡ 0)
        × (0 < successful_observations o)
        × (o.collection_complete ≡ true))
    passing_state =
        rw state (λ p. (ground arith, ground arith, ground arith, ground arith), λ p. ground arith)

-- The reason code that the validator writes names a success exactly for a passing observation.
pub reason_code_of-passing :
    (o : CiObservation)
    → validate_ci o ≡ ok tt
    → (o.state ≡ CheckState.passing) ↔ (
        (reason_code_of o ≡ CiReasonCode.successful_check_runs)
        ⊎ (reason_code_of o ≡ CiReasonCode.successful_legacy_statuses))
unfolding validate_ci reason_code_of
reason_code_of-passing o h = (λ p. ground arith, λ p. ground arith)
