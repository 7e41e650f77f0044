-- ===== src/Samples.antt =====
-- A small review of one criterion and one changed file, and its events.
use scope_proof.Base.{true, false, none, some, [], ◌∷◌, string_eq}
use scope_proof.Schema.{
  Platform, Priority, CriterionType, CriterionSource, Criterion, CriteriaSourceProvenance,
  CriteriaRevision, e0, e1, e3, CiObservation, CheckState, CiReasonCode, ChangedFileInventory,
  Review, RepositoryVisibility, IngestionState, ReviewInputOrigin, GateDecision, GateVerdict,
  ReviewBundle, ReviewState, EvidenceItem, EvidenceType, EvidenceSourceScope, Finding,
  FindingStatus, ConfidenceBand, HumanDecision, HumanResolution, ResolutionEvent, FileScopeDecision,
  Disposition, RuntimeEvidence, criterion_eq, review_eq,
}
use scope_proof.Lifecycle.Decisions.{with_gate}
use scope_proof.Lifecycle.Revisions.{revised_state}

-- A platform with constant digests.
abbrev pub platform : Platform
platform = record {
  criteria_sha256 = λ _. "c1";
  text_sha256 = λ _. "t1";
  mappings_sha256 = λ _. "m1";
  urlsplit = λ _. none;
  quote = λ text _. text;
  casefold = λ text. text;
}

abbrev pub criterion : Criterion
criterion = record {
  criterion_id = "AC-1";
  text = "Totals are rounded.";
  priority = Priority.must_have;
  criterion_type = CriterionType.behavior;
  criterion_source = CriterionSource.user_confirmed;
  source_span = none;
  required_evidence_level = e1;
}

abbrev pub provenance : CriteriaSourceProvenance
provenance = record {
  source_uri = "https://example.com/issue/1";
  source_revision = none;
  source_text_sha256 = "t1";
  normalized_criteria_sha256 = "c1";
  confirmed_by = "ada";
  confirmed_at = 5;
}

abbrev pub passing_checks : CiObservation
passing_checks = record {
  state = CheckState.passing;
  reason = "1 successful";
  reason_code = CiReasonCode.successful_check_runs;
  total_check_runs = 1;
  successful_check_runs = 1;
  pending_check_runs = 0;
  failing_check_runs = 0;
  neutral_check_runs = 0;
  skipped_check_runs = 0;
  concrete_legacy_status_count = 0;
  successful_legacy_statuses = 0;
  pending_legacy_statuses = 0;
  failing_legacy_statuses = 0;
  neutral_legacy_statuses = 0;
  skipped_check_names = [];
  collection_complete = true;
  collection_notes = [];
}

abbrev pub inventory : ChangedFileInventory
inventory = record {
  head_sha = "h1";
  files = record { path = "a.py"; status = "modified"; previous_path = none } ∷ [];
}

abbrev pub review : Review
review = record {
  review_id = "r1";
  repository = "o/p";
  repository_visibility = RepositoryVisibility.verified_public;
  pr_number = 7;
  base_sha = "b1";
  head_sha = "h1";
  check_state = CheckState.passing;
  ci_observation = passing_checks;
  criteria_confirmed = true;
  criteria_source_provenance = some provenance;
  ingestion_state = IngestionState.complete;
  ingestion_warnings = [];
  skipped_files = [];
  changed_file_inventory = some inventory;
  input_origin = ReviewInputOrigin.local_fixture;
  final_acceptance = false;
  created_at = 1;
  tool_version = "1";
  ruleset_version = "1";
  analysis_source_identity = none;
}

-- No candidate was found; the reviewer judges the criterion.
abbrev pub finding : Finding
finding = record {
  criterion_id = "AC-1";
  status = FindingStatus.missing;
  evidence_level = e0;
  confidence_band = ConfidenceBand.low;
  reason = "no candidate";
  evidence_ids = [];
  missing_evidence = "No candidate evidence was retrieved." ∷ [];
  contradictions = [];
  recommended_action = "Inspect by hand.";
}

-- A candidate in the changed file.
abbrev pub candidate : EvidenceItem
candidate = record {
  evidence_id = "v1";
  criterion_id = "AC-1";
  evidence_type = EvidenceType.implementation;
  evidence_level = e1;
  source_scope = EvidenceSourceScope.changed_file;
  file_path = "a.py";
  line_start = 3;
  line_end = 3;
  commit_sha = "h1";
  permalink = "https://github.com/o/p/blob/h1/a.py#L3";
  excerpt = "round(total)";
  context_excerpt = none;
  matching_rule = "terms";
  relevance_reason = "2 terms";
  relevance_score = 800;
  limitations = [];
}

abbrev pub scope_decision : FileScopeDecision
scope_decision = record {
  event_id = "d1";
  review_id = "r1";
  path = "a.py";
  head_sha = "h1";
  criteria_revision_number = 1;
  normalized_criteria_sha256 = "c1";
  disposition = Disposition.outside_confirmed_criteria;
  criterion_id = none;
  note = "formatting";
  reviewer = "ada";
  timestamp = 8;
}

abbrev pub empty_gate : GateDecision
empty_gate = record {
  verdict = GateVerdict.needs_review;
  blocking_criteria = [];
  conditional_criteria = [];
  unresolved_criteria = [];
  resolved_exceptions = [];
  reason_codes = [];
}

abbrev pub analysis : ReviewBundle
analysis = with_gate platform (record {
  review = review;
  criteria_revision_number = some 1;
  source_text = "Totals are rounded.";
  criteria = criterion ∷ [];
  evidence = [];
  retrieval_diagnostics = [];
  runtime_evidence = [];
  junit_evidence_imports = [];
  junit_import_events = [];
  findings = finding ∷ [];
  resolutions = [];
  file_scope_decisions = [];
  reviewer_selected_references = [];
  selected_reference_events = [];
  gate = empty_gate;
  research_context = none;
})

abbrev pub revision : CriteriaRevision
revision = record {
  number = 1;
  criteria = criterion ∷ [];
  source_text = "Totals are rounded.";
  confirmed = true;
  created_at = 2;
  confirmed_at = some 5;
  source_provenance = some provenance;
}

abbrev pub opened : ReviewState
opened = record {
  review = review;
  criteria_revision = revision;
  bundle = some analysis;
  analysis_history = [];
  resolution_events = [];
}

abbrev pub acceptance : ResolutionEvent
acceptance = record {
  event_id = "e1";
  criterion_id = some "AC-1";
  decision = some HumanDecision.accepted;
  final_acceptance = none;
  comment = "Checked by hand.";
  evidence_url = none;
  claimed_evidence_level = none;
  runtime_evidence_id = none;
  reviewer = "ada";
  timestamp = 9;
  criteria_revision_number = 1;
}

abbrev pub final_event : ResolutionEvent
final_event = record {
  event_id = "e2";
  criterion_id = none;
  decision = none;
  final_acceptance = some true;
  comment = "";
  evidence_url = none;
  claimed_evidence_level = none;
  runtime_evidence_id = none;
  reviewer = "ada";
  timestamp = 10;
  criteria_revision_number = 1;
}

abbrev pub runtime : RuntimeEvidence
runtime = record {
  runtime_evidence_id = some "x1";
  repository = some "o/p";
  pr_number = some 7;
  head_sha = some "h1";
  criterion_id = "AC-1";
  artifact_reference = "log.txt";
  scenario = "Round 2.5.";
  timestamp = 9;
  environment = "staging";
  result = "3";
  reviewer = "ada";
  evidence_level = e3;
  limitations = [];
}

abbrev pub verification : ResolutionEvent
verification = record acceptance {
  event_id = "e3";
  decision = some HumanDecision.manually_verified;
  claimed_evidence_level = some e3;
  runtime_evidence_id = some "x1";
}

abbrev pub scoped : ReviewState
scoped = record opened {
  bundle =
      some (with_gate platform (record analysis { file_scope_decisions = scope_decision ∷ [] }));
}

abbrev pub accepted_resolution : HumanResolution
accepted_resolution = record {
  criterion_id = "AC-1";
  decision = HumanDecision.accepted;
  comment = "Checked by hand.";
  evidence_url = none;
  claimed_evidence_level = none;
  runtime_evidence_id = none;
  reviewer = "ada";
  timestamp = 9;
}

abbrev pub accepted_analysis : Review → ReviewBundle
accepted_analysis r = with_gate platform (record analysis {
  review = r;
  resolutions = accepted_resolution ∷ [];
  file_scope_decisions = scope_decision ∷ [];
})

abbrev pub accepted_state : ReviewState
accepted_state = record opened {
  bundle = some (accepted_analysis review);
  resolution_events = acceptance ∷ [];
}

abbrev pub final_review : Review
final_review = record review { final_acceptance = true }

abbrev pub final_state : ReviewState
final_state = record opened {
  review = final_review;
  bundle = some (accepted_analysis final_review);
  resolution_events = acceptance ∷ final_event ∷ [];
}

abbrev pub with_runtime : ReviewState
with_runtime = record opened { bundle = some (record analysis { runtime_evidence = runtime ∷ [] }) }

abbrev pub verified_resolution : HumanResolution
verified_resolution = record accepted_resolution {
  decision = HumanDecision.manually_verified;
  claimed_evidence_level = some e3;
  runtime_evidence_id = some "x1";
}

abbrev pub verified : ReviewState
verified = record opened {
  bundle = some (
      with_gate platform (record analysis {
        runtime_evidence = runtime ∷ [];
        resolutions = verified_resolution ∷ [];
      }));
  resolution_events = verification ∷ [];
}

abbrev pub revised : ReviewState
revised = revised_state 20 final_state (criterion ∷ []) "Totals are rounded up."
