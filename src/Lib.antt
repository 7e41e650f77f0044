-- ===== src/Lib.antt =====
-- ScopeProof compares a pull request with confirmed acceptance criteria and lets a reviewer decide.
-- This library models its review core: the records of a review, their validation, the gate that
-- turns them into a verdict, and the lifecycle operations that change a review's state.
--
-- The files, and the code that they model (paths from the repository's root):
--   Base        lists, options, equality, dictionaries, sorting, and errors as values
--   Schema      the records and enumerations of scopeproof_core/schemas/models.py
--   Records     the validators of single records of schemas/models.py; Records/Checks has those of
--               CIObservation, Records/Imports those of JUnit imports and the replay of corrections
--   Events      resolution_events.py, the event models, and resolution_event_statuses of
--               reviews/lifecycle.py (Events/Status)
--   FileScope   unresolved_changed_file_paths of gates/evaluator.py
--   Gate        evaluate_gate of gates/evaluator.py: input_faults is _invalid_gate_input, tally_criteria
--               the loop over the criteria, judge the choice of the verdict with its reason codes
--   Findings    build_findings of verification/service.py
--   Permalink   candidate_permalink_matches of provenance.py
--   Bundle      ReviewBundle.validate_cross_references of schemas/models.py, in the order of its
--               checks, and validate_reference_audit of reviews/reference_audit.py (Bundle/Audit)
--   Validation  gates/validation.py (validated_review_bundle, validated_review_state, the replay of
--               events in Validation/Histories) and ReviewState's validator (Validation/States)
--   Lifecycle   reviews/lifecycle.py: Revisions has new_review_state, revise_criteria,
--               confirm_criteria and attach_analysis, Decisions append_resolution,
--               append_external_verification and can_record_final_acceptance, Context the operations
--               that add runtime evidence, file scope decisions and JUnit imports; the other
--               children have their properties, Runs those of sequences of operations
--   Criteria    criteria/service.py: parse_criteria, the edits of a list of criteria and, in
--               Criteria/Warnings, validate_criteria; Criteria/Numbers has the IDs `AC-01`
--   SourceLines split_git_source_lines of source_lines.py
--   Retrieval   retrieval/engine.py: Terms has the words of criteria and lines, Paths the type of a
--               path, Matches the loop over the lines and the order, Search the selection, the
--               evidence and the diagnostics
--   Audits      what the audit events make of saved context: Projections and Junit model
--               reviews/junit_audit.py and correct_junit_mappings of reviews/junit_correction.py,
--               References the withdrawal of reviews/reference_audit.py
--   ScopeComparison  FileScopeSnapshot of reviews/scope_comparison.py
--   Samples     a small review; Examples and Trials run the code and apply the theorems on
--               it
--
-- An operation takes a state and returns the new one or the message of the ValueError that the code
-- raises; the location that some messages start with is dropped. `unknown` as the revision of a
-- bundle is `none`. Copies of models are the values themselves, clock times are arguments, a
-- timestamp is an instant on the UTC line, and a relevance score is its number of thousandths.
-- What is checked while a value is built (patterns, lengths, stripping of text, migration of older
-- JSON) is taken as done; the validators that run on the built values are definitions here. The texts
-- of a CI observation's reason, the own validators of SelectableReferenceLine and the prefix of a
-- JUnit case ID are not modelled.
--
-- `Platform` stands for hashlib, json, urllib.parse and str.casefold. No law of it is assumed.
-- `Unicode` stands for the character database that int() and re read; what needs it of the digits of
-- ASCII is the hypothesis ReadsDigits. The digest of a state in JsonReviewStore.state_fingerprint and
-- round(score, 3) are arguments. A score of the retrieval is a fraction; Python's floats compare in
-- the same way for the numbers of terms that a criterion has. Event IDs are arguments.
-- The only function on fuel is the decimal notation of a line number in Permalink: its fuel is above
-- the number, and each step divides by ten.
--
-- Not modelled: storage, the GitHub client and Action, JUnit parsing, the command line and the
-- applications, which read and write files and network; the other comparisons and reports, which show what the
-- core has decided; correction drafts, and the selection of reference lines.
pub mod Base
pub mod Schema
pub mod Events
pub mod FileScope
pub mod Gate
pub mod Findings
pub mod Records
pub mod Criteria
pub mod Permalink
pub mod Bundle
pub mod Validation
pub mod Lifecycle
pub mod SourceLines
pub mod Retrieval
pub mod ScopeComparison
pub mod Audits
pub mod Samples
pub mod Examples
pub mod Trials
