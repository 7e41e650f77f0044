-- ===== src/Trials.antt =====
-- Runs of the criteria, the retrieval, the source lines and the audits on concrete inputs, and their
-- theorems applied there.
pub mod Audits
pub mod Scopes
use mathlib.Core.List.{flat_map}
use scope_proof.Base.{
  drop_spaces, trim_end, is_space, splitlines, after_prefix, is_break, words_from, join_words, ◌+◌,
  ℕ, ◌*◌, ◌-◌, ◌≡◌, ◌↔◌, refl, arith, String, true, false, not, none, some, List, [], ◌∷◌, ◌++◌,
  map, filter, All, ok, contains, nodup, subset, same_members, is_empty, length, strip, is_blank,
  lookup, if◌then◌else◌, ◌==◌, nat_eq, string_eq, ltb, leb,
}
use scope_proof.Schema.{
  Criterion, EvidenceType, EvidenceItem, CriterionRetrievalDiagnostic, ReviewBundle, ReviewState,
  JunitEvidenceImport, JunitCaseStatus, JunitCriterionMapping, JunitCaseResult, JunitAction,
  ReviewerSelectedReference, EvidenceSourceScope, e1, criterion_eq,
}
use scope_proof.Gate.{criterion_ids}
use scope_proof.Permalink.{digit, digits, decimal}
use scope_proof.Criteria.{
  next_identifier, highest, new_criterion, split_part, later_parts, around, replace_target,
  existing, prepared, numbered, without_marker, add_criterion, remove_criterion, split_criterion,
  reorder_criteria, parse_criteria,
}
use scope_proof.Criteria.Numbers.{
  padded, read_digits, int_of, Unicode, ReadsDigits, identifier, number, number-identifier,
}
use scope_proof.Criteria.Edits.{add_criterion-fresh, split_criterion-nodup}
use scope_proof.Criteria.Orders.{remove_criterion-eq_ok, reorder_criteria-total}
use scope_proof.Criteria.Warnings.{
  validate_criteria, warns_of_duplicate, normalized, validate_criteria-nodup,
}
use scope_proof.Criteria.Drafts.{criteria_of_drafts, draft_ids, parse_criteria-valid}
use Prim.Native.Nat.{◌/◌}
use scope_proof.Retrieval.Terms.{
  from_letter, runs, find_words, split_underscores, without_suffix, stem_of, stem, has_underscore,
  identifiers, terms_of_token, criterion_terms, line_terms,
}
use scope_proof.Retrieval.Paths
use scope_proof.Retrieval.Paths.{
  segments, last_part, last_dot, ends_with_dot, suffix, occurs_in, is_test_path,
  classify_changed_path_evidence_type,
}
use scope_proof.Retrieval.Matches.{
  PullRequestSnapshot, LineChangeType, Score, context_lines, candidate_file, sources, inspect,
  rounds, insert_match, sort_matches, Match-discrete, ChangedFile-discrete, ChangedLine-discrete,
  LineChangeType-discrete,
}
use scope_proof.Retrieval.Search.{
  first_of_types, fill, select, selected_of, evidence_item, evidence_items, diagnostic,
  retrieve_evidence_with_diagnostics,
}
use scope_proof.Retrieval.Levels.{IsCandidate, retrieve_evidence_with_diagnostics-IsCandidate}
use scope_proof.Records.Imports.{replay_junit_mapping_events, case_ids}
use scope_proof.Validation.{check_review_bundle, check_review_state}
use scope_proof.Audits.Projections.{
  apply_event, apply_events, original_mappings, all_effective_mappings, effective_junit_mappings,
  junit_mapping_correction_events, active_junit_import_ids,
}
use scope_proof.Audits.Junit.{
  Request, event_on, with_import_event, state_fingerprint, last_event_id, validated_target,
  withdraw_junit_evidence_import, correct_junit_mappings,
}
use scope_proof.Audits.Outcomes.{withdraw-active, withdraw-final, correct-effective}
use scope_proof.Audits.Replays.{effective-replay}
use scope_proof.Audits.References.{
  AuditRequest, IsWithdrawn, active_reviewer_selected_reference_ids, active_references,
  withdrawal_event, with_reference_event, withdraw_reviewer_selected_reference,
  withdraw_reference-IsWithdrawn,
}
use scope_proof.Samples.{platform, criterion, provenance, analysis, opened}
use scope_proof.Examples.{program}

-- The digits of ASCII, and its letters as the word characters.
abbrev ascii : Unicode
ascii = record {
  digit_value = λ c. if leb 48 c then (if ltb c 58 then some (c - 48) else none) else none;
  is_word = λ c. leb 97 c;
}

unfoldable pub trial : Unit {0}
unfolding flat_map program add_criterion next_identifier highest new_criterion remove_criterion
    split_criterion split_part later_parts around replace_target existing reorder_criteria prepared
    numbered parse_criteria without_marker padded decimal digit digits identifier read_digits int_of
    number ReadsDigits strip drop_spaces trim_end is_space splitlines after_prefix is_break
    words_from join_words
trial = tt

ascii-ReadsDigits : ReadsDigits ascii
unfolding trial
ascii-ReadsDigits d l = ground arith

number-identifier_example : number ascii (identifier 7) ≡ ok 7
number-identifier_example = number-identifier ascii 7 ascii-ReadsDigits

identifier_seven : identifier 7 ≡ "AC-07"
unfolding trial
identifier_seven = refl

abbrev second : List Criterion
second = record criterion { criterion_id = "AC-02"; text = "Totals are shown." } ∷ []

-- Two criteria, and what the editor makes of them.
abbrev two : List Criterion
two =
    record criterion { criterion_id = "AC-01" }
    ∷ record criterion { criterion_id = "AC-02"; text = "Totals are shown." }
    ∷ []

abbrev third : Criterion
third = record criterion { criterion_id = "AC-03"; text = "Totals are saved." }

adds : add_criterion ascii two " Totals are saved. " ≡ ok (two ++ (third ∷ []))
unfolding trial
adds = refl

add_criterion-fresh_example :
    (c : Criterion) × (two ++ (third ∷ []) ≡ two ++ (c ∷ []))
    × (c.text ≡ strip " Totals are saved. ")
    × (is_blank " Totals are saved. " ≡ false)
    × (contains (criterion_ids two) c.criterion_id ≡ false)
add_criterion-fresh_example =
    add_criterion-fresh ascii two " Totals are saved. " ascii-ReadsDigits adds

abbrev parts : List Criterion
parts =
    record criterion { criterion_id = "AC-01"; text = "Totals." }
    ∷ record criterion { criterion_id = "AC-03"; text = "Rounding." }
    ∷ record criterion { criterion_id = "AC-02"; text = "Totals are shown." }
    ∷ []

splits : split_criterion ascii two "AC-01" ("Totals." ∷ " Rounding." ∷ []) ≡ ok parts
unfolding trial
splits = refl

distinct_two : nodup (criterion_ids two) ≡ true
unfolding trial
distinct_two = refl

split_criterion-nodup_example :
    (nodup (criterion_ids parts) ≡ true)
    × (subset (criterion_ids two) (criterion_ids parts) ≡ true)
    × (length parts + 1 ≡ length two + length {A = String} ("Totals." ∷ " Rounding." ∷ []))
split_criterion-nodup_example =
    split_criterion-nodup ascii two "AC-01" ("Totals." ∷ " Rounding." ∷ []) ascii-ReadsDigits
      distinct_two splits

remove_criterion-eq_ok_example : remove_criterion two "AC-01" ≡ ok second ↔ (
    (contains (criterion_ids two) "AC-01" ≡ true)
    × (is_empty second ≡ false)
    × (second ≡ filter (λ c. not (c.criterion_id == "AC-01")) two))
remove_criterion-eq_ok_example = remove_criterion-eq_ok two "AC-01" second

same_ids : same_members ("AC-02" ∷ "AC-01" ∷ []) (criterion_ids two) ≡ true
unfolding trial
same_ids = refl

reorder_criteria-total_example :
    (result : List Criterion) × (reorder_criteria two ("AC-02" ∷ "AC-01" ∷ []) ≡ ok result)
    × (criterion_ids result ≡ "AC-02" ∷ "AC-01" ∷ [])
    × (same_members result two ≡ true)
reorder_criteria-total_example =
    reorder_criteria-total two ("AC-02" ∷ "AC-01" ∷ []) distinct_two refl same_ids

validate_criteria-nodup_example :
    warns_of_duplicate (validate_criteria platform ascii two)
    ≡ not (nodup (map (normalized platform) two))
validate_criteria-nodup_example = validate_criteria-nodup platform ascii two

parses : draft_ids (parse_criteria ascii "1. One\n\n - Two ") ≡ "AC-01" ∷ "AC-02" ∷ []
unfolding trial
parses = refl

parse_criteria-valid_example :
    (criteria : List Criterion) × (criteria_of_drafts (parse_criteria ascii "1. One") ≡ ok criteria)
    × (criterion_ids criteria ≡ draft_ids (parse_criteria ascii "1. One"))
    × (nodup (criterion_ids criteria) ≡ true)
parse_criteria-valid_example = parse_criteria-valid ascii "1. One" ascii-ReadsDigits

-- One changed file, whose second line has the words of the criterion.
abbrev snapshot : PullRequestSnapshot
snapshot = record {
  repository = "o/p";
  head_sha = "h1";
  files =
      record {
        path = "src/totals.py";
        status = "modified";
        previous_path = none;
        additions = 1;
        deletions = 0;
        changes = 1;
        patch = "";
        lines =
            record {
              change_type = LineChangeType.context;
              content = "def f():";
              line_number = some 1;
            }
            ∷ record {
              change_type = LineChangeType.added;
              content = "    return rounded(totals)";
              line_number = some 2;
            }
            ∷ [];
        truncated = false;
      }
      ∷ [];
}

-- Thousandths, rounded down.
abbrev thousandths : Score → ℕ
thousandths score = score.part * 1000 / score.whole

retrieval : Unit {0}
unfolding trial from_letter runs find_words split_underscores without_suffix stem_of stem
    has_underscore identifiers terms_of_token criterion_terms line_terms segments Paths.parts
    last_part last_dot ends_with_dot suffix occurs_in is_test_path
    classify_changed_path_evidence_type context_lines candidate_file sources inspect rounds
    insert_match sort_matches first_of_types fill select Match-discrete ChangedFile-discrete
    ChangedLine-discrete LineChangeType-discrete
retrieval = tt

finds : map (λ m. m.line_number) (selected_of platform thousandths snapshot [] criterion) ≡ 2 ∷ []
unfolding retrieval
finds = refl

abbrev retrieved : List EvidenceItem × List CriterionRetrievalDiagnostic
retrieved = (
  evidence_items platform thousandths snapshot criterion 1
      (selected_of platform thousandths snapshot [] criterion),
  diagnostic platform thousandths snapshot [] criterion ∷ [],
)

retrieves :
    retrieve_evidence_with_diagnostics platform thousandths snapshot [] (criterion ∷ [])
    ≡ ok (retrieved.0, retrieved.1)
unfolding retrieval retrieve_evidence_with_diagnostics evidence_items evidence_item diagnostic
retrieves = refl

retrieve_evidence_with_diagnostics-IsCandidate_example : All (IsCandidate platform) retrieved.0
retrieve_evidence_with_diagnostics-IsCandidate_example =
    retrieve_evidence_with_diagnostics-IsCandidate platform thousandths snapshot [] (criterion ∷ [])
      retrieved.0 retrieved.1 retrieves
