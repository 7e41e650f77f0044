-- ===== src/Retrieval/Search.antt =====
-- The selection of candidates, their evidence and the diagnostics of scopeproof_core/retrieval/engine.py.
use Prim.Native.String.{◌++◌ as ◌<>◌}
use scope_proof.Base.{
  Eq, ℕ, suc, ◌-◌, String, Bool, true, false, not, ◌&&◌, Option, none, some, List, [], ◌∷◌, ◌++◌,
  map, filter, filter_map, contains, is_empty, length, if◌then◌else◌, ◌==◌, nat_eq, string_eq,
  distinct, sorted, strip, Result, ok, ◌>>=◌, ◌>>◌, each, set_add,
}
use scope_proof.Schema.{
  Platform, Criterion, EvidenceType, EvidenceLevel, EvidenceSourceScope, EvidenceItem,
  CriterionRetrievalDiagnostic, RetrievalOutcome, evidence_type_eq,
}
use scope_proof.Records as Parts
use scope_proof.Permalink.{decimal}
use scope_proof.Criteria.Numbers.{padded}
use scope_proof.Retrieval.Terms.{criterion_terms, identifiers}
use scope_proof.Retrieval.Paths.{classify_changed_path_evidence_type}
use scope_proof.Retrieval.Matches.{
  PullRequestSnapshot, RetrievedFile, ChangedFile, ChangedLine, LineChangeType, Source, Score,
  Match, Round, sources, rounds, sort_matches, match_eq,
}

abbrev pub candidate_limit : ℕ
candidate_limit = 8

abbrev pub found_match : Round → Option Match
found_match (Round.found m) = some m
found_match _ = none

abbrev pub is_inspected : Round → Bool
is_inspected Round.skipped = false
is_inspected _ = true

abbrev pub is_exact : Round → Bool
is_exact Round.skipped = false
is_exact (Round.unmatched exact overlap) = exact
is_exact (Round.weak exact) = exact
is_exact (Round.found m) = m.exact_identifier

abbrev pub is_overlap : Round → Bool
is_overlap Round.skipped = false
is_overlap (Round.unmatched exact overlap) = overlap
is_overlap (Round.weak exact) = true
is_overlap (Round.found m) = true

abbrev pub is_below_threshold : Round → Bool
is_below_threshold (Round.weak exact) = true
is_below_threshold _ = false

abbrev pub kind_of : Platform → Match → EvidenceType
unfolding classify_changed_path_evidence_type
kind_of P m = classify_changed_path_evidence_type P m.source.file.path

abbrev pub take_first {ℓ} : {A : Type ℓ} → ℕ → List A → List A
take_first n [] = []
take_first n (x ∷ xs) = let rest = take_first (n - 1) xs in if n == 0 then [] else x ∷ rest

module _ {ℓ} {A : Type ℓ} where
  -- The first match of each evidence type.
  unfoldable pub first_of_types : (kind : A → EvidenceType) → List EvidenceType → List A → List A
  first_of_types kind types [] = []
  first_of_types kind types (m ∷ ms) =
      let others = first_of_types kind types ms in
      let rest = first_of_types kind (kind m ∷ types) ms in
      if contains types (kind m) then others else m ∷ rest

module _ {ℓ} {A : Type ℓ} ⦃e : Eq A⦄ where
  -- The matches in order, up to the limit, onto those that are selected.
  unfoldable pub fill : List A → List A → List A
  fill selected [] = selected
  fill selected (m ∷ ms) =
      let next = set_add m selected in
      let rest = fill next ms in if length next == candidate_limit then next else rest

-- `selected_matches[:_CANDIDATE_LIMIT]`
unfoldable pub select : Platform → List Match → List Match
unfolding first_of_types fill
select P matches = take_first candidate_limit (fill (first_of_types (kind_of P) [] matches) matches)

abbrev is_inspectable : ChangedLine → Bool
is_inspectable line = elim line.line_number [
  | none ↦ false
  | some n ↦ elim line.change_type [ LineChangeType.removed ↦ false | _ ↦ true ]
]

abbrev has_number : ℕ → ChangedLine → Bool
has_number n line = elim line.line_number [ none ↦ false | some m ↦ m == n ]

-- `"\n".join(parts)`
unfoldable pub join_lines : List String → String
join_lines [] = ""
join_lines (part ∷ []) = part
join_lines (part ∷ next ∷ parts) = part <> ("\n" <> join_lines (next ∷ parts))

-- The window around the first line of the number; `before` holds the line that precedes it.
unfoldable pub window : ℕ → List ChangedLine → List ChangedLine → List ChangedLine
window n before [] = []
window n before (line ∷ lines) =
    let rest = window n (line ∷ []) lines in
    if has_number n line then before ++ (line ∷ take_first 1 lines) else rest

-- `_context_excerpt`; the line is in the file, so that `next` finds it.
unfoldable pub context_excerpt : ChangedFile → ℕ → String
unfolding join_lines window
context_excerpt file line_number =
    join_lines (map (λ l. l.content) (window line_number [] (filter is_inspectable file.lines)))

-- `_permalink`
unfoldable pub permalink : Platform → PullRequestSnapshot → String → ℕ → String → String
unfolding decimal
permalink P snapshot file_path line_number commit_sha =
    "https://github.com/"
    <> P.quote snapshot.repository "/"
    <> "/blob/"
    <> P.quote commit_sha ""
    <> "/"
    <> P.quote file_path "/"
    <> "#L"
    <> decimal line_number
    <> "-L"
    <> decimal line_number

abbrev pub is_test : EvidenceType → Bool
is_test kind = kind == EvidenceType.test

abbrev limitations_of : EvidenceSourceScope → EvidenceType → List String
limitations_of scope kind =
    elim scope [
      | EvidenceSourceScope.changed_file ↦ []
      | EvidenceSourceScope.unchanged_candidate ↦
          "Evidence comes from a bounded unchanged candidate file" ∷ []
    ]
    ++ ("Candidate evidence does not prove the criterion is satisfied"
        ∷ (if is_test kind
            then "Candidate test evidence requires reviewer confirmation"
              ∷ "Candidate test/eval definition shows test intent, not execution" ∷ []
            else []))

-- `", ".join(parts)`
unfoldable pub join_terms : List String → String
join_terms [] = ""
join_terms (part ∷ []) = part
join_terms (part ∷ next ∷ parts) = part <> (", " <> join_terms (next ∷ parts))

-- `round` gives a score in thousandths: `round(score, 3)`.
module _ (P : Platform) (round : Score → ℕ) (snapshot : PullRequestSnapshot) where
  unfoldable pub evidence_item : Criterion → ℕ → Match → EvidenceItem
  unfolding classify_changed_path_evidence_type context_excerpt permalink join_terms padded strip
      sorted
  evidence_item criterion index m =
      let kind = kind_of P m in
      record {
        evidence_id = "EV-" <> criterion.criterion_id <> "-" <> padded index;
        criterion_id = criterion.criterion_id;
        evidence_type = kind;
        evidence_level = if is_test kind then EvidenceLevel.e2 else EvidenceLevel.e1;
        source_scope = m.source.scope;
        file_path = m.source.file.path;
        line_start = m.line_number;
        line_end = m.line_number;
        commit_sha = m.source.commit_sha;
        permalink = permalink P snapshot m.source.file.path m.line_number m.source.commit_sha;
        excerpt = strip m.content;
        context_excerpt = some (context_excerpt m.source.file m.line_number);
        matching_rule = if m.exact_identifier then "exact_identifier" else "keyword_overlap";
        relevance_reason = "Matched terms: " <> join_terms (sorted m.matched);
        relevance_score = round m.score;
        limitations = limitations_of m.source.scope kind;
      }

  -- `enumerate(selected, start=index)`
  unfoldable pub evidence_items : Criterion → ℕ → List Match → List EvidenceItem
  unfolding evidence_item
  evidence_items criterion index [] = []
  evidence_items criterion index (m ∷ ms) =
      evidence_item criterion index m ∷ evidence_items criterion (suc index) ms

-- The types of the inputs, sorted by their values.
abbrev sorted_types : List EvidenceType → List EvidenceType
sorted_types types = filter (contains types) (
    EvidenceType.ci ∷ EvidenceType.contract ∷ EvidenceType.documentation ∷ EvidenceType.human
    ∷ EvidenceType.implementation ∷ EvidenceType.runtime ∷ EvidenceType.test ∷ [])

abbrev pub counted : (Round → Bool) → List Round → ℕ
counted test found = length (filter test found)

unfoldable pub outcome_of : Platform → Criterion → List Round → (accepted : ℕ) → RetrievalOutcome
unfolding criterion_terms identifiers
outcome_of P criterion found accepted =
    if not (accepted == 0)
    then RetrievalOutcome.candidates_found
    else if is_empty (criterion_terms P criterion.text)
    then RetrievalOutcome.no_searchable_terms
    else if counted is_inspected found == 0
    then RetrievalOutcome.no_inspectable_lines
    else if not (is_empty (identifiers P criterion.text)) && counted is_exact found == 0
    then RetrievalOutcome.exact_identifier_not_found
    else if counted is_overlap found == 0
    then RetrievalOutcome.no_term_overlap
    else RetrievalOutcome.below_relevance_threshold

module _ (P : Platform) (round : Score → ℕ) (snapshot : PullRequestSnapshot)
    (unchanged : List RetrievedFile) where
  abbrev pub inputs : List Source
  unfolding sources
  inputs = sources snapshot unchanged

  abbrev pub matches_of : Criterion → List Match
  unfolding rounds sources
  matches_of criterion =
      filter_map found_match (rounds P criterion.text (sources snapshot unchanged))

  abbrev pub selected_of : Criterion → List Match
  unfolding select sort_matches rounds sources
  selected_of criterion =
      select P (
        sort_matches
          (filter_map found_match (rounds P criterion.text (sources snapshot unchanged))))

  unfoldable pub diagnostic : Criterion → CriterionRetrievalDiagnostic
  unfolding outcome_of sorted classify_changed_path_evidence_type selected_of matches_of sources
      rounds
  diagnostic criterion =
      let found = rounds P criterion.text (sources snapshot unchanged) in
      let accepted = length (selected_of criterion) in
      let eligible = length (matches_of criterion) in
      record {
        criterion_id = criterion.criterion_id;
        outcome = outcome_of P criterion found accepted;
        searched_terms = sorted (criterion_terms P criterion.text);
        exact_identifiers = sorted (identifiers P criterion.text);
        searched_paths = sorted (distinct (map (λ s. s.file.path) (sources snapshot unchanged)));
        searched_evidence_types = sorted_types (
            map (λ s. classify_changed_path_evidence_type P s.file.path)
              (sources snapshot unchanged));
        changed_file_count = length snapshot.files;
        unchanged_candidate_file_count = length unchanged;
        inspectable_line_count = counted is_inspected found;
        exact_identifier_match_line_count = counted is_exact found;
        term_overlap_line_count = counted is_overlap found;
        below_threshold_line_count = counted is_below_threshold found;
        accepted_candidate_count = accepted;
        eligible_candidate_count = some eligible;
        candidate_limit = some candidate_limit;
        omitted_candidate_count = some (eligible - accepted);
      }

  -- `retrieve_evidence_with_diagnostics`: each record is validated when it is built.
  unfoldable pub retrieve_evidence_with_diagnostics :
      List Criterion → Result (List EvidenceItem × List CriterionRetrievalDiagnostic)
  unfolding diagnostic evidence_items selected_of
  retrieve_evidence_with_diagnostics [] = ok ([], [])
  retrieve_evidence_with_diagnostics (criterion ∷ criteria) = do
    let items = evidence_items P round snapshot criterion 1 (selected_of criterion)
    each Parts.validate_evidence_item items
    Parts.validate_diagnostic (diagnostic criterion)
    rest ← retrieve_evidence_with_diagnostics criteria
    ok (items ++ rest.0, diagnostic criterion ∷ rest.1)

  unfoldable pub retrieve_evidence : List Criterion → Result (List EvidenceItem)
  unfolding retrieve_evidence_with_diagnostics
  retrieve_evidence criteria = do result ← retrieve_evidence_with_diagnostics criteria; ok result.0
