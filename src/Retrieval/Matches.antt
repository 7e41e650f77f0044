-- ===== src/Retrieval/Matches.antt =====
-- The inputs of scopeproof_core/retrieval/engine.py, the matches of one criterion and their order.
-- A score is a fraction of natural numbers: Python divides floats, which compare in the same way for
-- the small numbers of terms that occur.
use mathlib.Core.List.{flat_map}
use scope_proof.Base.{
  ℕ, suc, ◌*◌, String, Bool, true, false, not, ◌&&◌, ◌||◌, Option, none, some, List, [], ◌∷◌, ◌++◌,
  map, filter, any, contains, is_empty, length, if◌then◌else◌, ltb, leb, ◌==◌, nat_eq, string_eq,
  Eq, String_discrete, str_leb,
}
use mathlib.Core.Bool.{Bool-discrete}
use native.Mathlib.Decide.{ℕ_discrete}
use scope_proof.Schema.{
  Platform, EvidenceType, EvidenceSourceScope, evidence_type_eq, EvidenceSourceScope-discrete,
}
use scope_proof.SourceLines.{split_git_source_lines}
use scope_proof.Retrieval.Terms.{criterion_terms, line_terms, identifiers}
use scope_proof.Retrieval.Paths.{classify_changed_path_evidence_type}

pub data LineChangeType : Type 0 where
  added removed context : LineChangeType

pub record ChangedLine : Type 0 where
  pub change_type : LineChangeType
  pub content : String
  pub line_number : Option ℕ

pub record ChangedFile : Type 0 where
  pub path : String
  pub status : String
  pub previous_path : Option String
  pub additions : ℕ
  pub deletions : ℕ
  pub changes : ℕ
  pub patch : String
  pub lines : List ChangedLine
  pub truncated : Bool

pub record RetrievedFile : Type 0 where
  pub path : String
  pub content : String
  pub commit_sha : String

-- The fields of PullRequestSnapshot that the retrieval reads.
pub record PullRequestSnapshot : Type 0 where
  pub repository : String
  pub head_sha : String
  pub files : List ChangedFile

unfoldable pub LineChangeType-discrete : Discrete LineChangeType
LineChangeType-discrete = hlevel

unfoldable pub ChangedLine-discrete : Discrete ChangedLine
ChangedLine-discrete = hlevel (LineChangeType-discrete, String_discrete, ℕ_discrete)

unfoldable pub ChangedFile-discrete : Discrete ChangedFile
ChangedFile-discrete = hlevel (ChangedLine-discrete, String_discrete, ℕ_discrete, Bool-discrete)

-- `enumerate(lines, start=index)`, as lines of context.
unfoldable pub context_lines : ℕ → List String → List ChangedLine
context_lines index [] = []
context_lines index (content ∷ contents) =
    record { change_type = LineChangeType.context; content = content; line_number = some index }
    ∷ context_lines (suc index) contents

-- `_candidate_file`
unfoldable pub candidate_file : RetrievedFile → ChangedFile
unfolding context_lines split_git_source_lines
candidate_file retrieved = record {
  path = retrieved.path;
  status = "unchanged_candidate";
  previous_path = none;
  additions = 0;
  deletions = 0;
  changes = 0;
  patch = "";
  lines = context_lines 1 (split_git_source_lines true retrieved.content);
  truncated = false;
}

-- A file with its scope and commit.
pub record Source : Type 0 where
  pub file : ChangedFile
  pub scope : EvidenceSourceScope
  pub commit_sha : String

-- `inputs`
unfoldable pub sources : PullRequestSnapshot → List RetrievedFile → List Source
unfolding candidate_file
sources snapshot unchanged =
    map
      (λ f. record {
        file = f;
        scope = EvidenceSourceScope.changed_file;
        commit_sha = snapshot.head_sha;
      })
      snapshot.files
    ++ map
        (λ f. record {
          file = candidate_file f;
          scope = EvidenceSourceScope.unchanged_candidate;
          commit_sha = f.commit_sha;
        })
        unchanged

pub record Score : Type 0 where
  pub part : ℕ
  pub whole : ℕ

abbrev pub below : Score → Score → Bool
below a b = ltb (a.part * b.whole) (b.part * a.whole)

-- `max(score, 0.9)`, for an exact identifier
abbrev pub raised : Bool → Score → Score
raised exact score =
    let floor : Score = record { part = 9; whole = 10 } in
    if exact && below score floor then floor else score

-- `min(score, 1.0)`
abbrev pub capped : Score → Score
capped score =
    let one : Score = record { part = 1; whole = 1 } in if below one score then one else score

pub record Match : Type 0 where
  pub score : Score
  pub source : Source
  pub line_number : ℕ
  pub content : String
  pub matched : List String
  pub exact_identifier : Bool

unfoldable pub Match-discrete : Discrete Match
Match-discrete =
    hlevel (
      ChangedFile-discrete, EvidenceSourceScope-discrete, String_discrete, ℕ_discrete,
      Bool-discrete,
    )

instance abbrev pub match_eq : Eq Match
match_eq = record { dec = Match-discrete }

-- What the loop finds of one line.
pub data Round : Type 0 where
  skipped : Round
  unmatched : (exact overlap : Bool) → Round
  weak : (exact : Bool) → Round
  found : Match → Round

abbrev is_removed : LineChangeType → Bool
is_removed LineChangeType.removed = true
is_removed _ = false

-- The thresholds: a test needs 0.4, unless an identifier matches; everything needs 0.25.
abbrev pub is_weak : EvidenceType → Bool → Score → Bool
is_weak kind exact score =
    let test_floor : Score = record { part = 2; whole = 5 } in
    let floor : Score = record { part = 1; whole = 4 } in
    kind == EvidenceType.test && below score test_floor && not exact || below score floor

module _ (P : Platform) (criterion_text : String) where
  -- The rest of a round, for a line that has a number and was not removed.
  unfoldable pub inspect : Source → ℕ → String → Round
  unfolding criterion_terms line_terms identifiers classify_changed_path_evidence_type
  inspect source line_number content =
      let terms = line_terms P content in
      let matched = filter (contains terms) (criterion_terms P criterion_text) in
      let exact = any (contains terms) (identifiers P criterion_text) in
      if not (is_empty (identifiers P criterion_text)) && not exact || is_empty matched
      then Round.unmatched exact (not (is_empty matched))
      else let whole = length (criterion_terms P criterion_text) in
        let score = raised exact (record { part = length matched; whole = whole }) in
        if is_weak (classify_changed_path_evidence_type P source.file.path) exact score
        then Round.weak exact
        else Round.found record {
          score = capped score;
          source = source;
          line_number = line_number;
          content = content;
          matched = matched;
          exact_identifier = exact;
        }

  abbrev pub round_on : Source → ChangedLine → Option ℕ → Round
  round_on source line none = Round.skipped
  round_on source line (some line_number) =
      if is_removed line.change_type then Round.skipped else inspect source line_number line.content

  unfoldable pub rounds : List Source → List Round
  unfolding inspect
  rounds = flat_map (λ s. map (λ l. round_on s l l.line_number) s.file.lines)

-- The sort key: the highest score first, then the path, then the line.
abbrev pub comes_before : Match → Match → Bool
comes_before a b =
    below b.score a.score
    || not (below a.score b.score)
      && (not (str_leb b.source.file.path a.source.file.path)
          || a.source.file.path == b.source.file.path && leb a.line_number b.line_number)

unfoldable pub insert_match : Match → List Match → List Match
insert_match m [] = m ∷ []
insert_match m (n ∷ ns) =
    let rest = insert_match m ns in if comes_before m n then m ∷ n ∷ ns else n ∷ rest

-- `matches.sort`
unfoldable pub sort_matches : List Match → List Match
unfolding insert_match
sort_matches [] = []
sort_matches (m ∷ ms) = insert_match m (sort_matches ms)
