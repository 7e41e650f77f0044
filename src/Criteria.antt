-- ===== src/Criteria.antt =====
-- scopeproof_core/criteria/service.py: the criteria of a review, read from text and edited. A
-- criterion's source span, which no operation sets or reads, stays as it is.
pub mod Numbers
pub mod Fresh
pub mod Edits
pub mod Orders
pub mod Drafts
pub mod Warnings
use Prim.Native.Char.{code}
use Prim.Native.Nat.{max}
use Prim.Native.String.{◌++◌ as ◌<>◌}
use scope_proof.Base.{
  ℕ, zero, suc, ◌+◌, String, Bool, true, false, ◌&&◌, ◌||◌, not, Option, none, some, List, [], ◌∷◌,
  ◌++◌, map, is_space, is_blank, drop_spaces, strip, splitlines, words_from, join_words, Result, ok,
  err, ◌>>=◌, ◌>>◌, raise_if, map_ok, if◌then◌else◌, ltb, ◌==◌, nat_eq, string_eq, contains, filter,
  any, length, is_empty, same_members, last_by, distinct,
}
use scope_proof.Criteria.Numbers.{Unicode, identifier, number}
use scope_proof.Schema.{
  Platform, Criterion, Priority, CriterionType, CriterionSource, EvidenceLevel,
}
use scope_proof.Gate.{criterion_ids}

pub record CriterionDraft : Type 0 where
  pub criterion_id : String
  pub text : String

-- `\s+` and what follows it
after_spaces : String → Option String
after_spaces String.[] = none
after_spaces (String.◌∷◌ c s) = if is_space (code c) then some (drop_spaces s) else none

-- `\d*[.)]\s+` and what follows it
after_number : Unicode → String → Option String
unfolding after_spaces
after_number U String.[] = none
after_number U (String.◌∷◌ c s) =
    let rest = after_number U s in
    elim (U.digit_value (code c)) [
      | some _ ↦ rest
      | none ↦ if code c == 46 || code c == 41 then after_spaces s else none
    ]

-- `(?:[-*•]|\d+[.)])\s+` and what follows it
after_marker : Unicode → String → Option String
unfolding after_spaces after_number
after_marker U String.[] = none
after_marker U (String.◌∷◌ c s) =
    if code c == 45 || code c == 42 || code c == 8226
    then after_spaces s
    else elim (U.digit_value (code c)) [ none ↦ none | some _ ↦ after_number U s ]

-- `_LIST_MARKER.sub("", raw_line)`
unfoldable pub without_marker : Unicode → String → String
unfolding after_marker
without_marker U raw_line = elim (after_marker U (drop_spaces raw_line)) [
  | none ↦ raw_line
  | some rest ↦ rest
]

-- `prepared`
unfoldable pub prepared : Unicode → List String → List String
prepared U [] = []
prepared U (raw_line ∷ raw_lines) =
    let line = strip (without_marker U raw_line) in
    let rest = prepared U raw_lines in if line == "" then rest else line ∷ rest

-- `enumerate(prepared, start=index)`
unfoldable pub numbered : ℕ → List String → List CriterionDraft
numbered index [] = []
numbered index (line ∷ lines) =
    record { criterion_id = identifier index; text = line } ∷ numbered (suc index) lines

unfoldable pub parse_criteria : Unicode → String → List CriterionDraft
unfolding numbered
parse_criteria U text = numbered 1 (prepared U (splitlines text))

-- `max(numbers, default=0)`
unfoldable pub highest : List ℕ → ℕ
highest [] = 0
highest (n ∷ ns) = max n (highest ns)

-- `_next_identifier`
unfoldable pub next_identifier : Unicode → List Criterion → Result String
unfolding highest
next_identifier U criteria =
    map_ok (number U) (criterion_ids criteria)
    >>= (λ numbers. ok (identifier (highest numbers + 1)))

-- `Criterion(criterion_id=criterion_id, text=text)`: the other fields have their defaults.
unfoldable pub new_criterion : String → String → Result Criterion
new_criterion criterion_id text =
    raise_if (text == "") "String should have at least 1 character"
    >> raise_if (strip text == "") "criterion text must contain non-whitespace text"
    >> ok record {
      criterion_id = criterion_id;
      text = strip text;
      priority = Priority.must_have;
      criterion_type = CriterionType.behavior;
      criterion_source = CriterionSource.user_confirmed;
      source_span = none;
      required_evidence_level = EvidenceLevel.e1;
    }

unfoldable pub add_criterion : Unicode → List Criterion → String → Result (List Criterion)
unfolding next_identifier new_criterion
add_criterion U criteria text = do
  identifier ← next_identifier U criteria
  criterion ← new_criterion identifier text
  ok (criteria ++ (criterion ∷ []))

unfoldable pub remove_criterion : List Criterion → String → Result (List Criterion)
remove_criterion criteria criterion_id =
    let updated = filter (λ c. not (c.criterion_id == criterion_id)) criteria in
    raise_if (length updated == length criteria) ("Unknown criterion " <> criterion_id)
    >> raise_if (is_empty updated) "at least one criterion is required"
    >> ok updated

-- `original.model_copy(update={"criterion_id": criterion_id, "text": text.strip()})`
unfoldable pub split_part : Criterion → String → String → Criterion
split_part original criterion_id text = record original {
  criterion_id = criterion_id;
  text = strip text;
}

-- `for text in texts[1:]`, where the parts before are in `replacement`.
unfoldable pub later_parts :
    Unicode
    → Criterion
    → List Criterion
    → (replacement : List Criterion) → List String
    → Result (List Criterion)
unfolding next_identifier split_part
later_parts U original working replacement [] = ok replacement
later_parts U original working replacement (text ∷ texts) = do
  identifier ← next_identifier U (working ++ replacement)
  later_parts U original working (replacement ++ (split_part original identifier text ∷ [])) texts

-- The criteria before the first of the ID, that criterion, and those after it.
unfoldable pub around :
    String → List Criterion → Option (List Criterion × Criterion × List Criterion)
around criterion_id [] = none
around criterion_id (c ∷ cs) =
    let rest = around criterion_id cs in
    if c.criterion_id == criterion_id
    then some ([], c, cs)
    else elim rest [ none ↦ none | some (before, found, after) ↦ some (c ∷ before, found, after) ]

-- `[*criteria[:target_index], *replacement, *criteria[target_index + 1 :]]`
unfoldable pub replace_target :
    Unicode
    → List Criterion
    → String
    → String
    → List String
    → Option (List Criterion × Criterion × List Criterion)
    → Result (List Criterion)
unfolding later_parts split_part
replace_target U criteria criterion_id text texts none = err ("Unknown criterion " <> criterion_id)
replace_target U criteria criterion_id text texts (some (before, original, after)) = do
  replacement ←
      later_parts U original criteria (split_part original original.criterion_id text ∷ []) texts
  ok (before ++ (replacement ++ after))

unfoldable pub split_criterion :
    Unicode → List Criterion → String → List String → Result (List Criterion)
unfolding around replace_target
split_criterion U criteria criterion_id [] =
    err "splitting requires at least two non-empty criterion texts"
split_criterion U criteria criterion_id (text ∷ texts) =
    raise_if (is_empty texts || any (λ t. strip t == "") (text ∷ texts))
      "splitting requires at least two non-empty criterion texts"
    >> replace_target U criteria criterion_id text texts (around criterion_id criteria)

-- `existing[criterion_id]`
unfoldable pub existing : List Criterion → String → Result Criterion
existing criteria criterion_id = elim (last_by (λ c. c.criterion_id) criterion_id criteria) [
  | none ↦ err "KeyError"
  | some criterion ↦ ok criterion
]

unfoldable pub reorder_criteria : List Criterion → List String → Result (List Criterion)
unfolding existing
reorder_criteria criteria ordered_ids =
    raise_if
      (not (length ordered_ids == length criteria)
        || not (same_members ordered_ids (criterion_ids criteria)))
      "ordered_ids must contain every criterion identifier exactly once"
    >> map_ok (existing criteria) ordered_ids
