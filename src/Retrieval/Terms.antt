-- ===== src/Retrieval/Terms.antt =====
-- The terms of a criterion and of a line, of scopeproof_core/retrieval/engine.py. Sets are lists
-- without duplicates, in the order of first occurrence.
use Prim.Native.Char.{Char, code}
use Prim.Native.String.{count}
use mathlib.Core.List.{flat_map}
use scope_proof.Base.{
  ℕ, String, Bool, false, not, ◌&&◌, ◌||◌, Option, none, some, List, [], ◌∷◌, ◌++◌, map, filter,
  contains, distinct, if◌then◌else◌, ltb, leb, ◌==◌, nat_eq, string_eq, is_some,
}
use scope_proof.Schema.{Platform}

abbrev is_letter : ℕ → Bool
is_letter c = leb 65 c && leb c 90 || leb 97 c && leb c 122

abbrev is_word_code : ℕ → Bool
is_word_code c = is_letter c || leb 48 c && leb c 57 || c == 95

-- A run of `[A-Za-z0-9_]` from its first letter on.
unfoldable pub from_letter : String → String
from_letter String.[] = String.[]
from_letter (String.◌∷◌ c s) =
    let rest = from_letter s in if is_letter (code c) then String.◌∷◌ c s else rest

abbrev close_run : String → List String → List String
close_run String.[] found = found
close_run (String.◌∷◌ c s) found = String.◌∷◌ c s ∷ found

abbrev add_to_run : Char → String × List String → String × List String
add_to_run c (run, found) =
    if is_word_code (code c)
    then (String.◌∷◌ c run, found)
    else (String.[], close_run (from_letter run) found)

-- The run that the text starts with, and the words behind it.
unfoldable pub runs : String → String × List String
unfolding from_letter
runs String.[] = (String.[], [])
runs (String.◌∷◌ c s) = add_to_run c (runs s)

-- `_WORD.finditer(text)`
unfoldable pub find_words : String → List String
unfolding runs from_letter
find_words text = let (run, found) = runs text in close_run (from_letter run) found

abbrev add_part : Char → String × List String → List String
add_part c (part, parts) =
    if code c == 95 then String.[] ∷ part ∷ parts else String.◌∷◌ c part ∷ parts

abbrev head_part : List String → String × List String
head_part [] = (String.[], [])
head_part (part ∷ parts) = (part, parts)

-- `token.split("_")`
unfoldable pub split_underscores : String → List String
split_underscores String.[] = String.[] ∷ []
split_underscores (String.◌∷◌ c s) = add_part c (head_part (split_underscores s))

-- `value[:-len(suffix)]`, where the value ends with the suffix.
unfoldable pub without_suffix : String → String → Option String
without_suffix suffix String.[] = if suffix == "" then some "" else none
without_suffix suffix (String.◌∷◌ c s) =
    let rest = without_suffix suffix s in
    if String.◌∷◌ c s == suffix
    then some ""
    else elim rest [ none ↦ none | some kept ↦ some (String.◌∷◌ c kept) ]

abbrev or_else : Option String → String → String
or_else none value = value
or_else (some kept) value = kept

-- `_stem`, of a casefolded word.
unfoldable pub stem_of : String → String
unfolding without_suffix
stem_of value =
    if ltb 5 (count value) && is_some (without_suffix "ing" value)
    then or_else (without_suffix "ing" value) value
    else if ltb 4 (count value) && is_some (without_suffix "ed" value)
    then or_else (without_suffix "ed" value) value
    else if ltb 4 (count value)
    then or_else (without_suffix "s" value) value
    else value

unfoldable pub stem : Platform → String → String
unfolding stem_of
stem P word = stem_of (P.casefold word)

abbrev pub stop_words : List String
stop_words =
    "a" ∷ "all" ∷ "an" ∷ "and" ∷ "as" ∷ "be" ∷ "can" ∷ "current" ∷ "if" ∷ "is" ∷ "of" ∷ "on"
    ∷ "should" ∷ "shows" ∷ "the" ∷ "to" ∷ "user" ∷ "users" ∷ "with" ∷ []

unfoldable pub has_underscore : String → Bool
has_underscore String.[] = false
has_underscore (String.◌∷◌ c s) = code c == 95 || has_underscore s

-- `raw`
abbrev pub raw_words : Platform → String → List String
raw_words P text = map P.casefold (find_words text)

-- `identifiers`
unfoldable pub identifiers : Platform → String → List String
unfolding find_words has_underscore
identifiers P text = distinct (filter has_underscore (raw_words P text))

-- The terms that one token adds to `expanded`.
unfoldable pub terms_of_token : Platform → String → List String
unfolding stem split_underscores has_underscore
terms_of_token P token =
    filter (λ t. not (contains stop_words t) && ltb 1 (count t))
      (map (stem P) (split_underscores token))
    ++ (if has_underscore token then token ∷ [] else [])

-- `expanded`
unfoldable pub criterion_terms : Platform → String → List String
unfolding find_words terms_of_token
criterion_terms P text = distinct (flat_map (terms_of_token P) (raw_words P text))

-- `_line_terms`
unfoldable pub line_terms : Platform → String → List String
unfolding find_words stem split_underscores
line_terms P content =
    distinct
      (flat_map (λ token. token ∷ map (stem P) (split_underscores token)) (raw_words P content))
