-- ===== src/Retrieval/Paths.antt =====
-- `classify_changed_path_evidence_type` of scopeproof_core/retrieval/engine.py.
use Prim.Native.Char.{Char, code}
use scope_proof.Base.{
  String, Bool, false, not, ◌&&◌, ◌||◌, Option, none, some, List, [], ◌∷◌, map, filter, any,
  contains, if◌then◌else◌, ◌==◌, nat_eq, string_eq, is_some, is_none, after_prefix,
}
use scope_proof.Schema.{Platform, EvidenceType}

abbrev add_segment : Char → String × List String → String × List String
add_segment c (segment, segments) =
    if code c == 47 then (String.[], segment ∷ segments) else (String.◌∷◌ c segment, segments)

-- The first segment, and those behind it.
unfoldable pub segments : String → String × List String
segments String.[] = (String.[], [])
segments (String.◌∷◌ c s) = add_segment c (segments s)

-- `PurePosixPath(path_value).parts`, without the root of an absolute path, which no test looks at.
unfoldable pub parts : String → List String
unfolding segments
parts path =
    let (first, rest) = segments path in
    filter (λ segment. not (segment == "" || segment == ".")) (first ∷ rest)

-- `path.name`
unfoldable pub last_part : List String → String
last_part [] = ""
last_part (part ∷ []) = part
last_part (part ∷ next ∷ rest) = last_part (next ∷ rest)

-- `name[i:]` at the last dot, which is not the last character.
unfoldable pub last_dot : String → Option String
last_dot String.[] = none
last_dot (String.◌∷◌ c s) =
    let rest = last_dot s in
    if is_none rest && code c == 46 && not (s == "") then some (String.◌∷◌ c s) else rest

unfoldable pub ends_with_dot : String → Bool
ends_with_dot String.[] = false
ends_with_dot (String.◌∷◌ c String.[]) = code c == 46
ends_with_dot (String.◌∷◌ c (String.◌∷◌ d s)) = ends_with_dot (String.◌∷◌ d s)

abbrev or_empty : Option String → String
or_empty none = ""
or_empty (some text) = text

-- `path.suffix`: a dot at either end of the name starts no suffix.
unfoldable pub suffix : String → String
unfolding last_dot ends_with_dot
suffix String.[] = ""
suffix (String.◌∷◌ c s) = if ends_with_dot s then "" else or_empty (last_dot s)

-- `part in text`
unfoldable pub occurs_in : String → String → Bool
unfolding after_prefix
occurs_in part String.[] = part == ""
occurs_in part (String.◌∷◌ c s) = is_some (after_prefix part (String.◌∷◌ c s)) || occurs_in part s

unfoldable pub is_test_path : (normalized_parts : List String) (name : String) → Bool
unfolding occurs_in after_prefix
is_test_path normalized_parts name =
    any (contains ("test" ∷ "tests" ∷ [])) normalized_parts
    || any (contains ("eval" ∷ "evals" ∷ [])) normalized_parts
    || is_some (after_prefix "test_" name)
    || occurs_in ".test." name
    || occurs_in ".spec." name

unfoldable pub classify_changed_path_evidence_type : Platform → String → EvidenceType
unfolding parts last_part suffix is_test_path occurs_in
classify_changed_path_evidence_type P path_value =
    let lower_path = P.casefold path_value in
    let normalized_parts = map P.casefold (parts path_value) in
    let name = last_part (parts path_value) in
    if is_test_path normalized_parts (P.casefold name)
    then EvidenceType.test
    else if contains (".md" ∷ ".rst" ∷ []) (P.casefold (suffix name))
        || contains normalized_parts "docs"
    then EvidenceType.documentation
    else if occurs_in "migration" lower_path || occurs_in "alembic" lower_path
    then EvidenceType.contract
    else if any (λ marker. occurs_in marker lower_path) ("openapi" ∷ "schema" ∷ "contract" ∷ [])
    then EvidenceType.contract
    else EvidenceType.implementation
