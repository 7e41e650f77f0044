-- ===== src/SourceLines.antt =====
-- scopeproof_core/source_lines.py: the lines of a source file as Git counts them.
pub mod RoundTrip
use Prim.Native.Char.{Char, code}
use scope_proof.Base.{
  ℕ, String, Bool, true, false, Option, none, some, List, [], ◌∷◌, map, if◌then◌else◌, ◌==◌, nat_eq,
}

-- The records with one character before them, which may be the newline that ends a record.
abbrev pub add_char : Char → (ends : Bool) → String × List String → String × List String
add_char c true (first, rest) = (String.[], first ∷ rest)
add_char c false (first, rest) = (String.◌∷◌ c first, rest)

-- `text.split("\n")`: the first record and those after it.
unfoldable pub split_lines : String → String × List String
split_lines String.[] = (String.[], [])
split_lines (String.◌∷◌ c s) = add_char c (code c == 10) (split_lines s)

is_return : String → Bool
is_return String.[] = false
is_return (String.◌∷◌ c String.[]) = code c == 13
is_return (String.◌∷◌ c (String.◌∷◌ d s)) = false

-- `record.removesuffix("\r")`
unfoldable pub without_return : String → String
unfolding is_return
without_return String.[] = String.[]
without_return (String.◌∷◌ c s) =
    let rest = without_return s in
    if is_return (String.◌∷◌ c s) then String.[] else String.◌∷◌ c rest

unfoldable pub clean : Bool → String → String
unfolding without_return
clean true record_text = without_return record_text
clean false record_text = record_text

-- All records but the last, cleaned, and the last if it has text.
unfoldable pub lines_of : Bool → String → List String → List String
unfolding clean
lines_of strip_crlf String.[] [] = []
lines_of strip_crlf (String.◌∷◌ c s) [] = String.◌∷◌ c s ∷ []
lines_of strip_crlf first (next ∷ rest) = clean strip_crlf first ∷ lines_of strip_crlf next rest

unfoldable pub split_git_source_lines : Bool → String → List String
unfolding split_lines lines_of
split_git_source_lines strip_crlf text =
    let (first, rest) = split_lines text in lines_of strip_crlf first rest
