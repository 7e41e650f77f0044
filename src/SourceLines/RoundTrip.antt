-- ===== src/SourceLines/RoundTrip.antt =====
-- The lines of scopeproof_core/source_lines.py keep the text: joined, they give it back.
use Prim.Native.Char.{Char}
use Prim.Native.String.{◌++◌ as ◌<>◌}
use scope_proof.Base.{String, List, [], ◌∷◌, nat_eq}

-- Each line with a newline after it.
unfoldable pub terminated : List String → String
terminated [] = ""
terminated (line ∷ lines) = line <> ("\n" <> terminated lines)

-- A newline between one line and the next.
unfoldable pub separated : List String → String
separated [] = ""
separated (line ∷ []) = line
separated (line ∷ next ∷ lines) = line <> ("\n" <> separated (next ∷ lines))

-- The records of `split`, put together again.
joined : String → List String → String
joined first [] = first
joined first (next ∷ rest) = first <> ("\n" <> joined next rest)

-- The character of `"\n"`.
abbrev newline_char : Char
newline_char = "\n"
