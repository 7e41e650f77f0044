-- ===== src/Base/Text.antt =====
-- Python's methods on text: `strip`, `splitlines`, `split`, `join` and `removeprefix`.
use Prim.Native.Nat.{ℕ}
use Prim.Native.Char.{Char, code}
use Prim.Native.String.{String, ◌++◌ as ◌<>◌}
use mathlib.Core.Path.{◌≡◌, refl, ◌∙◌}
use mathlib.Core.Bool.{Bool, true, false, ◌&&◌, ◌||◌}
use mathlib.Core.Option.{Option, none, some}
use mathlib.Core.List.{List, [], ◌∷◌}
use native.Mathlib.Omega.{arith}
use scope_proof.Base.Logic.{if◌then◌else◌, leb, Bool-cases}
use mathlib.Core.Logic.{inl, inr}
use scope_proof.Base.Equality.{==→≡, ≡→==, string_eq, ◌==◌, nat_eq}

-- The code points that Python's `str.strip` removes.
unfoldable pub is_space : ℕ → Bool
is_space c =
    leb 9 c && leb c 13
    || leb 28 c && leb c 32
    || c == 133
    || c == 160
    || c == 5760
    || leb 8192 c && leb c 8202
    || c == 8232
    || c == 8233
    || c == 8239
    || c == 8287
    || c == 12288

-- `not text.strip()`
unfoldable pub is_blank : String → Bool
is_blank String.[] = true
is_blank (String.◌∷◌ c s) = is_space (code c) && is_blank s

-- `text.lstrip()`
unfoldable pub drop_spaces : String → String
drop_spaces String.[] = String.[]
drop_spaces (String.◌∷◌ c s) =
    let rest = drop_spaces s in if is_space (code c) then rest else String.◌∷◌ c s

-- `text.rstrip()`
unfoldable pub trim_end : String → String
unfolding is_blank
trim_end String.[] = String.[]
trim_end (String.◌∷◌ c s) =
    let rest = trim_end s in
    if is_space (code c) && is_blank s then String.[] else String.◌∷◌ c rest

-- `text.strip()`
unfoldable pub strip : String → String
unfolding drop_spaces trim_end
strip s = trim_end (drop_spaces s)

-- The code points that end a line for `str.splitlines`.
unfoldable pub is_break : ℕ → Bool
is_break c = leb 10 c && leb c 13 || leb 28 c && leb c 30 || c == 133 || c == 8232 || c == 8233

starts_with_newline : String → Bool
starts_with_newline String.[] = false
starts_with_newline (String.◌∷◌ c s) = code c == 10

-- A character joins the line that follows it.
abbrev onto_first : Char → List String → List String
onto_first c [] = String.◌∷◌ c String.[] ∷ []
onto_first c (line ∷ lines) = String.◌∷◌ c line ∷ lines

-- `text.splitlines()`: a carriage return before a newline ends no line of its own.
unfoldable pub splitlines : String → List String
unfolding starts_with_newline is_break
splitlines String.[] = []
splitlines (String.◌∷◌ c s) =
    let rest = splitlines s in
    if code c == 13 && starts_with_newline s
    then rest
    else if is_break (code c)
    then String.[] ∷ rest
    else onto_first c rest

-- The words of a text, and whether the text starts inside the first of them.
abbrev split_at : Char → Bool × List String → Bool × List String
split_at c (inside, found) =
    if is_space (code c)
    then (false, found)
    else if inside
    then (true, onto_first c found)
    else (true, String.◌∷◌ c String.[] ∷ found)

-- `text.split()`
unfoldable pub words_from : String → Bool × List String
words_from String.[] = (false, [])
words_from (String.◌∷◌ c s) = split_at c (words_from s)

-- `" ".join(parts)`
unfoldable pub join_words : List String → String
join_words [] = ""
join_words (part ∷ []) = part
join_words (part ∷ next ∷ parts) = part <> (" " <> join_words (next ∷ parts))

-- `text.removeprefix(prefix)`, where no text is left when the prefix does not match.
unfoldable pub after_prefix : (prefix text : String) → Option String
after_prefix String.[] s = some s
after_prefix (String.◌∷◌ c p) String.[] = none
after_prefix (String.◌∷◌ c p) (String.◌∷◌ d s) =
    let rest = after_prefix p s in if code c == code d then rest else none

-- Stripped text is empty exactly if there was only whitespace.
is_blank-drop_spaces : (s : String) → is_blank (drop_spaces s) ≡ is_blank s
unfolding is_blank drop_spaces
is_blank-drop_spaces String.[] = refl
is_blank-drop_spaces (String.◌∷◌ c s) = ground (arith, is_blank-drop_spaces s)

is_blank-cond :
    (b : Bool) (c : Char) (s : String)
    → is_blank (if b then String.[] else String.◌∷◌ c s) ≡ (b || is_space (code c) && is_blank s)
unfolding is_blank
is_blank-cond true c s = refl
is_blank-cond false c s = refl

is_blank-trim_end : (s : String) → is_blank (trim_end s) ≡ is_blank s
unfolding is_blank trim_end
is_blank-trim_end String.[] = refl
is_blank-trim_end (String.◌∷◌ c s) =
    is_blank-cond (is_space (code c) && is_blank s) c (trim_end s)
    ∙ ground (arith, is_blank-trim_end s)

pub is_blank-strip : (s : String) → is_blank (strip s) ≡ is_blank s
unfolding strip
is_blank-strip s = is_blank-trim_end (drop_spaces s) ∙ is_blank-drop_spaces s

cond-eq_empty :
    (b : Bool) (c : Char) (s : String) → ((if b then String.[] else String.◌∷◌ c s) == "") ≡ b
cond-eq_empty true c s = ≡→== {A = String} "" "" refl
cond-eq_empty false c s = elim (Bool-cases (String.◌∷◌ c s == "")) [
  | inl p ↦ let e = ==→≡ (String.◌∷◌ c s) "" p in cc
  | inr p ↦ p
]

trim_end-eq_empty : (s : String) → (trim_end s == "") ≡ is_blank s
unfolding is_blank trim_end
trim_end-eq_empty String.[] = ≡→== {A = String} "" "" refl
trim_end-eq_empty (String.◌∷◌ c s) = cond-eq_empty (is_space (code c) && is_blank s) c (trim_end s)

-- `text.strip() == ""` is `not text.strip()`.
pub strip-eq_empty : (s : String) → (strip s == "") ≡ is_blank s
unfolding strip
strip-eq_empty s = trim_end-eq_empty (drop_spaces s) ∙ is_blank-drop_spaces s
