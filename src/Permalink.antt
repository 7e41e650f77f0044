-- ===== src/Permalink.antt =====
-- scopeproof_core/provenance.py: links to exact lines of a GitHub blob.
use Prim.Native.Nat.{◌/◌, ◌%◌}
use Prim.Native.String.{◌++◌ as ◌<>◌}
use scope_proof.Base.{
  ℕ, zero, suc, String, Bool, true, false, ◌&&◌, none, some, List, [], ◌∷◌, if◌then◌else◌, ltb,
  ◌==◌, string_eq, nat_eq, contains,
}
use scope_proof.Schema.{Platform}

unfoldable pub digit : ℕ → String
digit n =
    if n == 0
    then "0"
    else if n == 1
    then "1"
    else if n == 2
    then "2"
    else if n == 3
    then "3"
    else if n == 4
    then "4"
    else if n == 5
    then "5"
    else if n == 6
    then "6"
    else if n == 7
    then "7"
    else if n == 8
    then "8"
    else "9"

-- The decimal digits of a number, with fuel above the number: a tenth is below it.
unfoldable pub digits : ℕ → ℕ → String
unfolding digit
digits zero n = ""
digits (suc fuel) n = elim (ltb n 10) [
  | true ↦ digit n
  | false ↦ digits fuel (n / 10) <> digit (n % 10)
]

-- `f"{n}"`
unfoldable pub decimal : ℕ → String
unfolding digits
decimal n = digits (suc n) n

-- `fragments`
abbrev fragments : ℕ → ℕ → List String
fragments first last =
    let range : String = "L" <> decimal first <> "-L" <> decimal last in
    if first == last then range ∷ ("L" <> decimal first) ∷ [] else range ∷ []

abbrev expected_path : Platform → (repository commit_sha file_path : String) → String
expected_path P repository commit_sha file_path =
    "/"
    <> P.quote repository "/"
    <> "/blob/"
    <> P.quote commit_sha ""
    <> "/"
    <> P.quote file_path "/"

unfoldable pub candidate_permalink_matches :
    Platform
    → (permalink repository commit_sha file_path : String) → (line_start line_end : ℕ) → Bool
unfolding decimal
candidate_permalink_matches P permalink repository commit_sha file_path line_start line_end =
    elim (P.urlsplit permalink) [
      | none ↦ false
      | some parsed ↦
          parsed.scheme == "https"
          && parsed.netloc == "github.com"
          && parsed.path == expected_path P repository commit_sha file_path
          && parsed.query == ""
          && contains (fragments line_start line_end) parsed.fragment
    ]
