-- ===== src/Criteria/Warnings.antt =====
-- validate_criteria of scopeproof_core/criteria/service.py: warnings on the structure of criteria.
use Prim.Native.Char.{code}
use Prim.Native.String.{◌++◌ as ◌<>◌, count}
use scope_proof.Base.{
  String_discrete, Bool-cases, inl, inr, ℕ, ◌+◌, ◌≡◌, ◌∙◌, lookup-insert, lookup-nil, refl, arith,
  String, Bool, false, ◌&&◌, ◌||◌, not, Option, none, some, List, [], ◌∷◌, ◌++◌, map, any,
  words_from, join_words, if◌then◌else◌, ltb, leb, ◌==◌, nat_eq, string_eq, contains, nodup,
  is_some, Dict, lookup, insert, any-append,
}
use scope_proof.Criteria.Numbers.{Unicode}
use scope_proof.Schema.{Platform, Criterion}

pub record CriterionWarning : Type 0 where
  pub criterion_id : String
  pub code : String
  pub message : String

-- The letters of `and`, and the code points of the three Chinese conjunctions.
abbrev markers : List (List ℕ)
markers =
    (97 ∷ 110 ∷ 100 ∷ []) ∷ (20197 ∷ 21450 ∷ []) ∷ (24182 ∷ 19988 ∷ []) ∷ (21516 ∷ 26102 ∷ []) ∷ []

-- A letter of ASCII without its case.
abbrev lower : ℕ → ℕ
lower c = if leb 65 c && leb c 90 then c + 32 else c

starts_with_word : Unicode → String → Bool
starts_with_word U String.[] = false
starts_with_word U (String.◌∷◌ c s) = U.is_word (code c)

-- The text starts with the marker, and no word character follows it.
starts_with_marker : Unicode → List ℕ → String → Bool
unfolding starts_with_word
starts_with_marker U [] s = not (starts_with_word U s)
starts_with_marker U (m ∷ ms) String.[] = false
starts_with_marker U (m ∷ ms) (String.◌∷◌ c s) = lower (code c) == m && starts_with_marker U ms s

-- `_COMPOUND_MARKERS.search`, from a position that follows a word character or does not.
unfoldable pub has_marker : Unicode → (in_word : Bool) → String → Bool
unfolding starts_with_marker
has_marker U in_word String.[] = false
has_marker U in_word (String.◌∷◌ c s) =
    not in_word && any (λ m. starts_with_marker U m (String.◌∷◌ c s)) markers
    || has_marker U (U.is_word (code c)) s

-- `" ".join(criterion.text.casefold().split())`
unfoldable pub normalized : Platform → Criterion → String
normalized P criterion =
    let (inside, words) = words_from (P.casefold criterion.text) in join_words words

abbrev when_compound : Unicode → Criterion → List CriterionWarning
when_compound U criterion =
    if has_marker U false criterion.text
    then record {
      criterion_id = criterion.criterion_id;
      code = "compound_criterion";
      message = "This may describe more than one independently judgeable behavior.";
    }
      ∷ []
    else []

abbrev when_duplicate : Criterion → Option String → List CriterionWarning
when_duplicate criterion none = []
when_duplicate criterion (some first_id) =
    record {
      criterion_id = criterion.criterion_id;
      code = "duplicate_criterion";
      message = "This duplicates " <> (first_id <> " after whitespace normalization.");
    }
    ∷ []

abbrev when_long : Criterion → List CriterionWarning
when_long criterion =
    if ltb 240 (count criterion.text)
    then record {
      criterion_id = criterion.criterion_id;
      code = "long_criterion";
      message = "Consider shortening this criterion while preserving its meaning.";
    }
      ∷ []
    else []

-- `seen[normalized] = criterion.criterion_id`, if it is not in yet
unfoldable pub remember : Platform → Criterion → Dict String String → Dict String String
unfolding lookup insert normalized
remember P criterion seen =
    if is_some (lookup (normalized P criterion) seen)
    then seen
    else insert (normalized P criterion) criterion.criterion_id seen

-- The rest of the loop, from a state of `seen`.
unfoldable pub warn_from :
    Platform → Unicode → Dict String String → List Criterion → List CriterionWarning
unfolding has_marker normalized lookup remember
warn_from P U seen [] = []
warn_from P U seen (criterion ∷ criteria) =
    when_compound U criterion
    ++ (when_duplicate criterion (lookup (normalized P criterion) seen)
        ++ (when_long criterion ++ warn_from P U (remember P criterion seen) criteria))

unfoldable pub validate_criteria : Platform → Unicode → List Criterion → List CriterionWarning
unfolding warn_from
validate_criteria P U criteria = warn_from P U [] criteria

abbrev pub warns_of_duplicate : List CriterionWarning → Bool
warns_of_duplicate = any (λ w. w.code == "duplicate_criterion")

-- Some text of the list is a key already or comes twice.
unfoldable repeats : Dict String String → List String → Bool
unfolding lookup
repeats seen [] = false
repeats seen (t ∷ ts) = is_some (lookup t seen) || (contains ts t || repeats seen ts)

is_some-remember :
    (P : Platform) (c : Criterion) (seen : Dict String String) (t : String)
    → is_some (lookup t (remember P c seen)) ≡ (t == normalized P c || is_some (lookup t seen))
unfolding remember
is_some-remember P c seen t = ground (arith, lookup-insert t (normalized P c) c.criterion_id seen)

-- What is new to the loop after a criterion is what repeats its text or was known before.
repeats-remember :
    (P : Platform) (c : Criterion) (seen : Dict String String) (ts : List String)
    → repeats (remember P c seen) ts ≡ (contains ts (normalized P c) || repeats seen ts)
unfolding repeats
repeats-remember P c seen [] = refl
repeats-remember P c seen (t ∷ ts) =
    ground (arith, is_some-remember P c seen t, repeats-remember P c seen ts)

compound-none : (U : Unicode) (c : Criterion) → warns_of_duplicate (when_compound U c) ≡ false
unfolding String_discrete
compound-none U c = elim (Bool-cases (has_marker U false c.text)) [
  | inl p ↦ rw p refl
  | inr p ↦ rw p refl
]

long-none : (c : Criterion) → warns_of_duplicate (when_long c) ≡ false
unfolding String_discrete
long-none c = elim (Bool-cases (ltb 240 (count c.text))) [ inl p ↦ rw p refl | inr p ↦ rw p refl ]

duplicate-some :
    (c : Criterion) (first : Option String)
    → warns_of_duplicate (when_duplicate c first) ≡ is_some first
unfolding String_discrete
duplicate-some c none = refl
duplicate-some c (some first) = refl

duplicates-append :
    (ws vs : List CriterionWarning)
    → warns_of_duplicate (ws ++ vs) ≡ (warns_of_duplicate ws || warns_of_duplicate vs)
duplicates-append = any-append (λ w. w.code == "duplicate_criterion")

warn_from-repeats :
    (P : Platform) (U : Unicode) (seen : Dict String String) (cs : List Criterion)
    → warns_of_duplicate (warn_from P U seen cs) ≡ repeats seen (map (normalized P) cs)
unfolding warn_from repeats
warn_from-repeats P U seen [] = refl
warn_from-repeats P U seen (c ∷ cs) =
    let rest = warn_from P U (remember P c seen) cs in
    let duplicate = when_duplicate c (lookup (normalized P c) seen) in
    rw
      (
        duplicates-append (when_compound U c) (duplicate ++ (when_long c ++ rest)),
        duplicates-append duplicate (when_long c ++ rest),
        duplicates-append (when_long c) rest,
        compound-none U c,
        long-none c,
        duplicate-some c (lookup (normalized P c) seen),
        warn_from-repeats P U (remember P c seen) cs,
        repeats-remember P c seen (map (normalized P) cs),
      )
      refl

repeats-nil : (ts : List String) → repeats [] ts ≡ not (nodup ts)
unfolding repeats
repeats-nil [] = refl
repeats-nil (t ∷ ts) = ground (arith, lookup-nil {V = String} t, repeats-nil ts)

-- The warnings speak of a duplicate exactly if two criteria have the same text after case folding
-- and with single spaces.
pub validate_criteria-nodup :
    (P : Platform) (U : Unicode) (criteria : List Criterion)
    → warns_of_duplicate (validate_criteria P U criteria)
      ≡ not (nodup (map (normalized P) criteria))
unfolding validate_criteria
validate_criteria-nodup P U criteria =
    warn_from-repeats P U [] criteria ∙ repeats-nil (map (normalized P) criteria)
