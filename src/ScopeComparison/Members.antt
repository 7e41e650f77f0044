-- ===== src/ScopeComparison/Members.antt =====
-- The paths of reviews/scope_comparison.py: which paths its lists and sets hold.
use mathlib.Core.List.{flat_map}
use scope_proof.Base.{
  String, Bool, true, false, not, ◌&&◌, ◌||◌, Option, none, some, List, [], ◌∷◌, map, filter,
  filter_map, any, contains, string_eq, ◌==◌, ◌≡◌, ◌∙◌, refl, arith, sym, ap, contains-append,
}
use scope_proof.Schema.{Review, Finding, EvidenceItem, ChangedFileScope, FileScopeDecision}
use scope_proof.FileScope.{cited_paths, is_not_outside, is_linked}
use scope_proof.ScopeComparison.{
  snapshot_paths, is_cited, places_outside, outside_paths, linked_ids, latest_of, insert_file,
  sort_files,
}

pub contains-filter :
    (p : String → Bool) (xs : List String) (a : String)
    → contains (filter p xs) a ≡ (contains xs a && p a)
contains-filter p [] a = refl
contains-filter p (x ∷ xs) a = ground (arith, contains-filter p xs a)

contains-insert_file :
    (f : ChangedFileScope) (fs : List ChangedFileScope) (a : String)
    → contains (map (λ g. g.path) (insert_file f fs)) a
      ≡ (a == f.path || contains (map (λ g. g.path) fs) a)
unfolding insert_file
contains-insert_file f [] a = refl
contains-insert_file f (g ∷ gs) a = ground (arith, contains-insert_file f gs a)

pub contains-sort_files :
    (fs : List ChangedFileScope) (a : String)
    → contains (map (λ g. g.path) (sort_files fs)) a ≡ contains (map (λ g. g.path) fs) a
unfolding sort_files
contains-sort_files [] a = refl
contains-sort_files (f ∷ fs) a =
    ground (arith, contains-insert_file f (sort_files fs) a, contains-sort_files fs a)

pub contains-linked_ids :
    (findings : List Finding) (item : EvidenceItem)
    → contains (linked_ids findings) item.evidence_id ≡ is_linked findings item
unfolding flat_map
contains-linked_ids [] item = refl
contains-linked_ids (f ∷ fs) item =
    contains-append f.evidence_ids (linked_ids fs) item.evidence_id
    ∙ ap (contains f.evidence_ids item.evidence_id ||◌) (contains-linked_ids fs item)

places_outside-lem : (d : FileScopeDecision) → is_not_outside (some d) ≡ not (places_outside d)
places_outside-lem d = ground arith

-- A decision that is found is one on the path.
is_at : String → Option FileScopeDecision → Bool
is_at path none = true
is_at path (some d) = d.path == path

latest_of-is_at :
    (ds : List FileScopeDecision) (path : String) → is_at path (latest_of ds path) ≡ true
unfolding is_at
latest_of-is_at [] path = refl
latest_of-is_at (d ∷ ds) path = ground (arith, latest_of-is_at ds path)

contains-outside_cons :
    (found : Option FileScopeDecision) (path : String) (rest : List FileScopeDecision) (a : String)
    → is_at path found ≡ true
    → contains (outside_paths (elim found [ none ↦ rest | some d ↦ d ∷ rest ])) a
      ≡ (a == path && not (is_not_outside found) || contains (outside_paths rest) a)
unfolding is_at
contains-outside_cons none path rest a h = ground arith
contains-outside_cons (some d) path rest a h = ground (arith, places_outside-lem d)

pub contains-outside_paths :
    (ds : List FileScopeDecision) (ks : List String) (a : String)
    → contains (outside_paths (filter_map (latest_of ds) ks)) a
      ≡ (contains ks a && not (is_not_outside (latest_of ds a)))
contains-outside_paths ds [] a = refl
contains-outside_paths ds (k ∷ ks) a =
    contains-outside_cons (latest_of ds k) k (filter_map (latest_of ds) ks) a (latest_of-is_at ds k)
    ∙ ground (arith, contains-outside_paths ds ks a)

pub latest_of-absent :
    (ds : List FileScopeDecision) (a : String)
    → contains (map (λ d. d.path) ds) a ≡ false
    → latest_of ds a ≡ none
latest_of-absent [] a h = refl
latest_of-absent (d ∷ ds) a h = ground (arith, latest_of-absent ds a)

module _ (review : Review) (findings : List Finding) where
  pub contains-cited :
      (evidence : List EvidenceItem) (a : String)
      → contains (snapshot_paths review.changed_file_inventory) a ≡ true
      → contains (map (λ e. e.file_path) (filter (is_cited review findings) evidence)) a
        ≡ contains (cited_paths review findings evidence) a
  contains-cited [] a h = refl
  contains-cited (e ∷ es) a h = ground (arith, contains-cited es a, contains-linked_ids findings e)

-- A path without a decision is not outside.
pub latest_of-decided :
    (ds : List FileScopeDecision) (a : String)
    → (contains (map (λ d. d.path) ds) a && not (is_not_outside (latest_of ds a)))
      ≡ not (is_not_outside (latest_of ds a))
latest_of-decided ds a = of_test (contains (map (λ d. d.path) ds) a) refl
  where
    of_test :
        (held : Bool)
        → contains (map (λ d. d.path) ds) a ≡ held
        → (held && not (is_not_outside (latest_of ds a))) ≡ not (is_not_outside (latest_of ds a))
    of_test true h = refl
    of_test false h = ap (λ found. not (is_not_outside found)) (sym (latest_of-absent ds a h))

-- What is found, where anything is, passes the test.
abbrev pub passes : (FileScopeDecision → Bool) → Option FileScopeDecision → Bool
passes p none = true
passes p (some d) = p d

-- Dropping decisions keeps the latest one of a path, where that one is kept.
pub latest_of-filter :
    (p : FileScopeDecision → Bool) (ds : List FileScopeDecision) (a : String)
    → passes p (latest_of ds a) ≡ true
    → latest_of (filter p ds) a ≡ latest_of ds a
latest_of-filter p [] a h = refl
latest_of-filter p (d ∷ ds) a h = ground (arith, latest_of-filter p ds a)

pub passes-latest_of :
    (p : FileScopeDecision → Bool) (ds : List FileScopeDecision) (ks : List String) (a : String)
    → any p (filter_map (latest_of ds) ks) ≡ false
    → contains ks a ≡ true
    → passes (λ d. not (p d)) (latest_of ds a) ≡ true
passes-latest_of p ds [] a h m = cc
passes-latest_of p ds (k ∷ ks) a h m = ground (arith, passes-latest_of p ds ks a)
