-- ===== src/ScopeComparison/Mirror.antt =====
-- reviews/scope_comparison.py against gates/evaluator.py: the open paths of a snapshot are those
-- of the scope gate.
use scope_proof.Base.{
  String, Bool, true, false, not, ◌&&◌, Option, none, some, List, [], map, filter, any, contains,
  if◌then◌else◌, string_eq, ◌==◌, ◌≡◌, ◌∙◌, refl, arith, ap, sym, subst, ok, >>-eq_ok, ok-injective,
  sorted, distinct, contains-sorted, contains-distinct_onto,
}
use scope_proof.Schema.{ReviewBundle, FileScopeDecision, ChangedFileInventory}
use scope_proof.FileScope.{
  applies, unresolved_changed_file_paths, paths, cited_paths, is_unresolved, latest_decision,
  is_not_outside,
}
use scope_proof.ScopeComparison.{
  FileScopeSnapshot, head_differs, is_foreign, sorted_inventory, snapshot_paths, is_cited,
  outside_paths, latest_of, sort_files, projection, from_bundle, unresolved_paths,
  validate_snapshot,
}
use scope_proof.ScopeComparison.Members.{
  passes, passes-latest_of, latest_of-filter, contains-filter, contains-sort_files,
  contains-outside_paths, latest_of-decided, latest_of-absent, contains-cited,
}

-- Both are unknown, or both hold the same paths.
abbrev pub SamePaths : Option (List String) → Option (List String) → Type 0
SamePaths none none = Unit {0}
SamePaths (some xs) (some ys) = (path : String) → contains xs path ≡ contains ys path
SamePaths _ _ = ⊥

both_agree :
    (cited cited_there outside not_outside : Bool)
    → cited ≡ cited_there
    → outside ≡ not not_outside
    → (not cited && not outside) ≡ (not cited_there && not_outside)
both_agree cited cited_there outside not_outside h k = ground arith

module _ (b : ReviewBundle) where
  own-applies :
      (found : Option FileScopeDecision)
      → passes (λ d. not (is_foreign (projection b) d)) found ≡ true
      → passes (applies b.review) found ≡ true
  unfolding projection
  own-applies none h = refl
  own-applies (some d) h = ground arith

  -- A path that the sorted paths of the decisions leave out has no decision.
  latest-applies :
      any (is_foreign (projection b)) (projection b).latest_decisions ≡ false
      → (path : String) → passes (applies b.review) (latest_of b.file_scope_decisions path) ≡ true
  unfolding projection
  latest-applies own path = of_test (contains decided path) refl
    where
      decided : List String
      decided = map (λ d. d.path) b.file_scope_decisions

      of_test :
          (held : Bool)
          → contains decided path ≡ held
          → passes (applies b.review) (latest_of b.file_scope_decisions path) ≡ true
      of_test false h = rw (latest_of-absent b.file_scope_decisions path h) refl
      of_test true h = own-applies (latest_of b.file_scope_decisions path) (
          passes-latest_of (is_foreign (projection b)) b.file_scope_decisions
            (sorted (distinct decided)) path own
            (contains-sorted (distinct decided) path ∙ contains-distinct_onto [] decided path ∙ h))

  scope_latest :
      any (is_foreign (projection b)) (projection b).latest_decisions ≡ false
      → (path : String)
      → contains (outside_paths (projection b).latest_decisions) path
        ≡ not (is_not_outside (latest_decision b.review b.file_scope_decisions path))
  unfolding projection
  scope_latest own path =
      contains-outside_paths b.file_scope_decisions (sorted (distinct decided)) path
      ∙ ap (λ held. held && outside)
          (contains-sorted (distinct decided) path ∙ contains-distinct_onto [] decided path)
      ∙ latest_of-decided b.file_scope_decisions path
      ∙ ap (λ found. not (is_not_outside found))
          (sym (
            latest_of-filter (applies b.review) b.file_scope_decisions path
              (latest-applies own path)))
    where
      decided : List String
      decided = map (λ d. d.path) b.file_scope_decisions

      outside : Bool
      outside = not (is_not_outside (latest_of b.file_scope_decisions path))

  contains-projection_cited :
      (path : String)
      → contains (snapshot_paths b.review.changed_file_inventory) path ≡ true
      → contains (projection b).cited_paths path
        ≡ contains (cited_paths b.review b.findings b.evidence) path
  unfolding projection
  contains-projection_cited path inspected =
      contains-sorted
        (distinct (map (λ e. e.file_path) (filter (is_cited b.review b.findings) b.evidence))) path
      ∙ contains-distinct_onto []
          (map (λ e. e.file_path) (filter (is_cited b.review b.findings) b.evidence)) path
      ∙ contains-cited b.review b.findings b.evidence path inspected

  -- What the snapshot lists as open.
  abbrev is_open : String → Bool
  is_open path =
      not (contains (projection b).cited_paths path)
      && not (contains (outside_paths (projection b).latest_decisions) path)

  abbrev is_unresolved_path : String → Bool
  is_unresolved_path = is_unresolved b.review b.findings b.evidence b.file_scope_decisions

  is_open-unresolved :
      any (is_foreign (projection b)) (projection b).latest_decisions ≡ false
      → (path : String)
      → (contains (snapshot_paths b.review.changed_file_inventory) path && is_open path) ≡ (
          contains (snapshot_paths b.review.changed_file_inventory) path && is_unresolved_path path)
  is_open-unresolved own path =
      of_test (contains (snapshot_paths b.review.changed_file_inventory) path) refl
    where
      of_test :
          (held : Bool)
          → contains (snapshot_paths b.review.changed_file_inventory) path ≡ held
          → (held && is_open path) ≡ (held && is_unresolved_path path)
      of_test false h = refl
      of_test true h =
          both_agree (contains (projection b).cited_paths path)
            (contains (cited_paths b.review b.findings b.evidence) path)
            (contains (outside_paths (projection b).latest_decisions) path)
            (is_not_outside (latest_decision b.review b.file_scope_decisions path))
            (contains-projection_cited path h) (scope_latest own path)

  contains-open :
      (i : ChangedFileInventory)
      → b.review.changed_file_inventory ≡ some i
      → any (is_foreign (projection b)) (projection b).latest_decisions ≡ false
      → (path : String)
      → contains (sorted (distinct (filter is_open (map (λ f. f.path) (sort_files i.files))))) path
        ≡ contains (filter is_unresolved_path (paths i)) path
  contains-open i known own path =
      contains-sorted (distinct (filter is_open sorted_paths)) path
      ∙ contains-distinct_onto [] (filter is_open sorted_paths) path
      ∙ contains-filter is_open sorted_paths path
      ∙ ap (λ held. held && is_open path) (contains-sort_files i.files path)
      ∙ subst
          (λ o.
            (contains (snapshot_paths o) path && is_open path)
            ≡ (contains (snapshot_paths o) path && is_unresolved_path path))
          known (is_open-unresolved own path)
      ∙ sym (contains-filter is_unresolved_path (paths i) path)
    where
      sorted_paths : List String
      sorted_paths = map (λ f. f.path) (sort_files i.files)

  of_inventory :
      (inventory : Option ChangedFileInventory)
      → b.review.changed_file_inventory ≡ inventory
      → head_differs (projection b) inventory ≡ false
      → any (is_foreign (projection b)) (projection b).latest_decisions ≡ false
      → SamePaths
          (elim (sorted_inventory inventory) [
            | none ↦ none
            | some i ↦ some (sorted (distinct (filter is_open (paths i))))
          ])
          (elim inventory [
            | none ↦ none
            | some i ↦
                if i.head_sha == b.review.head_sha
                then some (filter is_unresolved_path (paths i))
                else none
          ])
  unfolding projection sort_files
  of_inventory none known same own = tt
  of_inventory (some i) known same own =
      let at_head : (i.head_sha == b.review.head_sha) ≡ true = ground arith in
      rw at_head (contains-open i known own)

-- A snapshot that is accepted is about the head of its inventory.
validate_snapshot-head :
    (s : FileScopeSnapshot) → validate_snapshot s ≡ ok tt → head_differs s s.inventory ≡ false
unfolding validate_snapshot
validate_snapshot-head s h = ground arith

head_differs-sorted_inventory :
    (s : FileScopeSnapshot) (o : Option ChangedFileInventory)
    → head_differs s (sorted_inventory o) ≡ head_differs s o
unfolding sort_files
head_differs-sorted_inventory s none = refl
head_differs-sorted_inventory s (some i) = refl

-- A snapshot that is accepted holds no decision about another review, head or confirmation.
validate_snapshot-own :
    (s : FileScopeSnapshot)
    → validate_snapshot s ≡ ok tt
    → any (is_foreign s) s.latest_decisions ≡ false
unfolding validate_snapshot
validate_snapshot-own s h = ground arith

-- Where a bundle has a scope snapshot, the snapshot knows the open paths exactly where the scope
-- gate does, and they are the same paths.
pub from_bundle-unresolved :
    (b : ReviewBundle) (snapshot : FileScopeSnapshot)
    → from_bundle b ≡ ok snapshot
    → SamePaths
        (unresolved_paths snapshot)
        (unresolved_changed_file_paths b.review b.findings b.evidence b.file_scope_decisions)
unfolding from_bundle unresolved_paths unresolved_changed_file_paths projection
from_bundle-unresolved b snapshot returned =
    let (valid, same) = >>-eq_ok (validate_snapshot (projection b)) (ok (projection b)) returned in
    let head : head_differs (projection b) b.review.changed_file_inventory ≡ false =
      sym (head_differs-sorted_inventory (projection b) b.review.changed_file_inventory)
      ∙ validate_snapshot-head (projection b) valid in
    subst
      (λ s.
        SamePaths (unresolved_paths s)
          (unresolved_changed_file_paths b.review b.findings b.evidence b.file_scope_decisions))
      (ok-injective (projection b) snapshot same)
      (of_inventory b b.review.changed_file_inventory refl head
        (validate_snapshot-own (projection b) valid))
