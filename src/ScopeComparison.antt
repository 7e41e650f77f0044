-- ===== src/ScopeComparison.antt =====
-- scopeproof_core/reviews/scope_comparison.py: the changed-file scope of one head, for a comparison.
pub mod Members
pub mod Mirror
use mathlib.Core.List.{flat_map}
use scope_proof.Base.{
  ℕ, String, Bool, true, false, not, ◌&&◌, ◌||◌, Option, none, some, List, [], ◌∷◌, ◌++◌, map,
  filter, filter_map, any, contains, subset, same_members, is_empty, is_blank, str_leb, is_some,
  distinct, sorted, last_by, Result, ok, ◌>>=◌, ◌>>◌, raise_if, Dict, keys, insert, if◌then◌else◌,
  ◌==◌, string_eq, nat_eq, option_eq, list_eq, set_add,
}
use scope_proof.Schema.{
  ReviewBundle, Review, Finding, EvidenceItem, ChangedFileInventory, ChangedFileScope,
  FileScopeDecision, Disposition, IngestionState, CriteriaSourceProvenance, is_changed_file,
  is_complete,
}
use scope_proof.FileScope.{paths}

pub record FileScopeSnapshot : Type 0 where
  pub review_id : String
  pub head_sha : String
  pub criteria_revision_number : Option ℕ
  pub normalized_criteria_sha256 : Option String
  pub criterion_ids : List String
  pub finding_evidence_ids : Dict String (List String)
  pub inventory : Option ChangedFileInventory
  pub cited_paths : List String
  pub latest_decisions : List FileScopeDecision
  pub ingestion_state : IngestionState
  pub skipped_files : List String
  pub ingestion_warnings : List String

-- `{item.path for item in self.inventory.files} if self.inventory else set()`
abbrev pub snapshot_paths : Option ChangedFileInventory → List String
snapshot_paths none = []
snapshot_paths (some inventory) = paths inventory

-- `value == sorted(set(value))`
abbrev is_canonical : List String → Bool
is_canonical xs = xs == sorted (distinct xs)

abbrev head_differs : FileScopeSnapshot → Option ChangedFileInventory → Bool
head_differs s none = false
head_differs s (some inventory) = not (inventory.head_sha == s.head_sha)

abbrev names_unknown : FileScopeSnapshot → Option String → Bool
names_unknown s none = false
names_unknown s (some id) = not (contains s.criterion_ids id)

-- A decision that the last loop refuses.
abbrev is_foreign : FileScopeSnapshot → FileScopeDecision → Bool
is_foreign s d =
    not (d.review_id == s.review_id)
    || not (d.head_sha == s.head_sha)
    || not (some d.criteria_revision_number == s.criteria_revision_number)
    || not (some d.normalized_criteria_sha256 == s.normalized_criteria_sha256)
    || not (contains (snapshot_paths s.inventory) d.path)
    || names_unknown s d.criterion_id

-- `_validate_identity`
unfoldable pub validate_snapshot : FileScopeSnapshot → Result (Unit {0})
unfolding is_blank sorted
validate_snapshot s = do
  raise_if (is_blank s.head_sha || is_blank s.review_id)
      "scope snapshot requires nonblank review and head identity"
  raise_if (not (is_canonical s.criterion_ids) || any is_blank s.criterion_ids)
      "scope criterion IDs must be canonical"
  raise_if
      (not (same_members (keys s.finding_evidence_ids) s.criterion_ids)
        || any (λ entry. not (is_canonical entry.1)) s.finding_evidence_ids)
      "scope finding links must match the confirmed criteria"
  raise_if
      (is_complete s.ingestion_state
        && (not (is_empty s.skipped_files) || not (is_empty s.ingestion_warnings)))
      "complete scope ingestion cannot include limitations"
  raise_if (head_differs s s.inventory) "scope inventory must match snapshot head"
  raise_if
      (not (is_canonical s.cited_paths) || not (subset s.cited_paths (snapshot_paths s.inventory)))
      "cited scope paths must be canonical inspected paths"
  raise_if (not (is_canonical (map (λ d. d.path) s.latest_decisions)))
      "latest scope decisions must use canonical unique paths"
  raise_if (any (is_foreign s) s.latest_decisions)
      "scope decision must match its owning snapshot identity"

abbrev pub places_outside : FileScopeDecision → Bool
places_outside d = elim d.disposition [
  | Disposition.outside_confirmed_criteria ↦ true
  | Disposition.within_confirmed_criteria ↦ false
]

-- `outside`
abbrev pub outside_paths : List FileScopeDecision → List String
outside_paths decisions = map (λ d. d.path) (filter places_outside decisions)

-- `unresolved_paths`
unfoldable pub unresolved_paths : FileScopeSnapshot → Option (List String)
unfolding sorted
unresolved_paths s = elim s.inventory [
  | none ↦ none
  | some inventory ↦ some (
      sorted (
        distinct (
          filter
            (λ path.
              not (contains s.cited_paths path)
              && not (contains (outside_paths s.latest_decisions) path))
            (paths inventory))))
]

-- `linked`
abbrev pub linked_ids : List Finding → List String
linked_ids = flat_map (λ f. f.evidence_ids)

-- An item whose path goes into `cited`.
abbrev pub is_cited : Review → List Finding → EvidenceItem → Bool
is_cited review findings item =
    is_changed_file item.source_scope
    && item.commit_sha == review.head_sha
    && contains (linked_ids findings) item.evidence_id
    && contains (snapshot_paths review.changed_file_inventory) item.file_path

-- `latest[path]`
abbrev pub latest_of : List FileScopeDecision → String → Option FileScopeDecision
latest_of decisions path = last_by (λ d. d.path) path decisions

unfoldable pub insert_file : ChangedFileScope → List ChangedFileScope → List ChangedFileScope
insert_file f [] = f ∷ []
insert_file f (g ∷ gs) =
    let rest = insert_file f gs in if str_leb f.path g.path then f ∷ g ∷ gs else g ∷ rest

-- `files.sort(key=lambda item: item.path)`
unfoldable pub sort_files : List ChangedFileScope → List ChangedFileScope
unfolding insert_file
sort_files [] = []
sort_files (f ∷ fs) = insert_file f (sort_files fs)

abbrev sorted_inventory : Option ChangedFileInventory → Option ChangedFileInventory
unfolding sort_files
sorted_inventory none = none
sorted_inventory (some inventory) = some (record inventory { files = sort_files inventory.files })

abbrev digest_of : Option CriteriaSourceProvenance → Option String
digest_of none = none
digest_of (some p) = some p.normalized_criteria_sha256

-- `{item.criterion_id: sorted(set(item.evidence_ids)) for item in findings}`, onto a dictionary.
unfoldable pub finding_links : List Finding → Dict String (List String) → Dict String (List String)
unfolding insert sorted
finding_links [] links = links
finding_links (f ∷ fs) links =
    finding_links fs (insert f.criterion_id (sorted (distinct f.evidence_ids)) links)

-- The arguments of `cls(...)` in `from_bundle`.
unfoldable pub projection : ReviewBundle → FileScopeSnapshot
unfolding sorted sort_files finding_links
projection b = record {
  review_id = b.review.review_id;
  head_sha = b.review.head_sha;
  criteria_revision_number = b.criteria_revision_number;
  normalized_criteria_sha256 = digest_of b.review.criteria_source_provenance;
  criterion_ids = sorted (map (λ c. c.criterion_id) b.criteria);
  finding_evidence_ids = finding_links b.findings [];
  inventory = sorted_inventory b.review.changed_file_inventory;
  cited_paths =
      sorted (distinct (map (λ e. e.file_path) (filter (is_cited b.review b.findings) b.evidence)));
  latest_decisions =
      filter_map (latest_of b.file_scope_decisions)
        (sorted (distinct (map (λ d. d.path) b.file_scope_decisions)));
  ingestion_state = b.review.ingestion_state;
  skipped_files = sorted (distinct b.review.skipped_files);
  ingestion_warnings = b.review.ingestion_warnings;
}

-- `FileScopeSnapshot.from_bundle`
unfoldable pub from_bundle : ReviewBundle → Result FileScopeSnapshot
unfolding validate_snapshot projection
from_bundle b = do validate_snapshot (projection b); ok (projection b)
