-- ===== src/Bundle/Selected.antt =====
-- The part of `ReviewBundle.validate_cross_references` about criteria and selected references.
use Prim.Native.Char.{code}
use scope_proof.Base.{
  ℕ, zero, suc, String, Bool, true, false, not, ◌&&◌, ◌||◌, Option, none, some, List, [], ◌∷◌,
  Result, ok, err, ◌>>◌, raise_if, each, any, contains, nodup, find_first, is_none, leb,
  if◌then◌else◌, ◌==◌, string_eq, nat_eq, option_eq,
}
use scope_proof.Schema.{
  Platform, ReviewBundle, ReviewerSelectedReference, ChangedFileInventory, ChangedFileScope,
  CriteriaSourceProvenance, provenance_eq, is_changed_file, is_live,
}
use scope_proof.FileScope.{paths}
use scope_proof.Gate.{criterion_ids}
use scope_proof.Bundle.Audit.{validate_reference_audit, reference_ids}

abbrev check_source : Platform → ReviewBundle → Option CriteriaSourceProvenance → Result (Unit {0})
check_source P b none = ok tt
check_source P b (some p) = do
  raise_if (not (p.source_text_sha256 == P.text_sha256 b.source_text))
      "criteria source provenance does not match source text"
  raise_if (not (p.normalized_criteria_sha256 == P.criteria_sha256 b.criteria))
      "criteria source provenance does not match criteria"

unfoldable pub check_criteria : Platform → ReviewBundle → Result (Unit {0})
check_criteria P b = do
  raise_if (not (nodup (criterion_ids b.criteria))) "criterion IDs must be unique"
  check_source P b b.review.criteria_source_provenance

-- `{item.path for item in inventory.files} if inventory else set()`
abbrev pub inventory_paths : Option ChangedFileInventory → List String
inventory_paths none = []
inventory_paths (some inventory) = paths inventory

abbrev is_head_code : ℕ → Bool
is_head_code c = leb b'0' c && leb c b'9' || leb b'a' c && leb c b'f'

-- `[a-f0-9]{n}`, as a whole.
abbrev is_hex : ℕ → String → Bool
is_hex zero String.[] = true
is_hex zero (String.◌∷◌ c s) = false
is_hex (suc n) String.[] = false
is_hex (suc n) (String.◌∷◌ c s) = is_head_code (code c) && is_hex n s

-- `re.fullmatch(_EXACT_HEAD_PATTERN, head)`
unfoldable pub is_exact_head : String → Bool
is_exact_head = is_hex 40

-- A file that the review still has.
abbrev is_current_status : Platform → String → Bool
is_current_status P status =
    contains ("added" ∷ "modified" ∷ "renamed" ∷ "copied" ∷ "changed" ∷ []) (P.casefold status)

abbrev is_current_file : Platform → Option ChangedFileScope → Bool
is_current_file P none = false
is_current_file P (some f) = is_current_status P f.status

-- Where a reference may point, by its scope.
abbrev check_location :
    Platform → ReviewerSelectedReference → ChangedFileInventory → Result (Unit {0})
check_location P r inventory =
    if is_changed_file r.source_scope
    then raise_if
        (not (is_current_file P (find_first (λ f. f.path == r.file_path) inventory.files)))
        "selected changed reference must cite an inspected current path"
    else raise_if
        (contains (paths inventory) r.file_path
          || any (λ f. f.previous_path == some r.file_path) inventory.files)
        "selected unchanged reference cannot cite a changed or previous path"

unfoldable pub check_reference :
    Platform
    → ReviewBundle
    → ReviewerSelectedReference
    → Option ChangedFileInventory
    → Result (Unit {0})
unfolding is_exact_head
check_reference P b r none = err "selected references require a confirmed inventoried analysis"
check_reference P b r (some inventory) = do
  raise_if
      (not b.review.criteria_confirmed
        || is_none b.criteria_revision_number
        || is_none b.review.criteria_source_provenance)
      "selected references require a confirmed inventoried analysis"
  raise_if
      (not (
        r.review_id == b.review.review_id
        && r.repository == b.review.repository
        && r.pr_number == b.review.pr_number
        && r.head_sha == b.review.head_sha
        && some r.criteria_revision_number == b.criteria_revision_number))
      "selected reference identity must match the owning analysis"
  raise_if
      (not (r.confirmed_criteria_sha256 == P.criteria_sha256 b.criteria)
        || not (some r.criteria_source_provenance == b.review.criteria_source_provenance)
        || not (contains (criterion_ids b.criteria) r.criterion_id))
      "selected reference must map to the owning confirmed criteria"
  raise_if (contains b.review.skipped_files r.file_path)
      "selected reference cannot cite a skipped source"
  check_location P r inventory
  raise_if (is_live b.review.input_origin && not (is_exact_head r.head_sha))
      "live selected reference requires a full exact head SHA"

unfoldable pub check_references : Platform → ReviewBundle → Result (Unit {0})
unfolding check_reference validate_reference_audit
check_references P b = do
  raise_if (not (nodup (reference_ids b.reviewer_selected_references)))
      "selected reference IDs must be unique"
  validate_reference_audit b.reviewer_selected_references b.selected_reference_events
  each (λ r. check_reference P b r b.review.changed_file_inventory) b.reviewer_selected_references
