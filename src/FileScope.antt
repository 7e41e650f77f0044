-- ===== src/FileScope.antt =====
-- `unresolved_changed_file_paths` of scopeproof_core/gates/evaluator.py: the changed files of a
-- review that no finding cites and no reviewer has placed outside the criteria.
use scope_proof.Base.{
  String, Bool, true, false, not, ◌&&◌, Option, none, some, List, map, if◌then◌else◌, ◌==◌,
  string_eq, contains, filter, any, last_by,
}
use scope_proof.Schema.{
  Review, Finding, EvidenceItem, FileScopeDecision, Disposition, CriteriaSourceProvenance,
  is_changed_file, ChangedFileInventory,
}

abbrev pub has_digest : Option CriteriaSourceProvenance → String → Bool
has_digest none digest = false
has_digest (some p) digest = digest == p.normalized_criteria_sha256

-- The decision is about this head, this review and the confirmed criteria.
abbrev pub applies : Review → FileScopeDecision → Bool
applies review d =
    d.head_sha == review.head_sha
    && d.review_id == review.review_id
    && has_digest review.criteria_source_provenance d.normalized_criteria_sha256

-- `path not in latest or latest[path].disposition != "outside_confirmed_criteria"`
abbrev pub is_not_outside : Option FileScopeDecision → Bool
is_not_outside none = true
is_not_outside (some d) = elim d.disposition [
  | Disposition.outside_confirmed_criteria ↦ false
  | Disposition.within_confirmed_criteria ↦ true
]

abbrev pub latest_decision : Review → List FileScopeDecision → String → Option FileScopeDecision
latest_decision review decisions path =
    last_by (λ d. d.path) path (filter (applies review) decisions)

-- Some finding links the evidence item.
abbrev pub is_linked : List Finding → EvidenceItem → Bool
is_linked findings item = any (λ f. contains f.evidence_ids item.evidence_id) findings

-- `cited`
abbrev pub cited_paths : Review → List Finding → List EvidenceItem → List String
cited_paths review findings evidence =
    map (λ item. item.file_path)
      (filter
        (λ item.
          is_changed_file item.source_scope
          && item.commit_sha == review.head_sha
          && is_linked findings item)
        evidence)

abbrev pub is_unresolved :
    Review → List Finding → List EvidenceItem → List FileScopeDecision → String → Bool
is_unresolved review findings evidence decisions path =
    not (contains (cited_paths review findings evidence) path)
    && is_not_outside (latest_decision review decisions path)

abbrev pub paths : ChangedFileInventory → List String
paths inventory = map (λ f. f.path) inventory.files

-- `none` where the inventory is unknown or belongs to another head.
unfoldable pub unresolved_changed_file_paths :
    Review → List Finding → List EvidenceItem → List FileScopeDecision → Option (List String)
unresolved_changed_file_paths review findings evidence decisions =
    elim review.changed_file_inventory [
      | none ↦ none
      | some inventory ↦
          if inventory.head_sha == review.head_sha
          then some (filter (is_unresolved review findings evidence decisions) (paths inventory))
          else none
    ]
