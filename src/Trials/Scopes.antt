-- ===== src/Trials/Scopes.antt =====
-- The file scope of an analysis, on concrete inputs.
use mathlib.Core.List.{flat_map}
use scope_proof.Base.{
  some, [], ◌∷◌, ok, ◌≡◌, refl, is_blank, is_space, List_discrete, String_discrete, Option_discrete,
  sorted, insert,
}
use native.Mathlib.Decide.{ℕ_discrete}
use scope_proof.Schema.{ReviewBundle}
use scope_proof.FileScope.{unresolved_changed_file_paths}
use scope_proof.ScopeComparison.{
  projection, sort_files, finding_links, insert_file, validate_snapshot, from_bundle,
  unresolved_paths,
}
use scope_proof.ScopeComparison.Mirror.{SamePaths, from_bundle-unresolved}
use scope_proof.Samples.{accepted_analysis, final_review}

unfoldable scopes : Unit {0}
unfolding flat_map is_blank sorted insert sort_files finding_links insert_file projection
    validate_snapshot from_bundle unresolved_paths is_space ℕ_discrete List_discrete String_discrete
    Option_discrete
scopes = tt

-- An analysis whose decision on the changed file is not made yet.
abbrev undecided : ReviewBundle
undecided = record (accepted_analysis final_review) { file_scope_decisions = [] }

projects_undecided : from_bundle undecided ≡ ok (projection undecided)
unfolding scopes
projects_undecided = refl

leaves_open : unresolved_paths (projection undecided) ≡ some ("a.py" ∷ [])
unfolding scopes
leaves_open = refl

projects_decided :
    from_bundle (accepted_analysis final_review) ≡ ok (projection (accepted_analysis final_review))
unfolding scopes
projects_decided = refl

closes_decided : unresolved_paths (projection (accepted_analysis final_review)) ≡ some []
unfolding scopes
closes_decided = refl

from_bundle-unresolved_example :
    SamePaths
      (unresolved_paths (projection undecided))
      (unresolved_changed_file_paths undecided.review undecided.findings undecided.evidence [])
from_bundle-unresolved_example =
    from_bundle-unresolved undecided (projection undecided) projects_undecided
