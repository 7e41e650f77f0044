-- ===== src/Records/Counts.antt =====
-- The counters of a retrieval diagnostic, in scopeproof_core/schemas/models.py.
use Prim.Native.Nat.{min}
use scope_proof.Base.{ℕ, ◌≤◌, ◌-◌, ◌≡◌, refl, arith, false, some, ok, ltb, nat_eq, ≡→==}
use scope_proof.Schema.{CriterionRetrievalDiagnostic}
use scope_proof.Records.{validate_diagnostic, selection}

-- The counts of a selection within its limit are accepted.
pub validate_diagnostic-of_counts :
    (d : CriterionRetrievalDiagnostic) (eligible limit omitted : ℕ)
    → d.eligible_candidate_count ≡ some eligible
    → d.candidate_limit ≡ some limit
    → d.omitted_candidate_count ≡ some omitted
    → eligible ≤ d.inspectable_line_count
    → d.accepted_candidate_count ≤ eligible
    → d.accepted_candidate_count ≤ limit
    → omitted ≡ eligible - d.accepted_candidate_count
    → validate_diagnostic d ≡ ok tt
unfolding validate_diagnostic selection
validate_diagnostic-of_counts d eligible limit omitted e l o within chosen bounded rest =
    rw
      (
        validate_diagnostic,
        e,
        l,
        o,
        ltb-of_le eligible d.inspectable_line_count within,
        ltb-of_le d.accepted_candidate_count (min eligible limit) (omega arith),
        ≡→== omitted (eligible - d.accepted_candidate_count) rest,
      )
      refl
  where
    ltb-of_le : (a b : ℕ) → a ≤ b → ltb b a ≡ false
    ltb-of_le a b h = ground arith
