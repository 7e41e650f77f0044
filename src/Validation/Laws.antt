-- ===== src/Validation/Laws.antt =====
-- Of scopeproof_core/gates/validation.py: a value that passes its validation is returned as it is.
use scope_proof.Base.{◌≡◌, ◌↔◌, sym, subst, ok, >>-eq_ok, not, ◌==◌, raise_if-eq_ok, arith}
use scope_proof.Schema.{Platform, ReviewBundle, ReviewState, GateVerdict, gate_eq}
use scope_proof.Bundle.{validate_bundle}
use scope_proof.Gate.Settled.{IsReady}
use scope_proof.Gate.Ready.{evaluate_gate-IsReady}
use scope_proof.Validation.{
  check_review_state, validated_review_state, check_review_bundle, require_deterministic_gate,
  bundle_gate,
}

-- A validated state is the state that was given, and it passes every check.
pub validated_review_state-eq_ok :
    (P : Platform) (s t : ReviewState)
    → validated_review_state P s ≡ ok t
    → (check_review_state P t ≡ ok tt) × (s ≡ t)
unfolding validated_review_state
validated_review_state-eq_ok P s t h =
    let (checked, same) = >>-eq_ok (check_review_state P s) (ok s) h in
    let e : s ≡ t = cc in (rw (← e) checked, e)

-- A state that passes every check is returned.
pub validated_review_state-of_check :
    (P : Platform) (s : ReviewState)
    → check_review_state P s ≡ ok tt
    → validated_review_state P s ≡ ok s
unfolding validated_review_state
validated_review_state-of_check P s h = rw h

require_deterministic_gate-eq_ok :
    (P : Platform) (b : ReviewBundle)
    → require_deterministic_gate P b ≡ ok tt
    → b.gate ≡ bundle_gate P b
unfolding require_deterministic_gate
require_deterministic_gate-eq_ok P b h =
    ground (arith, raise_if-eq_ok (not (b.gate == bundle_gate P b)) _ h)

-- A bundle that passes validation is ready exactly if the conditions of a ready verdict hold of its
-- own records: a stored verdict cannot claim more than they support.
pub check_review_bundle-IsReady :
    (P : Platform) (b : ReviewBundle)
    → check_review_bundle P b ≡ ok tt
    → (b.gate.verdict ≡ GateVerdict.ready)
      ↔ IsReady P b.review b.criteria b.findings b.resolutions b.evidence b.file_scope_decisions
unfolding check_review_bundle
check_review_bundle-IsReady P b h =
    let (parts, rest) = >>-eq_ok (validate_bundle P b) _ h in
    let (deterministic, integrity) = >>-eq_ok (require_deterministic_gate P b) _ rest in
    subst
      (λ g.
        (g.verdict ≡ GateVerdict.ready)
        ↔ IsReady P b.review b.criteria b.findings b.resolutions b.evidence b.file_scope_decisions)
      (sym (require_deterministic_gate-eq_ok P b deterministic))
      (evaluate_gate-IsReady P b.review b.criteria b.findings b.resolutions b.evidence
        b.file_scope_decisions)
