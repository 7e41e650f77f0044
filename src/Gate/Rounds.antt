-- ===== src/Gate/Rounds.antt =====
-- What the loop over the criteria puts into each set, by the standing of each criterion.
use scope_proof.Base.{
  ◌≡◌, refl, ◌∙◌, String, Bool, true, false, not, ◌&&◌, ◌||◌, Option, none, some, List, [], ◌∷◌,
  if◌then◌else◌, ◌==◌, string_eq, contains, set_add, contains-set_add, nodup, set_add-nodup, any,
  last_by, is_empty, is_none, arith,
}
use scope_proof.Schema.{
  Criterion, Finding, HumanResolution, HumanDecision, FindingStatus, is_must_have,
  human_decision_eq,
}
use scope_proof.Gate.{Tally, tally_criterion, tally_criteria}

-- The reviewer's decision is `d`.
abbrev pub decided_as : HumanDecision → Option HumanResolution → Bool
decided_as HumanDecision.change_required (some r) = elim r.decision [
  | HumanDecision.change_required ↦ true
  | _ ↦ false
]
decided_as HumanDecision.accepted_exception (some r) = elim r.decision [
  | HumanDecision.accepted_exception ↦ true
  | _ ↦ false
]
decided_as HumanDecision.not_in_scope (some r) = elim r.decision [
  | HumanDecision.not_in_scope ↦ true
  | _ ↦ false
]
decided_as HumanDecision.manually_verified (some r) = elim r.decision [
  | HumanDecision.manually_verified ↦ true
  | _ ↦ false
]
decided_as HumanDecision.accepted (some r) = elim r.decision [
  | HumanDecision.accepted ↦ true
  | _ ↦ false
]
decided_as HumanDecision.rejected_finding (some r) = elim r.decision [
  | HumanDecision.rejected_finding ↦ true
  | _ ↦ false
]
decided_as d none = false

-- No decision, or one that only rejects the finding: the finding's status counts.
abbrev pub is_undecided : Option HumanResolution → Bool
is_undecided r = is_none r || decided_as HumanDecision.rejected_finding r

abbrev pub has_gap : Option Finding → Bool
has_gap none = false
has_gap (some f) = elim f.status [
  | FindingStatus.missing ↦ true
  | FindingStatus.partial ↦ true
  | _ ↦ false
]

abbrev pub is_unclear : Option Finding → Bool
is_unclear none = true
is_unclear (some f) = elim f.status [ FindingStatus.needs_review ↦ true | _ ↦ false ]

-- A manual verification that no runtime evidence backs.
abbrev pub is_unlinked : Option HumanResolution → Bool
is_unlinked none = false
is_unlinked (some r) =
    decided_as HumanDecision.manually_verified (some r) && is_none r.runtime_evidence_id

module _ (c : Criterion) (f : Option Finding) (r : Option HumanResolution) where
  abbrev pub blocks : Bool
  blocks =
      decided_as HumanDecision.change_required r
      || is_undecided r && is_must_have c.priority && has_gap f

  abbrev pub is_conditional : Bool
  is_conditional =
      decided_as HumanDecision.accepted_exception r
      || is_undecided r && not (is_must_have c.priority) && has_gap f

  abbrev pub is_open : Bool
  is_open =
      is_unlinked r
      || is_undecided r && (is_unclear f || is_must_have c.priority && not (has_gap f))

abbrev pub is_exception : Option HumanResolution → Bool
is_exception r =
    decided_as HumanDecision.accepted_exception r || decided_as HumanDecision.not_in_scope r

abbrev add_if : Bool → String → List String → List String
add_if test k ks = if test then set_add k ks else ks

module _ (c : Criterion) where
  -- One round of the loop adds the criterion to exactly the sets that its standing calls for.
  tally_criterion_lem :
      (f : Option Finding) (r : Option HumanResolution) (t : Tally)
      → let t' = tally_criterion c f r t in
        (t'.blocking ≡ add_if (blocks c f r) c.criterion_id t.blocking)
        × (t'.conditional ≡ add_if (is_conditional c f r) c.criterion_id t.conditional)
        × (t'.unresolved ≡ add_if (is_open c f r) c.criterion_id t.unresolved)
        × (t'.exceptions ≡ add_if (is_exception r) c.criterion_id t.exceptions)
        × (t'.reconfirmation_required ≡ (is_unlinked r || t.reconfirmation_required))
  unfolding tally_criterion
  tally_criterion_lem none none t =
      (ground arith, ground arith, ground arith, ground arith, ground arith)
  tally_criterion_lem (some f) none t =
      (ground arith, ground arith, ground arith, ground arith, ground arith)
  tally_criterion_lem none (some r) t =
      (ground arith, ground arith, ground arith, ground arith, ground arith)
  tally_criterion_lem (some f) (some r) t =
      (ground arith, ground arith, ground arith, ground arith, ground arith)

contains-add_if :
    (b : Bool) (k : String) (ks : List String) (j : String)
    → contains (add_if b k ks) j ≡ (contains ks j || (j == k && b))
contains-add_if b k ks j = ground (arith, contains-set_add k ks j)

is_empty-set_add : (k : String) (ks : List String) → is_empty (set_add k ks) ≡ false
is_empty-set_add k [] = refl
is_empty-set_add k (j ∷ ks) = ground arith

is_empty-add_if :
    (b : Bool) (k : String) (ks : List String) → is_empty (add_if b k ks) ≡ (is_empty ks && not b)
is_empty-add_if b k ks = ground (arith, is_empty-set_add k ks)

add_if-nodup :
    (b : Bool) (k : String) (ks : List String) → nodup ks ≡ true → nodup (add_if b k ks) ≡ true
add_if-nodup b k ks h = ground (arith, set_add-nodup k ks h)

||-assoc : (a b c : Bool) → ((a || b) || c) ≡ (a || (b || c))
||-assoc a b c = ground arith

not-or : (a b c : Bool) → ((a && not b) && not c) ≡ (a && not (b || c))
not-or a b c = ground arith

-- The four sets and the flag, each with its test on a criterion's finding and resolution.
pub data Part : Type 0 where
  blocking conditional unresolved exceptions : Part

abbrev pub part : Part → Tally → List String
part blocking t = t.blocking
part conditional t = t.conditional
part unresolved t = t.unresolved
part exceptions t = t.exceptions

abbrev pub belongs : Part → Criterion → Option Finding → Option HumanResolution → Bool
belongs blocking c f r = blocks c f r
belongs conditional c f r = is_conditional c f r
belongs unresolved c f r = is_open c f r
belongs exceptions c f r = is_exception r

part-tally_criterion :
    (p : Part) (c : Criterion) (f : Option Finding) (r : Option HumanResolution) (t : Tally)
    → part p (tally_criterion c f r t) ≡ add_if (belongs p c f r) c.criterion_id (part p t)
part-tally_criterion blocking c f r t = (tally_criterion_lem c f r t).0
part-tally_criterion conditional c f r t = (tally_criterion_lem c f r t).1
part-tally_criterion unresolved c f r t = (tally_criterion_lem c f r t).2
part-tally_criterion exceptions c f r t = (tally_criterion_lem c f r t).3

module _ (findings : List Finding) (resolutions : List HumanResolution) where
  abbrev pub finding_of : Criterion → Option Finding
  finding_of c = last_by (λ f. f.criterion_id) c.criterion_id findings

  abbrev pub resolution_of : Criterion → Option HumanResolution
  resolution_of c = last_by (λ r. r.criterion_id) c.criterion_id resolutions

  abbrev pub stands_in : Part → Criterion → Bool
  stands_in p c = belongs p c (finding_of c) (resolution_of c)

  -- Some criterion with the ID calls for the set.
  abbrev pub calls : Part → String → List Criterion → Bool
  calls p k = any (λ c. k == c.criterion_id && stands_in p c)

  abbrev round : Criterion → Tally → Tally
  round c t = tally_criterion c (finding_of c) (resolution_of c) t

  -- A criterion stands in a set exactly if a criterion of its ID calls for it.
  pub contains-tally_criteria :
      (p : Part) (cs : List Criterion) (t : Tally) (k : String)
      → contains (part p (tally_criteria findings resolutions cs t)) k
        ≡ (contains (part p t) k || calls p k cs)
  unfolding tally_criteria
  contains-tally_criteria p [] t k = ground arith
  contains-tally_criteria p (c ∷ cs) t k =
      contains-tally_criteria p cs (round c t) k
      ∙ rw
          (
            part-tally_criterion p c (finding_of c) (resolution_of c) t,
            contains-add_if (stands_in p c) c.criterion_id (part p t) k,
          )
          (||-assoc (contains (part p t) k) (k == c.criterion_id && stands_in p c) (calls p k cs))

  pub is_empty-tally_criteria :
      (p : Part) (cs : List Criterion) (t : Tally)
      → is_empty (part p (tally_criteria findings resolutions cs t))
        ≡ (is_empty (part p t) && not (any (stands_in p) cs))
  unfolding tally_criteria
  is_empty-tally_criteria p [] t = ground arith
  is_empty-tally_criteria p (c ∷ cs) t =
      is_empty-tally_criteria p cs (round c t)
      ∙ rw
          (
            part-tally_criterion p c (finding_of c) (resolution_of c) t,
            is_empty-add_if (stands_in p c) c.criterion_id (part p t),
          )
          (not-or _ _ _)

  pub tally_criteria-nodup :
      (p : Part) (cs : List Criterion) (t : Tally)
      → nodup (part p t) ≡ true
      → nodup (part p (tally_criteria findings resolutions cs t)) ≡ true
  unfolding tally_criteria
  tally_criteria-nodup p [] t h = h
  tally_criteria-nodup p (c ∷ cs) t h = tally_criteria-nodup p cs (round c t) (
      rw (part-tally_criterion p c (finding_of c) (resolution_of c) t)
        (add_if-nodup (stands_in p c) c.criterion_id (part p t) h))

  pub reconfirmation_required-tally_criteria :
      (cs : List Criterion) (t : Tally)
      → (tally_criteria findings resolutions cs t).reconfirmation_required
        ≡ (t.reconfirmation_required || any (λ c. is_unlinked (resolution_of c)) cs)
  unfolding tally_criteria
  reconfirmation_required-tally_criteria [] t = ground arith
  reconfirmation_required-tally_criteria (c ∷ cs) t =
      reconfirmation_required-tally_criteria cs (round c t)
      ∙ ground (arith, (tally_criterion_lem c (finding_of c) (resolution_of c) t).4)
