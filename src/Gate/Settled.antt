-- ===== src/Gate/Settled.antt =====
-- Criteria that call for nothing, and the tests behind a ready verdict.
use scope_proof.Base.{
  ◌≡◌, refl, ◌∙◌, String, Bool, true, false, not, ◌&&◌, ◌||◌, Option, none, some, List, [], ◌∷◌,
  if◌then◌else◌, any, is_empty, is_some, arith, All, sym,
}
use scope_proof.Schema.{
  Platform, Review, Criterion, Finding, HumanResolution, HumanDecision, EvidenceItem,
  FileScopeDecision, CheckState, IngestionState, GateVerdict, is_must_have, is_complete, is_failing,
}
use scope_proof.FileScope.{unresolved_changed_file_paths}
use scope_proof.Gate.{input_faults, is_not_observed, has_open_files}
use scope_proof.Gate.Rounds.{
  Part, blocking, conditional, unresolved, exceptions, stands_in, belongs, finding_of,
  resolution_of, decided_as, is_unlinked, is_undecided, has_gap, is_unclear,
}

-- The criterion is accepted, or verified with runtime evidence; or it is optional, and its finding
-- is clear and has no gap.
abbrev pub is_settled : Criterion → Option Finding → Option HumanResolution → Bool
is_settled c f r =
    decided_as HumanDecision.accepted r
    || decided_as HumanDecision.manually_verified r && not (is_unlinked r)
    || is_undecided r && not (is_must_have c.priority) && not (has_gap f) && not (is_unclear f)

pub record IsReady (P : Platform) (review : Review) (criteria : List Criterion)
    (findings : List Finding) (resolutions : List HumanResolution) (evidence : List EvidenceItem)
    (decisions : List FileScopeDecision) : Type 0 where
  pub wellformed : input_faults P review criteria findings resolutions ≡ []
  pub nonempty : is_empty criteria ≡ false
  pub passing : review.check_state ≡ CheckState.passing
  pub confirmed : review.criteria_confirmed ≡ true
  pub sourced : is_some review.criteria_source_provenance ≡ true
  pub complete : review.ingestion_state ≡ IngestionState.complete
  pub no_warnings : review.ingestion_warnings ≡ []
  pub no_skips : review.skipped_files ≡ []
  pub all_files : unresolved_changed_file_paths review findings evidence decisions ≡ some []
  pub settled :
      All
        (λ c.
          is_settled c (finding_of findings resolutions c) (resolution_of findings resolutions c)
          ≡ true)
        criteria
  pub final : review.final_acceptance ≡ true

pub is_settled_lem :
    (c : Criterion) (f : Option Finding) (r : Option HumanResolution)
    → is_settled c f r
      ≡ not (
          belongs blocking c f r
          || belongs conditional c f r
          || belongs unresolved c f r
          || belongs exceptions c f r)
is_settled_lem c none none = ground arith
is_settled_lem c (some f) none = ground arith
is_settled_lem c none (some r) = ground arith
is_settled_lem c (some f) (some r) = ground arith

pub is_empty→≡ : (xs : List String) → is_empty xs ≡ true → xs ≡ []
is_empty→≡ [] h = refl
is_empty→≡ (x ∷ xs) h = cc

pub complete_of_test : (s : IngestionState) → is_complete s ≡ true → s ≡ IngestionState.complete
complete_of_test s h = ground arith

pub passing_of_tests :
    (s : CheckState) → is_failing s ≡ false → is_not_observed s ≡ false → s ≡ CheckState.passing
passing_of_tests s h k = ground arith

pub files_of_test : (o : Option (List String)) → has_open_files o ≡ false → o ≡ some []
files_of_test none h = cc
files_of_test (some []) h = refl
files_of_test (some (x ∷ xs)) h = cc

pub or-eq_false : (a b : Bool) → (a || b) ≡ false → (a ≡ false) × (b ≡ false)
or-eq_false a b h = ground arith

pub none_of :
    (a b c d : Bool) → a ≡ false → b ≡ false → c ≡ false → d ≡ false → not (a || b || c || d) ≡ true
none_of a b c d p q r s = ground arith

pub none_of_inv :
    (a b c d : Bool)
    → not (a || b || c || d) ≡ true
    → (a ≡ false) × (b ≡ false) × (c ≡ false) × (d ≡ false)
none_of_inv a b c d h = ground arith

module _ (findings : List Finding) (resolutions : List HumanResolution) where
  abbrev pub settled : Criterion → Bool
  settled c =
      is_settled c (finding_of findings resolutions c) (resolution_of findings resolutions c)

  abbrev pub calls_for : Part → List Criterion → Bool
  calls_for p = any (stands_in findings resolutions p)

  -- What the head and the tail of a list call for.
  calls_for-cons :
      (p : Part) (c : Criterion) (cs : List Criterion)
      → calls_for p (c ∷ cs) ≡ false
      → (stands_in findings resolutions p c ≡ false) × (calls_for p cs ≡ false)
  calls_for-cons p c cs = or-eq_false (stands_in findings resolutions p c) (calls_for p cs)

  pub settled_of_sets :
      (cs : List Criterion) → ((p : Part) → calls_for p cs ≡ false) → All (λ c. settled c ≡ true) cs
  settled_of_sets [] h = tt
  settled_of_sets (c ∷ cs) h = (
    is_settled_lem c (finding_of findings resolutions c) (resolution_of findings resolutions c)
        ∙ none_of (stands_in findings resolutions blocking c)
            (stands_in findings resolutions conditional c)
            (stands_in findings resolutions unresolved c)
            (stands_in findings resolutions exceptions c)
            (calls_for-cons blocking c cs (h blocking)).0
            (calls_for-cons conditional c cs (h conditional)).0
            (calls_for-cons unresolved c cs (h unresolved)).0
            (calls_for-cons exceptions c cs (h exceptions)).0,
    settled_of_sets cs (λ p. (calls_for-cons p c cs (h p)).1),
  )

  stands_of_settled :
      (c : Criterion) → settled c ≡ true → (p : Part) → stands_in findings resolutions p c ≡ false
  stands_of_settled c h = pick
    where
      none_stands :
          (stands_in findings resolutions blocking c ≡ false)
          × (stands_in findings resolutions conditional c ≡ false)
          × (stands_in findings resolutions unresolved c ≡ false)
          × (stands_in findings resolutions exceptions c ≡ false)
      none_stands =
          none_of_inv (stands_in findings resolutions blocking c)
            (stands_in findings resolutions conditional c)
            (stands_in findings resolutions unresolved c)
            (stands_in findings resolutions exceptions c)
            (sym (
                is_settled_lem c (finding_of findings resolutions c)
                  (resolution_of findings resolutions c))
              ∙ h)

      pick : (p : Part) → stands_in findings resolutions p c ≡ false
      pick blocking = none_stands.0
      pick conditional = none_stands.1
      pick unresolved = none_stands.2
      pick exceptions = none_stands.3

  pub sets_of_settled :
      (cs : List Criterion) → All (λ c. settled c ≡ true) cs → (p : Part) → calls_for p cs ≡ false
  sets_of_settled [] h p = refl
  sets_of_settled (c ∷ cs) h p = rw (stands_of_settled c h.0 p) (sets_of_settled cs h.1 p)

-- The verdict's precedence, over its tests.
abbrev pub chosen : (wellformed blocked held excepted final : Bool) → GateVerdict
chosen i b r d f =
    if not i
    then GateVerdict.needs_review
    else if b
    then GateVerdict.blocked
    else if r
    then GateVerdict.needs_review
    else if d
    then GateVerdict.conditional
    else if f
    then GateVerdict.ready
    else GateVerdict.needs_review

pub chosen-ready :
    (i b r d f : Bool)
    → chosen i b r d f ≡ GateVerdict.ready
    → (i ≡ true) × (b ≡ false) × (r ≡ false) × (d ≡ false) × (f ≡ true)
chosen-ready i b r d f h = ground arith

pub ready-chosen :
    (i b r d f : Bool)
    → i ≡ true
    → b ≡ false
    → r ≡ false
    → d ≡ false
    → f ≡ true
    → chosen i b r d f ≡ GateVerdict.ready
ready-chosen i b r d f p q s t u = ground arith

pub or_all :
    (a b c d e f g : Bool)
    → (a || b || c || d || e || f || g) ≡ false
    → (a ≡ false)
      × (b ≡ false)
      × (c ≡ false)
      × (d ≡ false)
      × (e ≡ false)
      × (f ≡ false)
      × (g ≡ false)
or_all a b c d e f g h = ground arith
