-- ===== src/Criteria/Drafts.antt =====
-- The drafts of parse_criteria (scopeproof_core/criteria/service.py) become criteria with distinct
-- IDs; criteria_of_drafts is the part of scopeproof_core/criteria/confirmation.py that does it.
use mathlib.Core.Bool.{true≢false}
use scope_proof.Base.{
  ℕ, suc, ◌<◌, ◌≡◌, refl, sym, ap, ◌∙◌, arith, String, true, false, none, List, [], ◌∷◌, map,
  contains, nodup, Result, ok, map_ok, ◌==◌, string_eq, Bool-cases, inl, inr, ok-injective, ==→≡,
  All, strip, strip-eq_empty, is_blank, is_blank-strip, splitlines,
}
use scope_proof.Criteria.{
  CriterionDraft, parse_criteria, prepared, numbered, new_criterion, without_marker,
}
use scope_proof.Criteria.Numbers.{Unicode, ReadsDigits, identifier, number, number-identifier}
use scope_proof.Gate.{criterion_ids}
use scope_proof.Schema.{Criterion, Priority, CriterionType, CriterionSource, EvidenceLevel}

abbrev pub draft_ids : List CriterionDraft → List String
draft_ids = map (λ d. d.criterion_id)

-- `[Criterion(criterion_id=draft.criterion_id, text=draft.text) for draft in drafts]`
unfoldable pub criteria_of_drafts : List CriterionDraft → Result (List Criterion)
unfolding new_criterion
criteria_of_drafts = map_ok (λ d. new_criterion d.criterion_id d.text)

identifier-injective :
    (U : Unicode) → ReadsDigits U → (m n : ℕ) → identifier m ≡ identifier n → m ≡ n
identifier-injective U reads m n e =
    ok-injective m n
      (sym (number-identifier U m reads) ∙ (ap (number U) e ∙ number-identifier U n reads))

-- IDs of higher numbers do not name a lower one.
numbered-fresh :
    (U : Unicode)
    → ReadsDigits U
    → (m n : ℕ) (lines : List String) → m < n
    → contains (draft_ids (numbered n lines)) (identifier m) ≡ false
unfolding numbered
numbered-fresh U reads m n [] l = refl
numbered-fresh U reads m n (line ∷ lines) l = elim (Bool-cases (identifier m == identifier n)) [
  | inl e ↦
      let same : m ≡ n = identifier-injective U reads m n (==→≡ (identifier m) (identifier n) e) in
      absurd (omega arith)
  | inr e ↦ rw e (numbered-fresh U reads m (suc n) lines (omega arith))
]

numbered-nodup :
    (U : Unicode)
    → ReadsDigits U
    → (n : ℕ) (lines : List String) → nodup (draft_ids (numbered n lines)) ≡ true
unfolding numbered
numbered-nodup U reads n [] = refl
numbered-nodup U reads n (line ∷ lines) =
    rw (numbered-fresh U reads n (suc n) lines (omega arith)) (numbered-nodup U reads (suc n) lines)

prepared-filled :
    (U : Unicode) (raw_lines : List String) → All (λ t. is_blank t ≡ false) (prepared U raw_lines)
unfolding prepared
prepared-filled U [] = tt
prepared-filled U (raw_line ∷ raw_lines) =
    let line = strip (without_marker U raw_line) in
    let rest = prepared-filled U raw_lines in
    elim (Bool-cases (line == "")) [
      | inl e ↦ rw (prepared, e) rest
      | inr e ↦
          rw (prepared, e)
            (
              is_blank-strip (without_marker U raw_line)
                  ∙ (sym (strip-eq_empty (without_marker U raw_line)) ∙ e),
              rest,
            )
    ]

filled-nonempty : (text : String) → is_blank text ≡ false → (text == "") ≡ false
unfolding is_blank
filled-nonempty text filled = elim (Bool-cases (text == "")) [
  | inl e ↦ absurd (true≢false (sym (ap is_blank (==→≡ text "" e)) ∙ filled))
  | inr e ↦ e
]

new_criterion-total :
    (criterion_id text : String)
    → is_blank text ≡ false
    → (c : Criterion) × (new_criterion criterion_id text ≡ ok c) × (c.criterion_id ≡ criterion_id)
unfolding new_criterion
new_criterion-total criterion_id text filled = (
  record {
    criterion_id = criterion_id;
    text = strip text;
    priority = Priority.must_have;
    criterion_type = CriterionType.behavior;
    criterion_source = CriterionSource.user_confirmed;
    source_span = none;
    required_evidence_level = EvidenceLevel.e1;
  },
  rw (new_criterion, filled-nonempty text filled, strip-eq_empty text ∙ filled) refl,
  refl,
)

numbered-valid :
    (n : ℕ) (lines : List String)
    → All (λ t. is_blank t ≡ false) lines
    → (criteria : List Criterion) × (criteria_of_drafts (numbered n lines) ≡ ok criteria)
      × (criterion_ids criteria ≡ draft_ids (numbered n lines))
unfolding numbered criteria_of_drafts
numbered-valid n [] h = ([], refl, refl)
numbered-valid n (line ∷ lines) h =
    let (c, p, q) = new_criterion-total (identifier n) line h.0 in
    let (cs, r, s) = numbered-valid (suc n) lines h.1 in
    (
      c ∷ cs,
      rw (criteria_of_drafts, p, r) refl,
      ap (λ i. i ∷ criterion_ids cs) q ∙ ap (λ ids. identifier n ∷ ids) s,
    )

-- Whatever the text, the drafts that parse_criteria makes of it are accepted as criteria, with
-- their IDs, and no two have the same ID.
pub parse_criteria-valid :
    (U : Unicode) (text : String)
    → ReadsDigits U
    → (criteria : List Criterion) × (criteria_of_drafts (parse_criteria U text) ≡ ok criteria)
      × (criterion_ids criteria ≡ draft_ids (parse_criteria U text))
      × (nodup (criterion_ids criteria) ≡ true)
unfolding parse_criteria
parse_criteria-valid U text reads =
    let lines = prepared U (splitlines text) in
    let (criteria, p, q) = numbered-valid 1 lines (prepared-filled U (splitlines text)) in
    (criteria, p, q, ap nodup q ∙ numbered-nodup U reads 1 lines)
