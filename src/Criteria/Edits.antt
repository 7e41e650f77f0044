-- ===== src/Criteria/Edits.antt =====
-- Adding and splitting criteria of scopeproof_core/criteria/service.py keeps the IDs distinct.
use mathlib.Core.List.{map-append}
use scope_proof.Base.{
  suc, ◌+◌, ◌≡◌, refl, sym, ap, ◌∙◌, subst, arith, String, true, false, ◌&&◌, not, Option, none,
  some, List, [], ◌∷◌, ◌++◌, contains, nodup, length, subset, ok, subset-of_members, length-append,
  append-nil, raise_if-eq_ok, strip-eq_empty, is_blank, ok-injective, ◌>>◌, ◌==◌, string_eq,
  Bool-cases, inl, inr, >>=-eq_ok, >>-eq_ok, contains-append, append_assoc, raise_if, ==→≡, strip,
}
use scope_proof.Criteria.{
  add_criterion, split_criterion, next_identifier, new_criterion, later_parts, split_part, around,
  replace_target,
}
use scope_proof.Criteria.Numbers.{Unicode, ReadsDigits}
use scope_proof.Gate.{criterion_ids}
use scope_proof.Schema.{Criterion}
use scope_proof.Criteria.Fresh.{next_identifier-fresh, disjoint, middle-nodup}

new_criterion-eq_ok :
    (criterion_id text : String) {c : Criterion}
    → new_criterion criterion_id text ≡ ok c
    → (c.text ≡ strip text) × (is_blank text ≡ false) × (c.criterion_id ≡ criterion_id)
unfolding new_criterion
new_criterion-eq_ok criterion_id text h =
    let (checks, u) = >>-eq_ok (raise_if (text == "") _ >> raise_if (strip text == "") _) _ h in
    let (nonempty, nonblank) = >>-eq_ok (raise_if (text == "") _) _ checks in
    let made = ok-injective _ _ u in
    (
      ap (λ x. x.text) (sym made),
      sym (strip-eq_empty text) ∙ raise_if-eq_ok _ _ nonblank,
      ap (λ x. x.criterion_id) (sym made),
    )

-- add_criterion appends one criterion with the stripped text, which is not blank, and an ID that no
-- criterion had.
pub add_criterion-fresh :
    (U : Unicode) (criteria : List Criterion) (text : String) {updated : List Criterion}
    → ReadsDigits U
    → add_criterion U criteria text ≡ ok updated
    → (c : Criterion) × (updated ≡ criteria ++ (c ∷ []))
      × (c.text ≡ strip text)
      × (is_blank text ≡ false)
      × (contains (criterion_ids criteria) c.criterion_id ≡ false)
unfolding add_criterion
add_criterion-fresh U criteria text reads h =
    let (i, p, q) = >>=-eq_ok (next_identifier U criteria) _ h in
    let (c, r, s) = >>=-eq_ok (new_criterion i text) _ q in
    let (same_text, filled, same_id) = new_criterion-eq_ok i text r in
    (
      c,
      sym (ok-injective _ _ s),
      same_text,
      filled,
      subst (λ x. contains (criterion_ids criteria) x ≡ false) (sym same_id)
          (next_identifier-fresh U reads criteria p),
    )

disjoint-snoc :
    (zs ys : List String) (i : String)
    → disjoint zs (ys ++ (i ∷ [])) ≡ (not (contains zs i) && disjoint zs ys)
unfolding disjoint
disjoint-snoc [] ys i = refl
disjoint-snoc (z ∷ zs) ys i = ground (arith, disjoint-snoc zs ys i, contains-append ys (i ∷ []) z)

criterion_ids-snoc :
    (xs ys : List Criterion) (c : Criterion)
    → criterion_ids (xs ++ (ys ++ (c ∷ []))) ≡ criterion_ids (xs ++ ys) ++ (c.criterion_id ∷ [])
criterion_ids-snoc xs ys c =
    ap criterion_ids (sym (append_assoc xs ys (c ∷ [])))
    ∙ map-append (λ x. x.criterion_id) (xs ++ ys) (c ∷ [])

-- The parts after the first have IDs that are new, to each other and to all that were there.
later_parts-fresh :
    (U : Unicode) (original : Criterion) (working replacement : List Criterion)
    (texts : List String) {result : List Criterion}
    → ReadsDigits U
    → later_parts U original working replacement texts ≡ ok result
    → (parts : List Criterion) × (result ≡ replacement ++ parts)
      × (length parts ≡ length texts)
      × (nodup (criterion_ids parts) ≡ true)
      × (disjoint (criterion_ids parts) (criterion_ids (working ++ replacement)) ≡ true)
unfolding later_parts disjoint split_part
later_parts-fresh U original working replacement [] reads h =
    ([], sym (ok-injective _ _ h) ∙ sym (append-nil replacement), refl, refl, refl)
later_parts-fresh U original working replacement (text ∷ texts) reads h =
    let (i, p, q) = >>=-eq_ok (next_identifier U (working ++ replacement)) _ h in
    let part = split_part original i text in
    let (parts, r, s, t, u) =
      later_parts-fresh U original working (replacement ++ (part ∷ [])) texts reads q in
    let apart =
      sym (disjoint-snoc (criterion_ids parts) (criterion_ids (working ++ replacement)) i)
      ∙ (ap (disjoint (criterion_ids parts)) (sym (criterion_ids-snoc working replacement part))
          ∙ u) in
    let fresh = next_identifier-fresh U reads (working ++ replacement) p in
    (
      part ∷ parts,
      r ∙ append_assoc replacement (part ∷ []) parts,
      ap suc s,
      ground arith,
      ground arith,
    )

-- The list is what stands before the first criterion of the ID, that criterion, and the rest.
abbrev Splits :
    String → List Criterion → Option (List Criterion × Criterion × List Criterion) → Type 0
Splits criterion_id criteria none = Unit
Splits criterion_id criteria (some (before, found, after)) =
    (criteria ≡ before ++ (found ∷ after)) × (found.criterion_id ≡ criterion_id)

around-Splits :
    (criterion_id : String) (criteria : List Criterion)
    → Splits criterion_id criteria (around criterion_id criteria)
unfolding around
around-Splits criterion_id [] = tt
around-Splits criterion_id (c ∷ cs) = elim (Bool-cases (c.criterion_id == criterion_id)) [
  | inl e ↦ rw (around, e) (refl, ==→≡ c.criterion_id criterion_id e)
  | inr e ↦ rw (around, e) (onto (around criterion_id cs) (around-Splits criterion_id cs))
]
  where
    onto :
        (o : Option (List Criterion × Criterion × List Criterion))
        → Splits criterion_id cs o
        → Splits criterion_id
            (c ∷ cs)
            (elim o [ none ↦ none | some (before, found, after) ↦ some (c ∷ before, found, after) ])
    onto none s = tt
    onto (some (before, found, after)) (s, p) = (ap (λ xs. c ∷ xs) s, p)

-- New IDs after the one at their place keep a list of IDs distinct and complete.
spliced :
    (before : List String) (i : String) (fresh after : List String)
    → nodup (before ++ (i ∷ after)) ≡ true
    → nodup fresh ≡ true
    → disjoint fresh (before ++ (i ∷ after)) ≡ true
    → (nodup (before ++ (i ∷ (fresh ++ after))) ≡ true)
      × (subset (before ++ (i ∷ after)) (before ++ (i ∷ (fresh ++ after))) ≡ true)
spliced before i fresh after distinct_ids distinct_fresh apart =
    let joined = append_assoc before (i ∷ []) in
    (
      subst (λ xs. nodup xs ≡ true) (joined (fresh ++ after))
          (middle-nodup (before ++ (i ∷ [])) fresh after
            (subst (λ xs. nodup xs ≡ true) (sym (joined after)) distinct_ids) distinct_fresh
            (subst (λ xs. disjoint fresh xs ≡ true) (sym (joined after)) apart)),
      subset-of_members (before ++ (i ∷ after)) (before ++ (i ∷ (fresh ++ after))) λ a m. ground (
        arith,
        contains-append before (i ∷ after) a,
        contains-append before (i ∷ (fresh ++ after)) a,
        contains-append fresh after a,
      ),
    )

disjoint-append :
    (zs xs ys : List String) → disjoint zs (xs ++ ys) ≡ (disjoint zs xs && disjoint zs ys)
unfolding disjoint
disjoint-append [] xs ys = refl
disjoint-append (z ∷ zs) xs ys = ground (arith, disjoint-append zs xs ys, contains-append xs ys z)

criterion_ids-middle :
    (before : List Criterion) (c : Criterion) (xs ys : List Criterion)
    → criterion_ids (before ++ (c ∷ (xs ++ ys)))
      ≡ criterion_ids before ++ (c.criterion_id ∷ (criterion_ids xs ++ criterion_ids ys))
criterion_ids-middle before c xs ys =
    map-append (λ x. x.criterion_id) before (c ∷ (xs ++ ys))
    ∙ ap (λ ids. criterion_ids before ++ (c.criterion_id ∷ ids))
        (map-append (λ x. x.criterion_id) xs ys)

disjoint-first :
    (zs : List String) (xs ys : List Criterion)
    → disjoint zs (criterion_ids (xs ++ ys)) ≡ true
    → disjoint zs (criterion_ids xs) ≡ true
disjoint-first zs xs ys h = ground (
  arith,
  disjoint-append zs (criterion_ids xs) (criterion_ids ys),
  ap (disjoint zs) (map-append (λ x. x.criterion_id) xs ys),
)

replace_target-nodup :
    (U : Unicode) (criteria : List Criterion) (criterion_id text : String) (texts : List String)
    (target : Option (List Criterion × Criterion × List Criterion)) {updated : List Criterion}
    → ReadsDigits U
    → Splits criterion_id criteria target
    → nodup (criterion_ids criteria) ≡ true
    → replace_target U criteria criterion_id text texts target ≡ ok updated
    → (nodup (criterion_ids updated) ≡ true)
      × (subset (criterion_ids criteria) (criterion_ids updated) ≡ true)
      × (length updated ≡ length criteria + length texts)
unfolding replace_target
replace_target-nodup U criteria i text texts none reads s h r = cc
replace_target-nodup U criteria i text texts (some (before, original, after)) {updated} reads (s, p)
      h r =
    let part = split_part original original.criterion_id text in
    let (replacement, q, e) = >>=-eq_ok (later_parts U original criteria (part ∷ []) texts) _ r in
    let (parts, w, same_length, distinct_parts, apart) =
      later_parts-fresh U original criteria (part ∷ []) texts reads q in
    let built : updated ≡ before ++ (part ∷ (parts ++ after)) =
      sym (ok-injective _ _ e) ∙ ap (λ xs. before ++ (xs ++ after)) w in
    let old_ids = ap criterion_ids s ∙ criterion_ids-middle before original [] after in
    let new_ids = ap criterion_ids built ∙ criterion_ids-middle before part parts after in
    let (n, k) =
      spliced (criterion_ids before) original.criterion_id (criterion_ids parts)
        (criterion_ids after) (subst (λ xs. nodup xs ≡ true) old_ids h) distinct_parts
        (subst (λ xs. disjoint (criterion_ids parts) xs ≡ true) old_ids
          (disjoint-first (criterion_ids parts) criteria (part ∷ []) apart)) in
    let total = ap length built ∙ length-append before (part ∷ (parts ++ after)) in
    let whole = ap length s ∙ length-append before (original ∷ after) in
    let added = length-append parts after in
    (
      subst (λ xs. nodup xs ≡ true) (sym new_ids) n,
      subst (λ xs. subset xs (criterion_ids updated) ≡ true) (sym old_ids)
          (subst
            (λ ys.
              subset (criterion_ids before ++ (original.criterion_id ∷ criterion_ids after)) ys
              ≡ true)
            (sym new_ids) k),
      omega arith,
    )

-- Splitting keeps the other criteria and the ID of the split one, and the new IDs are new.
pub split_criterion-nodup :
    (U : Unicode) (criteria : List Criterion) (criterion_id : String) (texts : List String)
    {updated : List Criterion}
    → ReadsDigits U
    → nodup (criterion_ids criteria) ≡ true
    → split_criterion U criteria criterion_id texts ≡ ok updated
    → (nodup (criterion_ids updated) ≡ true)
      × (subset (criterion_ids criteria) (criterion_ids updated) ≡ true)
      × (length updated + 1 ≡ length criteria + length texts)
unfolding split_criterion
split_criterion-nodup U criteria criterion_id [] reads h r = cc
split_criterion-nodup U criteria criterion_id (text ∷ texts) reads h r =
    let (guarded, replaced) = >>-eq_ok (raise_if _ _) _ r in
    let (n, s, l) =
      replace_target-nodup U criteria criterion_id text texts (around criterion_id criteria) reads
        (around-Splits criterion_id criteria) h replaced in
    (n, s, omega arith)
