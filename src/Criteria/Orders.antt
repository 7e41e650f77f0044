-- ===== src/Criteria/Orders.antt =====
-- Removing and reordering criteria: scopeproof_core/criteria/service.py.
use native.Mathlib.Decide.{ℕ_discrete}
use scope_proof.Base.{
  ◌≡◌, ◌↔◌, refl, sym, ap, ◌∙◌, subst, arith, String, Bool, true, false, not, none, some, List, [],
  ◌∷◌, filter, any, contains, nodup, length, is_empty, subset, same_members, ok, map_ok, raise_if,
  ◌==◌, string_eq, nat_eq, ≡→==, Bool-cases, inl, inr, >>=-eq_ok, >>-eq_ok, raise_if-eq_ok,
  ok-injective, Option-cases, ==→≡, contains-of_subset, subset-of_members, find_last, ◌>>◌, leb,
}
use scope_proof.Criteria.{remove_criterion, reorder_criteria, existing}
use scope_proof.Gate.{criterion_ids}
use scope_proof.Schema.{Criterion, criterion_eq}

module _ {ℓ} {A : Type ℓ} where
  length-filter : (p : A → Bool) (xs : List A) → leb (length (filter p xs)) (length xs) ≡ true
  length-filter p [] = refl
  length-filter p (x ∷ xs) = let rest = length-filter p xs in ground arith

  -- A filter keeps the length exactly if every element passes.
  length-filter-eq :
      (p : A → Bool) (xs : List A)
      → (length (filter p xs) == length xs) ≡ not (any (λ x. not (p x)) xs)
  unfolding ℕ_discrete
  length-filter-eq p [] = refl
  length-filter-eq p (x ∷ xs) =
      let rest = length-filter-eq p xs in let bound = length-filter p xs in ground arith

any-named :
    (i : String) (criteria : List Criterion)
    → any (λ c. not (not (c.criterion_id == i))) criteria ≡ contains (criterion_ids criteria) i
any-named i [] = refl
any-named i (c ∷ cs) = ground (arith, any-named i cs)

-- remove_criterion returns the criteria without those of the ID if there are some and others
-- remain; in every other case it raises.
pub remove_criterion-eq_ok :
    (criteria : List Criterion) (criterion_id : String) (updated : List Criterion)
    → remove_criterion criteria criterion_id ≡ ok updated ↔ (
        (contains (criterion_ids criteria) criterion_id ≡ true)
        × (is_empty updated ≡ false)
        × (updated ≡ filter (λ c. not (c.criterion_id == criterion_id)) criteria))
unfolding remove_criterion
remove_criterion-eq_ok criteria i updated =
    let kept = filter (λ c. not (c.criterion_id == i)) criteria in
    let known =
      length-filter-eq (λ c. not (c.criterion_id == i)) criteria ∙ ap not (any-named i criteria) in
    (
      λ h.
          let (checks, r) =
            >>-eq_ok (raise_if (length kept == length criteria) _ >> raise_if (is_empty kept) _) _
              h in
          let (p, q) = >>-eq_ok (raise_if (length kept == length criteria) _) _ checks in
          let same = ok-injective kept updated r in
          (
            ground (arith, known, raise_if-eq_ok (length kept == length criteria) _ p),
            subst (λ xs. is_empty xs ≡ false) same (raise_if-eq_ok (is_empty kept) _ q),
            sym same,
          ),
      λ (used, others, e).
          rw (remove_criterion, known ∙ ap not used, ap is_empty (sym e) ∙ others, sym e) refl,
    )

find_last-eq_some :
    (p : Criterion → Bool) (cs : List Criterion) {c : Criterion}
    → find_last p cs ≡ some c
    → (p c ≡ true) × (contains cs c ≡ true)
find_last-eq_some p [] h = cc
find_last-eq_some p (d ∷ ds) {c} h = elim (Option-cases (find_last p ds)) [
  | inl q ↦ (ground arith, ground arith)
  | inr (e, q) ↦ let rest = find_last-eq_some p ds q in (ground arith, ground arith)
]

existing-eq_ok :
    (criteria : List Criterion) (i : String) {c : Criterion}
    → existing criteria i ≡ ok c
    → (c.criterion_id ≡ i) × (contains criteria c ≡ true)
unfolding existing
existing-eq_ok criteria i {c} h =
    elim (Option-cases (find_last (λ x. x.criterion_id == i) criteria)) [
      | inl q ↦ absurd (ground (arith, h, q))
      | inr (e, q) ↦
          let (p, m) = find_last-eq_some (λ x. x.criterion_id == i) criteria q in
          let same : e ≡ c = ok-injective e c (ground (arith, h, q)) in
          (
            ap (λ x. x.criterion_id) (sym same) ∙ ==→≡ e.criterion_id i p,
            subst (λ x. contains criteria x ≡ true) same m,
          )
    ]

find_last-unnamed :
    (i : String) (cs : List Criterion)
    → contains (criterion_ids cs) i ≡ false
    → find_last (λ x. x.criterion_id == i) cs ≡ none
find_last-unnamed i [] h = refl
find_last-unnamed i (c ∷ cs) h = ground (arith, find_last-unnamed i cs)

find_last-none :
    (i : String) (cs : List Criterion)
    → find_last (λ x. x.criterion_id == i) cs ≡ none
    → contains (criterion_ids cs) i ≡ false
find_last-none i [] h = refl
find_last-none i (c ∷ cs) h = ground (arith, find_last-none i cs)

contains-criterion_ids :
    (cs : List Criterion) (c : Criterion)
    → contains cs c ≡ true
    → contains (criterion_ids cs) c.criterion_id ≡ true
contains-criterion_ids [] c m = cc
contains-criterion_ids (d ∷ ds) c m = ground (arith, contains-criterion_ids ds c)

find_last-member :
    (cs : List Criterion) (c : Criterion)
    → nodup (criterion_ids cs) ≡ true
    → contains cs c ≡ true
    → find_last (λ x. x.criterion_id == c.criterion_id) cs ≡ some c
find_last-member [] c n m = cc
find_last-member (d ∷ ds) c n m = elim (Bool-cases (contains ds c)) [
  | inl k ↦ rw (find_last-member ds c (ground arith) k) refl
  | inr k ↦
      let same : c ≡ d = ground arith in
      subst (λ x. find_last (λ y. y.criterion_id == x.criterion_id) (d ∷ ds) ≡ some x) (sym same)
        (rw
          (
            find_last-unnamed d.criterion_id ds (ground arith),
            ≡→== d.criterion_id d.criterion_id refl,
          )
          refl)
]

-- With distinct IDs each criterion is the one that the dictionary has at its ID.
existing-member :
    (criteria : List Criterion) (c : Criterion)
    → nodup (criterion_ids criteria) ≡ true
    → contains criteria c ≡ true
    → existing criteria c.criterion_id ≡ ok c
unfolding existing
existing-member criteria c n m = rw (existing, find_last-member criteria c n m) refl

map_ok-existing :
    (criteria : List Criterion) (ids : List String) {found : List Criterion}
    → map_ok (existing criteria) ids ≡ ok found
    → (criterion_ids found ≡ ids) × (subset found criteria ≡ true)
map_ok-existing criteria [] h =
    let e = ok-injective _ _ h in
    (ap criterion_ids (sym e), subst (λ xs. subset xs criteria ≡ true) e refl)
map_ok-existing criteria (i ∷ ids) h =
    let (c, p, q) = >>=-eq_ok (existing criteria i) _ h in
    let (cs, r, s) = >>=-eq_ok (map_ok (existing criteria) ids) _ q in
    let (same, listed) = existing-eq_ok criteria i p in
    let (rest_ids, rest) = map_ok-existing criteria ids r in
    let e = ok-injective _ _ s in
    (
      ap criterion_ids (sym e) ∙ (ap (λ x. x ∷ criterion_ids cs) same ∙ ap (λ xs. i ∷ xs) rest_ids),
      subst (λ xs. subset xs criteria ≡ true) e (ground (arith, listed, rest)),
    )

-- An ID of the order brings the criterion that the dictionary has at it.
map_ok-existing-member :
    (criteria : List Criterion) (ids : List String) {found : List Criterion} (c : Criterion)
    → map_ok (existing criteria) ids ≡ ok found
    → existing criteria c.criterion_id ≡ ok c
    → contains ids c.criterion_id ≡ true
    → contains found c ≡ true
map_ok-existing-member criteria [] c h k m = cc
map_ok-existing-member criteria (i ∷ ids) c h k m =
    let (d, p, q) = >>=-eq_ok (existing criteria i) _ h in
    let (cs, r, s) = >>=-eq_ok (map_ok (existing criteria) ids) _ q in
    subst (λ xs. contains xs c ≡ true) (ok-injective _ _ s)
      (elim (Bool-cases (c.criterion_id == i)) [
        | inl e ↦
            let same : c ≡ d =
              ok-injective c d (sym k ∙ (ap (existing criteria) (==→≡ c.criterion_id i e) ∙ p)) in
            ground (arith, same)
        | inr e ↦ ground (arith, map_ok-existing-member criteria ids c r k)
      ])

-- Where every ID has a criterion, the order can be built.
map_ok-existing-total :
    (criteria : List Criterion) (ids : List String)
    → subset ids (criterion_ids criteria) ≡ true
    → (found : List Criterion) × (map_ok (existing criteria) ids ≡ ok found)
unfolding existing
map_ok-existing-total criteria [] h = ([], refl)
map_ok-existing-total criteria (i ∷ ids) h =
    let (cs, p) = map_ok-existing-total criteria ids (ground arith) in
    elim (Option-cases (find_last (λ x. x.criterion_id == i) criteria)) [
      | inl q ↦ absurd (ground (arith, h, find_last-none i criteria q))
      | inr (c, q) ↦ (c ∷ cs, rw (existing, q, p) refl)
    ]

-- Where the IDs are distinct, reorder_criteria accepts every order that names each of them once, and
-- returns the same criteria, none left out, in the order given.
pub reorder_criteria-total :
    (criteria : List Criterion) (ordered_ids : List String)
    → nodup (criterion_ids criteria) ≡ true
    → length ordered_ids ≡ length criteria
    → same_members ordered_ids (criterion_ids criteria) ≡ true
    → (result : List Criterion) × (reorder_criteria criteria ordered_ids ≡ ok result)
      × (criterion_ids result ≡ ordered_ids)
      × (same_members result criteria ≡ true)
unfolding reorder_criteria
reorder_criteria-total criteria ordered_ids n l m =
    let (known, complete) : (subset ordered_ids (criterion_ids criteria) ≡ true)
        × (subset (criterion_ids criteria) ordered_ids ≡ true) =
      (ground arith, ground arith) in
    let (result, p) = map_ok-existing-total criteria ordered_ids known in
    let (ids, within) = map_ok-existing criteria ordered_ids p in
    (
      result,
      rw (reorder_criteria, ≡→== (length ordered_ids) (length criteria) l, m) p,
      ids,
      rw within (
          subset-of_members criteria result λ c listed.
            map_ok-existing-member criteria ordered_ids c p (existing-member criteria c n listed) (
              contains-of_subset (criterion_ids criteria) ordered_ids c.criterion_id complete
                (contains-criterion_ids criteria c listed))),
    )

-- What reorder_criteria returns is in the order given and has no criterion that was not there; a
-- refused order names too few or too many IDs, or not those of the criteria.
pub reorder_criteria-eq_ok :
    (criteria : List Criterion) (ordered_ids : List String) {result : List Criterion}
    → reorder_criteria criteria ordered_ids ≡ ok result
    → (criterion_ids result ≡ ordered_ids)
      × (subset result criteria ≡ true)
      × (length ordered_ids ≡ length criteria)
      × (same_members ordered_ids (criterion_ids criteria) ≡ true)
unfolding reorder_criteria
reorder_criteria-eq_ok criteria ordered_ids h =
    let (guard, p) = >>-eq_ok (raise_if _ _) _ h in
    let (ids, within) = map_ok-existing criteria ordered_ids p in
    let free = raise_if-eq_ok _ _ guard in
    (ids, within, ==→≡ (length ordered_ids) (length criteria) (ground arith), ground arith)
