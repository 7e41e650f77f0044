-- ===== src/Criteria/Fresh.antt =====
-- The IDs of criteria in scopeproof_core/criteria/service.py: the next one is new, and new ones can
-- stand anywhere in a list.
use scope_proof.Base.{
  ℕ, ◌+◌, ◌≤◌, ◌≡◌, refl, sym, ap, ◌∙◌, subst, arith, String, Bool, true, false, ◌&&◌, not, List,
  [], ◌∷◌, ◌++◌, contains, nodup, ok, map_ok, ok-injective, ◌==◌, string_eq, Bool-cases, inl, inr,
  >>=-eq_ok, contains-append, ==→≡,
}
use scope_proof.Criteria.{next_identifier, highest}
use scope_proof.Criteria.Numbers.{Unicode, ReadsDigits, number, number-identifier}
use scope_proof.Gate.{criterion_ids}
use scope_proof.Schema.{Criterion}

-- A listed ID has a number, and the highest number is no less.
pub highest-map_ok :
    (U : Unicode) (ids : List String) {numbers : List ℕ} (i : String)
    → map_ok (number U) ids ≡ ok numbers
    → contains ids i ≡ true
    → (n : ℕ) × (number U i ≡ ok n) × (n ≤ highest numbers)
unfolding highest
highest-map_ok U [] i h m = cc
highest-map_ok U (j ∷ ids) {numbers} i h m =
    let (n, p, q) = >>=-eq_ok (number U j) _ h in
    let (ns, r, s) = >>=-eq_ok (map_ok (number U) ids) _ q in
    elim (Bool-cases (i == j)) [
      | inl e ↦ (
        n,
        ap (number U) (==→≡ i j e) ∙ p,
        subst (λ ms. n ≤ highest ms) (ok-injective _ _ s) (omega arith),
      )
      | inr e ↦
          let (k, t, u) = highest-map_ok U ids i r (ground arith) in
          (k, t, subst (λ ms. k ≤ highest ms) (ok-injective _ _ s) (omega arith))
    ]

-- The next ID is not in use.
pub next_identifier-fresh :
    (U : Unicode)
    → ReadsDigits U
    → (criteria : List Criterion) {next : String} → next_identifier U criteria ≡ ok next
    → contains (criterion_ids criteria) next ≡ false
unfolding next_identifier
next_identifier-fresh U reads criteria {next} h =
    let (ns, p, q) = >>=-eq_ok (map_ok (number U) (criterion_ids criteria)) _ h in
    elim (Bool-cases (contains (criterion_ids criteria) next)) [
      | inr free ↦ free
      | inl used ↦
          let (n, r, l) = highest-map_ok U (criterion_ids criteria) next p used in
          let same = number-identifier U (highest ns + 1) reads in
          let e : n ≡ highest ns + 1 =
            ok-injective _ _ (sym r ∙ (ap (number U) (sym (ok-injective _ _ q)) ∙ same)) in
          absurd (omega arith)
    ]

-- A list of new IDs in the middle of distinct ones.
pub middle_one-nodup :
    (xs : List String) (z : String) (ys : List String)
    → nodup (xs ++ (z ∷ ys)) ≡ (not (contains (xs ++ ys) z) && nodup (xs ++ ys))
middle_one-nodup [] z ys = refl
middle_one-nodup (x ∷ xs) z ys =
    ground (arith, middle_one-nodup xs z ys, contains-append xs (z ∷ ys) x, contains-append xs ys x)

-- No element of the list is in the other.
unfoldable pub disjoint : List String → List String → Bool
disjoint [] ys = true
disjoint (x ∷ xs) ys = not (contains ys x) && disjoint xs ys

pub contains-disjoint :
    (zs ys : List String) (a : String)
    → disjoint zs ys ≡ true
    → contains ys a ≡ true
    → contains zs a ≡ false
unfolding disjoint
contains-disjoint [] ys a d c = refl
contains-disjoint (z ∷ zs) ys a d c = ground (arith, contains-disjoint zs ys a)

pub middle-nodup :
    (xs zs ys : List String)
    → nodup (xs ++ ys) ≡ true
    → nodup zs ≡ true
    → disjoint zs (xs ++ ys) ≡ true
    → nodup (xs ++ (zs ++ ys)) ≡ true
unfolding disjoint
middle-nodup xs [] ys n m d = n
middle-nodup xs (z ∷ zs) ys n m d = ground (
  arith,
  middle_one-nodup xs z (zs ++ ys),
  middle-nodup xs zs ys,
  contains-append xs (zs ++ ys) z,
  contains-append zs ys z,
  contains-append xs ys z,
)
