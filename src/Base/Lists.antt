-- ===== src/Base/Lists.antt =====
-- Lists with Boolean tests: `in`, comprehensions, `any`, `all`, sets and dictionaries by a key.
use Prim.Native.Nat.{ℕ, suc, ◌+◌}
use mathlib.Core.Path.{◌≡◌, refl, sym, ap, ◌∙◌, subst}
use mathlib.Core.Bool.{Bool, true, false, not, ◌&&◌, ◌||◌}
use mathlib.Core.Option.{Option, none, some, some-injective}
use mathlib.Core.List.{List, [], ◌∷◌, ◌++◌}
use native.Mathlib.Omega.{arith}
use scope_proof.Base.Logic.{if◌then◌else◌}
use scope_proof.Base.Equality.{Eq, ◌==◌}

module _ {ℓ} {A : Type ℓ} where
  abbrev pub length : List A → ℕ
  length [] = 0
  length (x ∷ xs) = suc (length xs)

  -- `[x for x in xs if p(x)]`
  abbrev pub filter : (A → Bool) → List A → List A
  filter p [] = []
  filter p (x ∷ xs) = let rest = filter p xs in if p x then x ∷ rest else rest

  abbrev pub any : (A → Bool) → List A → Bool
  any p [] = false
  any p (x ∷ xs) = p x || any p xs

  abbrev pub all : (A → Bool) → List A → Bool
  all p [] = true
  all p (x ∷ xs) = p x && all p xs

  -- The last element that passes the test: a dictionary comprehension keeps the last value of a key.
  abbrev pub find_last : (A → Bool) → List A → Option A
  find_last p [] = none
  find_last p (x ∷ xs) = elim (find_last p xs) [
    | some y ↦ some y
    | none ↦ if p x then some x else none
  ]

  -- The first element that passes the test: `next((x for x in xs if p(x)), None)`.
  abbrev pub find_first : (A → Bool) → List A → Option A
  find_first p [] = none
  find_first p (x ∷ xs) = let rest = find_first p xs in if p x then some x else rest

  abbrev pub is_empty : List A → Bool
  is_empty [] = true
  is_empty (x ∷ xs) = false

  -- What holds of every element.
  abbrev pub All {κ} : (holds : A → Type κ) (xs : List A) → Type κ
  All holds [] = Unit
  All holds (x ∷ xs) = holds x × All holds xs

module _ {ℓ κ} {A : Type ℓ} {B : Type κ} where
  -- `[f(x) for x in xs if f(x) is not None]`
  abbrev pub filter_map : (A → Option B) → List A → List B
  filter_map f [] = []
  filter_map f (x ∷ xs) =
      let rest = filter_map f xs in elim (f x) [ none ↦ rest | some y ↦ y ∷ rest ]

module _ {ℓ} {A : Type ℓ} ⦃e : Eq A⦄ where
  -- `a in xs`
  abbrev pub contains : List A → A → Bool
  contains [] a = false
  contains (x ∷ xs) a = a == x || contains xs a

  -- `len(xs) == len(set(xs))`
  abbrev pub nodup : List A → Bool
  nodup [] = true
  nodup (x ∷ xs) = not (contains xs x) && nodup xs

  -- `set(xs) <= set(ys)`
  abbrev pub subset : List A → List A → Bool
  subset xs ys = all (contains ys) xs

  -- `set(xs) == set(ys)`
  abbrev pub same_members : List A → List A → Bool
  same_members xs ys = subset xs ys && subset ys xs

  -- `s.add(a)`, for a set that is kept in insertion order.
  abbrev pub set_add : A → List A → List A
  set_add a xs = if contains xs a then xs else xs ++ (a ∷ [])

  -- `list(dict.fromkeys(xs))`: the first occurrence of each element.
  abbrev pub distinct_onto : List A → List A → List A
  distinct_onto seen [] = seen
  distinct_onto seen (x ∷ xs) = distinct_onto (set_add x seen) xs

  abbrev pub distinct : List A → List A
  distinct xs = distinct_onto [] xs

module _ {ℓ κ} {A : Type ℓ} {K : Type κ} ⦃e : Eq K⦄ where
  -- `{key(x): x for x in xs}.get(k)`
  abbrev pub last_by : (A → K) → K → List A → Option A
  last_by key k = find_last (λ x. key x == k)

module _ {ℓ} {A : Type ℓ} ⦃e : Eq A⦄ where
  pub contains-append :
      (xs ys : List A) (a : A) → contains (xs ++ ys) a ≡ (contains xs a || contains ys a)
  contains-append [] ys a = refl
  contains-append (x ∷ xs) ys a = ground (arith, contains-append xs ys a)

  pub contains-set_add :
      (b : A) (xs : List A) (a : A) → contains (set_add b xs) a ≡ (a == b || contains xs a)
  contains-set_add b xs a = ground (arith, contains-append xs (b ∷ []) a)

  pub nodup-snoc :
      (xs : List A) (a : A) → nodup (xs ++ (a ∷ [])) ≡ (not (contains xs a) && nodup xs)
  nodup-snoc [] a = refl
  nodup-snoc (x ∷ xs) a = ground (arith, contains-append xs (a ∷ []) x, nodup-snoc xs a)

  pub set_add-nodup : (a : A) (xs : List A) → nodup xs ≡ true → nodup (set_add a xs) ≡ true
  set_add-nodup a xs h = ground (arith, nodup-snoc xs a)

  pub distinct_onto-nodup :
      (seen xs : List A) → nodup seen ≡ true → nodup (distinct_onto seen xs) ≡ true
  distinct_onto-nodup seen [] h = h
  distinct_onto-nodup seen (x ∷ xs) h =
      distinct_onto-nodup (set_add x seen) xs (set_add-nodup x seen h)

  pub contains-distinct_onto :
      (seen xs : List A) (a : A)
      → contains (distinct_onto seen xs) a ≡ (contains seen a || contains xs a)
  contains-distinct_onto seen [] a = ground arith
  contains-distinct_onto seen (x ∷ xs) a =
      ground (arith, contains-distinct_onto (set_add x seen) xs a, contains-set_add x seen a)

  pub all-contains :
      (p : A → Bool) (xs : List A) (a : A) → all p xs ≡ true → contains xs a ≡ true → p a ≡ true
  all-contains p [] a h m = cc
  all-contains p (x ∷ xs) a h m = ground (arith, all-contains p xs a)

module _ {ℓ} {A : Type ℓ} where
  pub length-append : (xs ys : List A) → length (xs ++ ys) ≡ length xs + length ys
  length-append [] ys = omega arith
  length-append (x ∷ xs) ys = let rest = length-append xs ys in omega arith

  pub find_last-append :
      (p : A → Bool) (xs : List A) (x : A)
      → find_last p (xs ++ (x ∷ [])) ≡ (if p x then some x else find_last p xs)
  find_last-append p [] x = refl
  find_last-append p (y ∷ xs) x = ground (arith, find_last-append p xs x)

  pub find_last-eq_none :
      (p : A → Bool) (xs : List A) → All (λ x. p x ≡ false) xs → find_last p xs ≡ none
  find_last-eq_none p [] h = refl
  find_last-eq_none p (x ∷ xs) h = rw (find_last-eq_none p xs h.1, h.0) refl

  pub filter-eq_nil : (p : A → Bool) (xs : List A) → All (λ x. p x ≡ false) xs → filter p xs ≡ []
  filter-eq_nil p [] h = refl
  filter-eq_nil p (x ∷ xs) h = rw (h.0, filter-eq_nil p xs h.1) refl

  pub All-weaken {κ μ} :
      {B : A → Type κ} {C : A → Type μ} (xs : List A) → ((x : A) → B x → C x) → All B xs → All C xs
  All-weaken [] f h = tt
  All-weaken (x ∷ xs) f h = (f x h.0, All-weaken xs f h.1)

  pub any-append : (p : A → Bool) (xs ys : List A) → any p (xs ++ ys) ≡ (any p xs || any p ys)
  any-append p [] ys = refl
  any-append p (x ∷ xs) ys = ground (arith, any-append p xs ys)

  pub any-eq_false→All : (p : A → Bool) (xs : List A) → any p xs ≡ false → All (λ x. p x ≡ false) xs
  any-eq_false→All p [] h = tt
  any-eq_false→All p (x ∷ xs) h = (ground arith, any-eq_false→All p xs (ground arith))

  pub all-eq_true→All : (p : A → Bool) (xs : List A) → all p xs ≡ true → All (λ x. p x ≡ true) xs
  all-eq_true→All p [] h = tt
  all-eq_true→All p (x ∷ xs) h = (ground arith, all-eq_true→All p xs (ground arith))

module _ {ℓ κ} {A : Type ℓ} (B : A → Type κ) where
  -- What is found passes the test and has what every element has.
  pub find_first-eq_some :
      (p : A → Bool) (xs : List A) {found : A}
      → All B xs
      → find_first p xs ≡ some found
      → (p found ≡ true) × B found
  find_first-eq_some p [] h q = cc
  find_first-eq_some p (x ∷ xs) {found} h q =
      of_test (p x) refl (λ r. find_first-eq_some p xs h.1 r) q
    where
      of_test :
          (b : Bool)
          → p x ≡ b
          → (find_first p xs ≡ some found → (p found ≡ true) × B found)
          → (if b then some x else find_first p xs) ≡ some found
          → (p found ≡ true) × B found
      of_test true t rest r =
          let same = some-injective x found r in (ap p (sym same) ∙ t, subst B same h.0)
      of_test false t rest r = rest r

module _ {ℓ} {A : Type ℓ} where
  pub filter-All : (p : A → Bool) (xs : List A) → All (λ x. p x ≡ true) (filter p xs)
  filter-All p [] = tt
  filter-All p (x ∷ xs) = of_test (p x) refl (filter-All p xs)
    where
      of_test :
          (b : Bool)
          → p x ≡ b
          → All (λ x. p x ≡ true) (filter p xs)
          → All (λ x. p x ≡ true) (if b then x ∷ filter p xs else filter p xs)
      of_test true t rest = (t, rest)
      of_test false t rest = rest

module _ {ℓ} {A : Type ℓ} ⦃e : Eq A⦄ where
  -- A list whose members all lie in another is a subset of it.
  pub subset-of_members :
      (xs ys : List A)
      → ((a : A) → contains xs a ≡ true → contains ys a ≡ true)
      → subset xs ys ≡ true
  subset-of_members [] ys h = refl
  subset-of_members (x ∷ xs) ys h =
      rw (h x (ground arith)) (subset-of_members xs ys (λ a m. h a (ground arith)))

  pub contains-of_subset :
      (xs ys : List A) (a : A) → subset xs ys ≡ true → contains xs a ≡ true → contains ys a ≡ true
  contains-of_subset [] ys a h m = cc
  contains-of_subset (x ∷ xs) ys a h m = ground (arith, contains-of_subset xs ys a)
