-- ===== src/Base/Results.antt =====
-- Raised errors as values: an outcome is a value or the message of a ValueError.
use Prim.Native.String.{String}
use mathlib.Core.Path.{◌≡◌, refl, ap}
use mathlib.Core.Bool.{Bool, true, false}
use mathlib.Core.List.{List, [], ◌∷◌, ◌++◌}
use native.Mathlib.Omega.{arith}
use scope_proof.Base.Lists.{All}

pub data Result {ℓ} (A : Type ℓ) : Type ℓ where
  ok : A → Result A
  err : String → Result A

module _ {ℓ κ} {A : Type ℓ} {B : Type κ} where
  infixl 5 ◌>>=◌
  -- An error ends the function; a value goes on to the rest of it.
  abbrev pub ◌>>=◌ : Result A → (A → Result B) → Result B
  err message >>= next = err message
  ok value >>= next = next value

module _ {κ} {B : Type κ} where
  infixl 5 ◌>>◌
  -- A check, which returns nothing, before the rest.
  abbrev pub ◌>>◌ : Result (Unit {0}) → Result B → Result B
  check >> rest = check >>= (λ done. rest)

-- `if bad: raise ValueError(message)`
abbrev pub raise_if : Bool → String → Result (Unit {0})
raise_if true message = err message
raise_if false message = ok tt

module _ {ℓ} {A : Type ℓ} where
  -- `for x in xs: check(x)`
  abbrev pub each : (A → Result (Unit {0})) → List A → Result (Unit {0})
  each check [] = ok tt
  each check (x ∷ xs) = check x >> each check xs

  pub each-eq_ok→All :
      (check : A → Result (Unit {0})) (xs : List A)
      → each check xs ≡ ok tt
      → All (λ x. check x ≡ ok tt) xs
  each-eq_ok→All check [] h = tt
  each-eq_ok→All check (x ∷ xs) h = (ground arith, each-eq_ok→All check xs (ground arith))

  pub All→each-eq_ok :
      (check : A → Result (Unit {0})) (xs : List A)
      → All (λ x. check x ≡ ok tt) xs
      → each check xs ≡ ok tt
  All→each-eq_ok check [] h = refl
  All→each-eq_ok check (x ∷ xs) h = ground (arith, All→each-eq_ok check xs h.1)

  pub each-append :
      (check : A → Result (Unit {0})) (xs ys : List A)
      → each check xs ≡ ok tt
      → each check ys ≡ ok tt
      → each check (xs ++ ys) ≡ ok tt
  each-append check [] ys h k = k
  each-append check (x ∷ xs) ys h k =
      let (first, rest) = split (check x) (each check xs) h in
      rw (first, each-append check xs ys rest k) refl
    where
      split : (m k : Result (Unit {0})) → (m >> k) ≡ ok tt → (m ≡ ok tt) × (k ≡ ok tt)
      split (ok _) k h = (refl, h)
      split (err e) k h = cc

  pub each-weaken :
      (check weaker : A → Result (Unit {0})) (xs : List A)
      → ((x : A) → check x ≡ ok tt → weaker x ≡ ok tt)
      → each check xs ≡ ok tt
      → each weaker xs ≡ ok tt
  each-weaken check weaker xs f h = All→each-eq_ok weaker xs (keep xs (each-eq_ok→All check xs h))
    where
      keep : (ys : List A) → All (λ x. check x ≡ ok tt) ys → All (λ x. weaker x ≡ ok tt) ys
      keep [] q = tt
      keep (y ∷ ys) q = (f y q.0, keep ys q.1)

module _ {ℓ κ} {A : Type ℓ} {B : Type κ} where
  -- `[f(x) for x in xs]`, for a function that may raise.
  abbrev pub map_ok : (A → Result B) → List A → Result (List B)
  map_ok f [] = ok []
  map_ok f (x ∷ xs) = do y ← f x; ys ← map_ok f xs; ok (y ∷ ys)

  -- A function that returns has passed its first call.
  pub >>=-eq_ok :
      (first : Result A) (next : A → Result B) {result : B}
      → (first >>= next) ≡ ok result
      → (value : A) × (first ≡ ok value) × (next value ≡ ok result)
  >>=-eq_ok (err message) next returned = cc
  >>=-eq_ok (ok value) next returned = (value, refl, returned)

pub >>-eq_ok {κ} :
    {B : Type κ} (check : Result (Unit {0})) (rest : Result B) {result : B}
    → (check >> rest) ≡ ok result
    → (check ≡ ok tt) × (rest ≡ ok result)
>>-eq_ok (err message) rest returned = cc
>>-eq_ok (ok _) rest returned = (refl, returned)

pub raise_if-eq_ok : (b : Bool) (message : String) → raise_if b message ≡ ok tt → b ≡ false
raise_if-eq_ok true message h = cc
raise_if-eq_ok false message h = refl

-- Two steps that succeed, one after the other.
pub >>-ok {κ} :
    {B : Type κ} (m : Result (Unit {0})) (k : Result B) {b : B}
    → m ≡ ok tt
    → k ≡ ok b
    → (m >> k) ≡ ok b
>>-ok m k h p = rw h p

pub raise_if-ok : (b : Bool) (message : String) → b ≡ false → raise_if b message ≡ ok tt
raise_if-ok b message h = rw h refl

value_or {ℓ} : {A : Type ℓ} → A → Result A → A
value_or default (ok value) = value
value_or default (err message) = default

pub ok-injective {ℓ} : {A : Type ℓ} (a b : A) → ok a ≡ ok b → a ≡ b
unfolding value_or
ok-injective a b h = ap (value_or a) h
