-- ===== src/Criteria/Numbers.antt =====
-- scopeproof_core/criteria/service.py: the numbers of criterion IDs, `AC-` and at least two digits.
use Prim.Native.Nat.{◌/◌, ◌%◌}
use Prim.Native.Char.{code}
use Prim.Native.String.{◌++◌ as ◌<>◌}
use scope_proof.Base.{
  all-eq_true→All, ℕ, zero, suc, ◌+◌, ◌*◌, ◌<◌, String, ◌≡◌, refl, ◌∙◌, Bool, true, false, Option,
  none, some, List, [], ◌∷◌, All, subst, ◌==◌, nat_eq, ==→≡, ≡→==, ◌||◌, ap, Bool-cases, ltb→lt,
  arith, if◌then◌else◌, ltb, Result, ok, err, after_prefix, Option-cases, inl, inr, sym,
}
use native.Mathlib.Decide.{ℕ_discrete}
use mathlib.Core.Option.{some-injective}
use text.Mathlib.TextLemmas.{nil-append, cons-append}
use scope_proof.Permalink.{digit, digits, decimal}

-- What the code reads of Python's Unicode database: the value of a decimal digit of any script and
-- the word characters of a regular expression.
pub record Unicode : Type 0 where
  pub digit_value : ℕ → Option ℕ
  pub is_word : ℕ → Bool

-- The digits of ASCII have their values.
unfoldable pub ReadsDigits : Unicode → Type 0
ReadsDigits U = (d : ℕ) → d < 10 → U.digit_value (48 + d) ≡ some d

-- `f"{n:02d}"`
unfoldable pub padded : ℕ → String
unfolding decimal
padded n = if ltb n 10 then "0" <> decimal n else decimal n

-- `f"AC-{n:02d}"`
unfoldable pub identifier : ℕ → String
identifier n = "AC-" <> padded n

-- The value of a run of digits after those that are read.
unfoldable pub read_digits : Unicode → ℕ → String → Option ℕ
read_digits U read String.[] = some read
read_digits U read (String.◌∷◌ c s) = elim (U.digit_value (code c)) [
  | none ↦ none
  | some d ↦ read_digits U (read * 10 + d) s
]

-- `int(text)` of a text of digits, as the pattern of a criterion ID requires.
unfoldable pub int_of : Unicode → String → Result ℕ
unfolding read_digits
int_of U String.[] = err "invalid literal for int() with base 10"
int_of U (String.◌∷◌ c s) = elim (read_digits U 0 (String.◌∷◌ c s)) [
  | none ↦ err "invalid literal for int() with base 10"
  | some n ↦ ok n
]

-- `int(criterion_id.removeprefix("AC-"))`
unfoldable pub number : Unicode → String → Result ℕ
unfolding int_of
number U criterion_id = elim (after_prefix "AC-" criterion_id) [
  | none ↦ int_of U criterion_id
  | some rest ↦ int_of U rest
]

-- The numbers below a bound, from the greatest down.
upto : ℕ → List ℕ
upto zero = []
upto (suc n) = n ∷ upto n

below : (P : ℕ → Type 0) (bound d : ℕ) → d < bound → All P (upto bound) → P d
unfolding upto
below P zero d l h = absurd (omega arith)
below P (suc bound) d l h = elim (Bool-cases (d == bound)) [
  | inl p ↦ subst P (sym (==→≡ d bound p)) h.0
  | inr p ↦ below P bound d (ground arith) h.1
]

read_digits-append :
    (U : Unicode) (read : ℕ) (s t : String) {n : ℕ}
    → read_digits U read s ≡ some n
    → read_digits U read (s <> t) ≡ read_digits U n t
unfolding read_digits
read_digits-append U read String.[] t h =
    rw (nil-append t) (ap (λ m. read_digits U m t) (some-injective _ _ h))
read_digits-append U read (String.◌∷◌ c s) t h = elim (Option-cases (U.digit_value (code c))) [
  | inl n ↦ ground arith
  | inr (d, p) ↦
      rw (cons-append c s t, read_digits, p)
        (read_digits-append U (read * 10 + d) s t (ground (arith, p, h)))
]

read_digits-digit :
    (U : Unicode)
    → ReadsDigits U
    → (read d : ℕ) → d < 10
    → read_digits U read (digit d) ≡ some (read * 10 + d)
unfolding read_digits ReadsDigits digit upto ℕ_discrete
read_digits-digit U h read d l =
    below (λ k. read_digits U read (digit k) ≡ some (read * 10 + k)) 10 d l
      (
        rw (h 9 (omega arith)) refl,
        (
          rw (h 8 (omega arith)) refl,
          (
            rw (h 7 (omega arith)) refl,
            (
              rw (h 6 (omega arith)) refl,
              (
                rw (h 5 (omega arith)) refl,
                (
                  rw (h 4 (omega arith)) refl,
                  (
                    rw (h 3 (omega arith)) refl,
                    (
                      rw (h 2 (omega arith)) refl,
                      (rw (h 1 (omega arith)) refl, (rw (h 0 (omega arith)) refl, tt)),
                    ),
                  ),
                ),
              ),
            ),
          ),
        ),
      )

-- Fuel above the number is enough for all its digits, which read back to it.
read_digits-digits :
    (U : Unicode)
    → ReadsDigits U
    → (fuel n : ℕ) → n < fuel
    → read_digits U 0 (digits fuel n) ≡ some n
unfolding digits
read_digits-digits U h zero n l = absurd (omega arith)
read_digits-digits U h (suc fuel) n l = elim (Bool-cases (ltb n 10)) [
  | inl p ↦ rw (digits, p) (read_digits-digit U h 0 n (ltb→lt n 10 p) ∙ ap some (omega arith))
  | inr p ↦
      rw (digits, p)
        (read_digits-append U 0 (digits fuel (n / 10)) (digit (n % 10))
            (read_digits-digits U h fuel (n / 10) (ground arith))
          ∙ (read_digits-digit U h (n / 10) (n % 10) (omega arith) ∙ ap some (omega arith)))
]

has_text : String → Bool
has_text String.[] = false
has_text (String.◌∷◌ c s) = true

has_zero : has_text "0" ≡ true
unfolding has_text
has_zero = refl

has_text-append : (s t : String) → has_text (s <> t) ≡ (has_text s || has_text t)
unfolding has_text
has_text-append String.[] t = rw (nil-append t) refl
has_text-append (String.◌∷◌ c s) t = rw (cons-append c s t) refl

has_text-digit : (d : ℕ) → d < 10 → has_text (digit d) ≡ true
unfolding has_text digit upto ℕ_discrete
has_text-digit d l =
    below (λ k. has_text (digit k) ≡ true) 10 d l
      (all-eq_true→All (λ k. has_text (digit k)) (upto 10) refl)

has_text-digits : (fuel n : ℕ) → has_text (digits (suc fuel) n) ≡ true
unfolding digits
has_text-digits fuel n = elim (Bool-cases (ltb n 10)) [
  | inl p ↦ rw (digits, p) (has_text-digit n (ltb→lt n 10 p))
  | inr p ↦
      rw
        (
          digits,
          p,
          has_text-append (digits fuel (n / 10)) (digit (n % 10)),
          has_text-digit (n % 10) (omega arith),
        )
        (ground arith)
]

has_text-padded : (n : ℕ) → has_text (padded n) ≡ true
unfolding padded decimal
has_text-padded n = elim (Bool-cases (ltb n 10)) [
  | inl p ↦ rw (padded, p, has_text-append "0" (digits (suc n) n), has_zero) refl
  | inr p ↦ rw (padded, p) (has_text-digits n n)
]

read_digits-padded : (U : Unicode) → ReadsDigits U → (n : ℕ) → read_digits U 0 (padded n) ≡ some n
unfolding padded decimal read_digits ReadsDigits
read_digits-padded U h n = elim (Bool-cases (ltb n 10)) [
  | inl p ↦
      rw (padded, p)
        (read_digits-append U 0 "0" (digits (suc n) n) (rw (read_digits, h 0 (omega arith)) refl)
          ∙ read_digits-digits U h (suc n) n (omega arith))
  | inr p ↦ rw (padded, p) (read_digits-digits U h (suc n) n (omega arith))
]

int_of-eq_ok :
    (U : Unicode) (s : String) {n : ℕ}
    → has_text s ≡ true
    → read_digits U 0 s ≡ some n
    → int_of U s ≡ ok n
unfolding int_of has_text
int_of-eq_ok U String.[] h r = cc
int_of-eq_ok U (String.◌∷◌ c s) h r = rw (int_of, r) refl

after_prefix-append : (p s : String) → after_prefix p (p <> s) ≡ some s
unfolding after_prefix
after_prefix-append String.[] s = rw (nil-append s) refl
after_prefix-append (String.◌∷◌ c p) s =
    rw (cons-append c p s, after_prefix, ≡→== (code c) (code c) refl) (after_prefix-append p s)

-- `int` reads back the number that was formatted with two digits or more.
pub number-identifier : (U : Unicode) (n : ℕ) → ReadsDigits U → number U (identifier n) ≡ ok n
unfolding number identifier
number-identifier U n h =
    rw (number, after_prefix-append "AC-" (padded n))
      (int_of-eq_ok U (padded n) (has_text-padded n) (read_digits-padded U h n))
