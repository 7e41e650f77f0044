-- ===== src/Base/Equality.antt =====
-- Python's `==`, for every type whose equality can be decided.
use Prim.Native.Nat.{ℕ}
use Prim.Native.String.{String}
use mathlib.Core.Path.{◌≡◌}
use mathlib.Core.Logic.{ite, dite}
use mathlib.Core.Bool.{Bool, true, false, Bool-discrete}
use mathlib.Core.Option.{Option}
use mathlib.Core.List.{List}
use native.Mathlib.Decide.{ℕ_discrete}
use native.Mathlib.Omega.{arith}
use text.Mathlib.Text
use text.Mathlib.TextEquality.{eq_iff}

pub record Eq {ℓ} (A : Type ℓ) : Type ℓ where
  pub dec : Discrete A

module _ {ℓ} {A : Type ℓ} ⦃e : Eq A⦄ where
  infix 50 ◌==◌
  abbrev pub ◌==◌ : A → A → Bool
  a == b = ite (e.dec a b) true false

  pub ==→≡ : (a b : A) → (a == b) ≡ true → a ≡ b
  ==→≡ a b h = ground arith

  pub ≡→== : (a b : A) → a ≡ b → (a == b) ≡ true
  ≡→== a b h = ground arith

unfoldable pub String_discrete : Discrete String
String_discrete s t =
    dite (Bool-discrete (Text.◌==◌ s t) true) (λ same. yes ((eq_iff s t).0 same))
      (λ differ. no (λ p. differ ((eq_iff s t).1 p)))

unfoldable pub Option_discrete {ℓ} : {A : Type ℓ} → Discrete A → Discrete (Option A)
Option_discrete d = hlevel d

unfoldable pub List_discrete {ℓ} : {A : Type ℓ} → Discrete A → Discrete (List A)
List_discrete d = hlevel d

instance abbrev pub string_eq : Eq String
string_eq = record { dec = String_discrete }

instance abbrev pub nat_eq : Eq ℕ
nat_eq = record { dec = ℕ_discrete }

instance abbrev pub bool_eq : Eq Bool
bool_eq = record { dec = Bool-discrete }

module _ {ℓ} {A : Type ℓ} ⦃e : Eq A⦄ where
  instance abbrev pub option_eq : Eq (Option A)
  option_eq = record { dec = Option_discrete e.dec }

  instance abbrev pub list_eq : Eq (List A)
  list_eq = record { dec = List_discrete e.dec }
