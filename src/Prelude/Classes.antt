-- ===== src/Prelude/Classes.antt =====
-- Equality of the values that the program compares with `==`.
use Prim.Native.Nat.{ℕ}
use Prim.Native.String.{String}
use mathlib.Core.Path.{◌≡◌, refl}
use mathlib.Core.Logic.{◌↔◌}
use mathlib.Core.Bool.{Bool, true, false}
use mathlib.Core.Option.{Option, none, some}
use mathlib.Core.List.{List, [], ◌∷◌}
use native.Mathlib.Omega.{arith}
use text.Mathlib.Text.{◌==◌ as str_eq}
use text.Mathlib.TextEquality.{eq_iff}
use sentinel_auth.Prelude.Tests.{nat_beq, if◌then◌else◌}

pub nat_beq_iff : (a b : ℕ) → (nat_beq a b ≡ true) ↔ (a ≡ b)
nat_beq_iff a b = ground arith

pub record Eq {ℓ} (A : Type ℓ) : Type ℓ where
  pub is_equal : A → A → Bool
  pub sound_complete : (x y : A) → (is_equal x y ≡ true) ↔ (x ≡ y)

instance abbrev pub string_eq : Eq String
string_eq = record { is_equal = str_eq; sound_complete = eq_iff }

instance abbrev pub nat_eq : Eq ℕ
nat_eq = record { is_equal = nat_beq; sound_complete = nat_beq_iff }

infix 50 ◌==◌
abbrev pub ◌==◌ {ℓ} : {A : Type ℓ} ⦃values : Eq A⦄ → A → A → Bool
◌==◌ ⦃values⦄ x y = values.is_equal x y

module _ {ℓ} {A : Type ℓ} ⦃e : Eq A⦄ where
  pub ==_refl : (a : A) → (a == a) ≡ true
  ==_refl a = (e.sound_complete a a).1 refl

  pub eq_of_== : (a b : A) → (a == b) ≡ true → a ≡ b
  eq_of_== a b = (e.sound_complete a b).0

  -- Equality with a nullable column: SQL's `column = value` is never true of NULL.
  abbrev pub is_value : Option A → A → Bool
  is_value none a = false
  is_value (some b) a = b == a

  -- `a in xs`
  abbrev pub contains : List A → A → Bool
  contains [] a = false
  contains (x ∷ xs) a = if x == a then true else contains xs a
