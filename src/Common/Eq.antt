-- ===== src/Common/Eq.antt =====
-- Types whose values `===` compares: texts and numbers.
use Prim.Native.Nat.{ℕ}
use Prim.Native.String.{String}
use mathlib.Core.Path.{◌≡◌, refl}
use mathlib.Core.Logic.{◌↔◌}
use mathlib.Core.Bool.{Bool, true}
use text.Mathlib.Text.{◌==◌ as str_eq}
use text.Mathlib.TextEquality.{eq_iff}
use eyeflow.Common.Tests.{nat_eq, nat_eq_iff}

pub record Eq {ℓ} (A : Type ℓ) : Type ℓ where
  pub test : A → A → Bool
  pub test_iff : (x y : A) → (test x y ≡ true) ↔ (x ≡ y)

instance abbrev pub nat_equality : Eq ℕ
nat_equality = record { test = nat_eq; test_iff = nat_eq_iff }

instance abbrev pub string_equality : Eq String
string_equality = record { test = str_eq; test_iff = eq_iff }

-- `xs.includes(a)`, `set.has(a)`, `a === b`
module _ {ℓ} {A : Type ℓ} ⦃equality : Eq A⦄ where
  infix 50 ◌==◌
  abbrev pub ◌==◌ : A → A → Bool
  ◌==◌ = equality.test

  pub eq_same : (a : A) → (a == a) ≡ true
  eq_same a = (equality.test_iff a a).1 refl
