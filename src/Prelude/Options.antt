-- ===== src/Prelude/Options.antt =====
-- The `do` blocks of `Option`: the first `none` is the answer.
use mathlib.Core.Path.{◌≡◌, refl}
use mathlib.Core.Logic.{◌⊎◌, inl, inr}
use mathlib.Core.Bool.{Bool, true, false}
use mathlib.Core.Option.{Option, none, some}
use native.Mathlib.Omega.{arith}
use argis_extensions.Prelude.Tests.{if◌then◌else◌}

infixl 5 ◌>>=◌
abbrev pub ◌>>=◌ {ℓ κ} : {A : Type ℓ} {B : Type κ} → Option A → (A → Option B) → Option B
none >>= next = none
some a >>= next = next a

module _ {ℓ} {A : Type ℓ} where
  -- The first answer of two.
  abbrev pub or_else : Option A → Option A → Option A
  or_else (some a) other = some a
  or_else none other = other

  pub or_else_cases :
      (first other : Option A) (a : A)
      → or_else first other ≡ some a
      → (first ≡ some a) ⊎ (other ≡ some a)
  or_else_cases none other a h = inr h
  or_else_cases (some b) other a h = inl h

  -- A guarded answer: the guard held, and it is the answer given.
  pub guarded_cases :
      (guard : Bool) (answer : Option A) (a : A)
      → (if guard then answer else none) ≡ some a
      → (guard ≡ true) × (answer ≡ some a)
  guarded_cases true answer a h = (refl, h)
  guarded_cases false answer a h = ground (h, arith)

  -- The value, or another one.
  abbrev pub get_or : A → Option A → A
  get_or other none = other
  get_or other (some a) = a
