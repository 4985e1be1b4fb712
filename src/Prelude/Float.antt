-- ===== src/Prelude/Float.antt =====
-- Go's `float64`, which the code computes with and these files do not define: a type with the
-- operations that the code uses, as a parameter. `ratio n d` is the literal n/d. `a > b` is
-- `lt b a` and `a >= b` is `le b a`.
use Prim.Native.Nat.{ℕ, ◌+◌, ◌-◌, ◌*◌, ◌/◌, ◌^◌}
use mathlib.Core.Path.{◌≡◌}
use mathlib.Core.Bool.{Bool, true, false}
use native.Mathlib.Omega.{arith}
use argis_extensions.Prelude.Tests.{ltb, leb, ◌==◌, if◌then◌else◌}
use argis_extensions.Prelude.Int.{ℤ, pos, pos_part}

pub record Float64 : Type 1 where
  pub Carrier : Type 0
  pub of_int : ℤ → Carrier
  pub ratio : ℕ → ℕ → Carrier
  pub add : Carrier → Carrier → Carrier
  pub sub : Carrier → Carrier → Carrier
  pub mul : Carrier → Carrier → Carrier
  pub div : Carrier → Carrier → Carrier
  pub lt : Carrier → Carrier → Bool
  pub le : Carrier → Carrier → Bool
  pub eq : Carrier → Carrier → Bool
  pub max : Carrier → Carrier → Carrier
  pub min : Carrier → Carrier → Carrier
  pub pow : Carrier → Carrier → Carrier
  pub exp : Carrier → Carrier
  -- `int64(x)`, which cuts the fraction off.
  pub to_int : Carrier → ℤ

-- What IEEE 754 says of `<` for all values, NaN included.
pub record IsStrict (F : Float64) : Type 0 where
  pub lt_irrefl : (a : F.Carrier) → F.lt a a ≡ false
  pub lt_trans : (a b c : F.Carrier) → F.lt a b ≡ true → F.lt b c ≡ true → F.lt a c ≡ true

-- What it says of `<=` beside `<`, for all values as well.
pub record IsOrdered (F : Float64) : Type 0 where
  pub le_trans : (a b c : F.Carrier) → F.le a b ≡ true → F.le b c ≡ true → F.le a c ≡ true
  pub lt_of_le_of_lt : (a b c : F.Carrier) → F.le a b ≡ true → F.lt b c ≡ true → F.lt a c ≡ true
  pub lt_of_lt_of_le : (a b c : F.Carrier) → F.lt a b ≡ true → F.le b c ≡ true → F.lt a c ≡ true

-- What it says of numbers that are not NaN.
pub record IsTotal (F : Float64) : Type 0 where
  pub eq_of_not_lt : (a b : F.Carrier) → F.lt a b ≡ false → F.lt b a ≡ false → F.eq a b ≡ true
  pub lt_of_eq : (a b c : F.Carrier) → F.eq a b ≡ true → (F.lt a c ≡ F.lt b c)
  pub eq_symm : (a b : F.Carrier) → F.eq a b ≡ F.eq b a

-- Non-negative numbers in millionths: an instance for examples.
abbrev pub micros : Float64
micros = record {
  Carrier = ℕ;
  of_int = λ n. pos_part n * 1_000_000;
  ratio = λ n d. n * 1_000_000 / d;
  add = λ a b. a + b;
  sub = λ a b. a - b;
  mul = λ a b. a * b / 1_000_000;
  div = λ a b. a * 1_000_000 / b;
  lt = ltb;
  le = leb;
  eq = ◌==◌;
  max = λ a b. if ltb a b then b else a;
  min = λ a b. if ltb b a then b else a;
  pow = λ a b. (a / 1_000_000) ^ (b / 1_000_000) * 1_000_000;
  exp = λ a. a + 1_000_000;
  to_int = λ a. pos (a / 1_000_000);
}

pub micros-IsStrict : IsStrict micros
micros-IsStrict = record { lt_irrefl = λ a. ground arith; lt_trans = λ a b c p q. ground arith }

pub micros-IsTotal : IsTotal micros
micros-IsTotal = record {
  eq_of_not_lt = λ a b p q. ground arith;
  lt_of_eq = λ a b c p. ground arith;
  eq_symm = λ a b. ground arith;
}

pub micros-IsOrdered : IsOrdered micros
micros-IsOrdered = record {
  le_trans = λ a b c p q. ground arith;
  lt_of_le_of_lt = λ a b c p q. ground arith;
  lt_of_lt_of_le = λ a b c p q. ground arith;
}
