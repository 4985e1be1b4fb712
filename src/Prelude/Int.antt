-- ===== src/Prelude/Int.antt =====
-- Signed integers over the native numbers, and Go's 64-bit `int` counter step.
use Prim.Native.Nat.{ℕ, zero, suc, ◌+◌, ◌-◌, ◌%◌, ◌≤◌, ◌<◌}
use mathlib.Core.Bool.{Bool, true, false}
use argis_extensions.Prelude.Tests.{ltb, leb, ◌==◌, if◌then◌else◌}

-- `negsuc n` is -(n + 1).
pub data ℤ : Type 0 where
  pos : ℕ → ℤ
  negsuc : ℕ → ℤ

abbrev pub pos_part : ℤ → ℕ
pos_part (pos n) = n
pos_part (negsuc n) = 0

abbrev pub neg_part : ℤ → ℕ
neg_part (pos n) = 0
neg_part (negsuc n) = suc n

-- a - b, as an integer.
abbrev pub sub_ℕ : ℕ → ℕ → ℤ
sub_ℕ a b = if leb b a then pos (a - b) else negsuc (b - a - 1)

infix 50 ◌≤ℤ◌ ◌<ℤ◌
abbrev pub ◌≤ℤ◌ : ℤ → ℤ → Type 0
a ≤ℤ b = pos_part a + neg_part b ≤ pos_part b + neg_part a

abbrev pub ◌<ℤ◌ : ℤ → ℤ → Type 0
a <ℤ b = pos_part a + neg_part b < pos_part b + neg_part a

abbrev pub ltb_ℤ : ℤ → ℤ → Bool
ltb_ℤ a b = ltb (pos_part a + neg_part b) (pos_part b + neg_part a)

abbrev pub leb_ℤ : ℤ → ℤ → Bool
leb_ℤ a b = leb (pos_part a + neg_part b) (pos_part b + neg_part a)

-- The largest value of a 64-bit `int`.
abbrev pub int_max : ℕ
int_max = 0x7fff_ffff_ffff_ffff

-- `n++` on a 64-bit `int`: the largest value wraps to the smallest.
abbrev pub inc : ℤ → ℤ
inc (pos n) = if n == int_max then negsuc int_max else pos (n + 1)
inc (negsuc zero) = pos 0
inc (negsuc (suc n)) = negsuc n

-- a - n and a - b, without bounds.
abbrev pub minus_ℕ : ℤ → ℕ → ℤ
minus_ℕ (pos a) n = sub_ℕ a n
minus_ℕ (negsuc a) n = negsuc (a + n)

abbrev pub minus_ℤ : ℤ → ℤ → ℤ
minus_ℤ a (pos b) = minus_ℕ a b
minus_ℤ (pos a) (negsuc b) = pos (a + b + 1)
minus_ℤ (negsuc a) (negsuc b) = sub_ℕ b a

-- Go's 64-bit `a + b`.
abbrev pub word : ℕ
word = 0x1_0000_0000_0000_0000

abbrev pub add_int64 : ℤ → ℤ → ℤ
add_int64 a b =
    let r = ((pos_part a + pos_part b) % word + word - (neg_part a + neg_part b) % word) % word in
    if leb r int_max then pos r else negsuc (word - r - 1)

abbrev pub is_zero : ℤ → Bool
is_zero (pos zero) = true
is_zero (pos (suc n)) = false
is_zero (negsuc n) = false
