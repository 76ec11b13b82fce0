-- ===== src/Base/Int.antt =====
-- Signed integers over the native numbers (a C `int` that may be negative), under the library's
-- names.
use Prim.Native.Nat.{ℕ, suc, ◌+◌, ◌-◌, ◌*◌, ◌%◌}
use mathlib.Core.Bool.{Bool, ◌&&◌}
use xsocks.Base.Tests.{ltb, leb, ◌==◌, if◌then◌else◌}

-- `negsuc n` is -(n + 1).
pub data ℤ : Type 0 where
  pos : ℕ → ℤ
  negsuc : ℕ → ℤ

abbrev pub pos_part : ℤ → ℕ
pos_part (pos n) = n
pos_part (negsuc n) = 0

abbrev pub neg_part : ℤ → ℕ
neg_part (pos n) = 0
neg_part (negsuc n) = suc n

-- a - b, as an integer.
abbrev pub sub_ℕ : ℕ → ℕ → ℤ
sub_ℕ a b = if leb b a then pos (a - b) else negsuc (b - a - 1)

infixl 65 ◌-ℤ◌
abbrev pub ◌-ℤ◌ : ℤ → ℤ → ℤ
a -ℤ b = sub_ℕ (pos_part a + neg_part b) (neg_part a + pos_part b)

-- Is the integer greater than zero?
abbrev pub is_pos : ℤ → Bool
is_pos a = ltb 0 (pos_part a)

abbrev pub ℤ-eqb : ℤ → ℤ → Bool
ℤ-eqb a b = pos_part a == pos_part b && neg_part a == neg_part b

-- n * a
abbrev pub mul_ℕ : ℕ → ℤ → ℤ
mul_ℕ n a = sub_ℕ (n * pos_part a) (n * neg_part a)

abbrev pub is_zero : ℤ → Bool
is_zero a = ℤ-eqb a (pos 0)

-- What is left of a number in a signed integer of 32 bits: 2 ^ 31 = 2147483648.
abbrev pub wrapped : ℕ → ℤ
wrapped m = if ltb m 2147483648 then pos m else negsuc (4294967295 - m)

abbrev pub int32 : ℤ → ℤ
int32 (pos n) = wrapped (n % 4294967296)
int32 (negsuc n) = wrapped (4294967295 - n % 4294967296)
