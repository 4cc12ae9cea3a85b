-- ===== src/Prelude/Int.antt =====
-- The `int` values that can be negative: integers over the native numbers, with no upper bound.
use Prim.Native.Nat.{ℕ, zero, suc, ◌+◌, ◌-◌, ◌%◌, ◌^◌}
use mathlib.Core.Path.{◌≡◌}
use mathlib.Core.Bool.{Bool}
use native.Mathlib.Omega.{arith}
use minieap.Prelude.Tests.{ltb, leb, if◌then◌else◌}

-- `negsuc n` is -(n + 1).
pub data ℤ : Type 0 where
  pos : ℕ → ℤ
  negsuc : ℕ → ℤ

abbrev pub pos_part : ℤ → ℕ
pos_part (pos n) = n
pos_part (negsuc n) = 0

abbrev pub neg_part : ℤ → ℕ
neg_part (pos n) = 0
neg_part (negsuc n) = suc n

-- a - b, as an integer.
abbrev pub sub_ℕ : ℕ → ℕ → ℤ
sub_ℕ a b = if leb b a then pos (a - b) else negsuc (b - a - 1)

infixl 65 ◌-ℤ◌
unfoldable pub ◌-ℤ◌ : ℤ → ℤ → ℤ
a -ℤ b = sub_ℕ (pos_part a + neg_part b) (neg_part a + pos_part b)

infixl 65 ◌+ℤ◌
unfoldable pub ◌+ℤ◌ : ℤ → ℤ → ℤ
a +ℤ b = sub_ℕ (pos_part a + pos_part b) (neg_part a + neg_part b)

-- `(uint8_t) a`
abbrev pub u8_ℤ : ℤ → ℕ
u8_ℤ (pos n) = n % 256
u8_ℤ (negsuc n) = 255 - n % 256

-- The `int` with the low 32 bits of a `size_t`.
abbrev pub to_int : ℕ → ℤ
to_int n = let m = n % 2 ^ 32 in if ltb m (2 ^ 31) then pos m else negsuc (2 ^ 32 - 1 - m)

-- x > 0
abbrev pub is_pos : ℤ → Bool
is_pos a = ltb 0 (pos_part a)

abbrev pub ltb_ℤ : ℤ → ℤ → Bool
ltb_ℤ a b = ltb (pos_part a + neg_part b) (pos_part b + neg_part a)

-- `%` of C, which keeps the sign of the dividend.
abbrev pub rem : ℤ → ℕ → ℤ
rem (pos n) k = pos (n % k)
rem (negsuc n) k = elim (suc n % k) [ zero ↦ pos 0 | suc m ↦ negsuc m ]

-- Subtracting a smaller number leaves a positive value, subtracting any other does not.
pub is_pos-sub : (a : ℤ) (n : ℕ) → is_pos (a -ℤ pos n) ≡ ltb n (pos_part a)
unfolding ◌-ℤ◌
is_pos-sub (pos a) n = ground arith
is_pos-sub (negsuc a) n = ground arith

pub pos_part-sub : (a : ℤ) (n : ℕ) → pos_part (a -ℤ pos n) ≡ pos_part a - n
unfolding ◌-ℤ◌
pos_part-sub (pos a) n = ground arith
pos_part-sub (negsuc a) n = ground arith
