-- ===== src/Prelude/Integers.antt =====
-- `i64`: signed integers over the native numbers, their 64 bits, and the arithmetic that stops at
-- the ends of the type.
use Prim.Native.Nat.{ℕ, ◌+◌, ◌-◌, ◌≤◌, ◌<◌}
use mathlib.Core.Path.{◌≡◌}
use mathlib.Core.Bool.{Bool}
use native.Mathlib.Omega.{arith}
use executor_node.Prelude.Tests.{ltb, leb, if◌then◌else◌}

-- `negsuc n` is -(n + 1).
pub data ℤ : Type 0 where
  pos : ℕ → ℤ
  negsuc : ℕ → ℤ

abbrev pub pos_part : ℤ → ℕ
pos_part (pos n) = n
pos_part (negsuc n) = 0

abbrev pub neg_part : ℤ → ℕ
neg_part (pos n) = 0
neg_part (negsuc n) = n + 1

abbrev pub ltb_ℤ : ℤ → ℤ → Bool
ltb_ℤ a b = ltb (pos_part a + neg_part b) (pos_part b + neg_part a)

abbrev pub ◌≤ℤ◌ : ℤ → ℤ → Type 0
a ≤ℤ b = pos_part a + neg_part b ≤ pos_part b + neg_part a

infix 50 ◌≤ℤ◌
infixl 65 ◌+ℤ◌ ◌-ℤ◌
-- a - b, as an integer.
abbrev sub_ℕ : ℕ → ℕ → ℤ
sub_ℕ a b = if leb b a then pos (a - b) else negsuc (b - a - 1)

unfoldable pub ◌+ℤ◌ : ℤ → ℤ → ℤ
a +ℤ b = sub_ℕ (pos_part a + pos_part b) (neg_part a + neg_part b)

unfoldable pub ◌-ℤ◌ : ℤ → ℤ → ℤ
a -ℤ b = sub_ℕ (pos_part a + neg_part b) (neg_part a + pos_part b)

abbrev half : ℕ
half = 9223372036854775808

-- The values of an `i64`.
abbrev pub IsI64 : ℤ → Type 0
IsI64 (pos n) = n < 9223372036854775808
IsI64 (negsuc n) = n < 9223372036854775808

abbrev clamp : ℤ → ℤ
clamp (pos n) = if ltb n half then pos n else pos (half - 1)
clamp (negsuc n) = if ltb n half then negsuc n else negsuc (half - 1)

unfoldable pub saturating_add : ℤ → ℤ → ℤ
unfolding ◌+ℤ◌
saturating_add a b = clamp (a +ℤ b)

unfoldable pub saturating_sub : ℤ → ℤ → ℤ
unfolding ◌-ℤ◌
saturating_sub a b = clamp (a -ℤ b)

-- The integer of 64 bits, and its bits.
abbrev pub of_bits : ℕ → ℤ
of_bits n = if ltb n half then pos n else negsuc (18446744073709551615 - n)

abbrev pub to_bits : ℤ → ℕ
to_bits (pos n) = n
to_bits (negsuc n) = 18446744073709551615 - n

pub to_bits-of_bits : (n : ℕ) → n < 18446744073709551616 → to_bits (of_bits n) ≡ n
to_bits-of_bits n h = ground arith

pub of_bits-to_bits : (z : ℤ) → IsI64 z → of_bits (to_bits z) ≡ z
of_bits-to_bits (pos n) h = ground arith
of_bits-to_bits (negsuc n) h = ground arith
