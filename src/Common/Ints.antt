-- ===== src/Common/Ints.antt =====
-- Go's signed integers: ℤ over the native numbers, with the wrap of int32 written out.
use Prim.Native.Nat.{ℕ, suc, ◌+◌, ◌-◌, ◌/◌, ◌%◌, ◌≤◌, ◌<◌}
use mathlib.Core.Path.{◌≡◌}
use mathlib.Core.Bool.{Bool}
use native.Mathlib.Omega.{arith}
use native.Mathlib.Decide.{ℕ_discrete}
use automatic_db_upgrades.Common.Tests.{ltb, leb, if◌then◌else◌}

-- `negsuc n` is -(n + 1).
pub data ℤ : Type 0 where
  pos : ℕ → ℤ
  negsuc : ℕ → ℤ

unfoldable pub ℤ-discrete : Discrete ℤ
unfolding ℕ_discrete
ℤ-discrete = hlevel ℕ_discrete

abbrev pub pos_part : ℤ → ℕ
pos_part (pos n) = n
pos_part (negsuc n) = 0

abbrev pub neg_part : ℤ → ℕ
neg_part (pos n) = 0
neg_part (negsuc n) = suc n

-- a - b, as an integer.
abbrev pub sub_ℕ : ℕ → ℕ → ℤ
sub_ℕ a b = if leb b a then pos (a - b) else negsuc (b - a - 1)

infixl 65 ◌-ℤ◌
infix 50 ◌<ℤ◌ ◌≤ℤ◌
abbrev pub ◌-ℤ◌ : ℤ → ℤ → ℤ
a -ℤ b = sub_ℕ (pos_part a + neg_part b) (neg_part a + pos_part b)

abbrev pub ◌≤ℤ◌ : ℤ → ℤ → Type 0
a ≤ℤ b = pos_part a + neg_part b ≤ pos_part b + neg_part a

abbrev pub ◌<ℤ◌ : ℤ → ℤ → Type 0
a <ℤ b = pos_part a + neg_part b < pos_part b + neg_part a

abbrev pub ltb_ℤ : ℤ → ℤ → Bool
ltb_ℤ a b = ltb (pos_part a + neg_part b) (pos_part b + neg_part a)

abbrev pub of_residue : ℕ → ℤ
of_residue r = if ltb r 2147483648 then pos r else negsuc (4294967295 - r)

-- The conversion to int32 keeps the low 32 bits, read as two's complement.
unfoldable pub int32 : ℤ → ℤ
int32 (pos n) = of_residue (n % 4294967296)
int32 (negsuc n) = of_residue (4294967295 - n % 4294967296)

abbrev pub FitsInt32 : ℤ → Type 0
FitsInt32 a = (pos_part a < 2147483648) × (neg_part a ≤ 2147483648)

-- In range the conversion changes nothing.
pub int32_of_FitsInt32 : (a : ℤ) → FitsInt32 a → int32 a ≡ a
unfolding int32
int32_of_FitsInt32 (pos n) h = ground arith
int32_of_FitsInt32 (negsuc n) h = ground arith

-- Quotient towards zero, as the integer part of a number of seconds.
abbrev pub quot : ℤ → ℕ → ℤ
quot (pos n) k = pos (n / k)
quot (negsuc n) k = sub_ℕ 0 (suc n / k)
