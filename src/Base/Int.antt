-- ===== src/Base/Int.antt =====
-- Signed integers over the native numbers.
use stabilitypool.Base.Tests.{ltb, leb, if◌then◌else◌}
use Prim.Native.Nat.{ℕ, zero, suc, ◌+◌, ◌-◌, ◌*◌, ◌/◌, ◌≤◌}
use mathlib.Core.Path.{◌≡◌}
use mathlib.Core.Bool.{Bool}
use native.Mathlib.Omega.{arith}

-- `negsuc n` is -(n + 1).
pub data ℤ : Type 0 where
  pos : ℕ → ℤ
  negsuc : ℕ → ℤ

abbrev pub pos_part : ℤ → ℕ
pos_part (pos n) = n
pos_part (negsuc n) = 0

abbrev pub neg_part : ℤ → ℕ
neg_part (pos n) = 0
neg_part (negsuc n) = suc n

-- a - b, as an integer.
abbrev pub sub_ℕ : ℕ → ℕ → ℤ
sub_ℕ a b = if leb b a then pos (a - b) else negsuc (b - a - 1)

infixl 65 ◌+ℤ◌
infixl 70 ◌*ℤ◌
infix 50 ◌≤ℤ◌
unfoldable pub ◌+ℤ◌ : ℤ → ℤ → ℤ
a +ℤ b = sub_ℕ (pos_part a + pos_part b) (neg_part a + neg_part b)

abbrev pub neg_ℤ : ℤ → ℤ
neg_ℤ (pos zero) = pos 0
neg_ℤ (pos (suc n)) = negsuc n
neg_ℤ (negsuc n) = pos (suc n)

unfoldable pub ◌*ℤ◌ : ℤ → ℤ → ℤ
pos m *ℤ pos n = pos (m * n)
pos m *ℤ negsuc n = neg_ℤ (pos (m * suc n))
negsuc m *ℤ pos n = neg_ℤ (pos (suc m * n))
negsuc m *ℤ negsuc n = pos (suc m * suc n)

-- Division by a positive number rounds towards zero.
unfoldable pub tdiv : ℤ → ℕ → ℤ
tdiv (pos n) d = pos (n / d)
tdiv (negsuc n) d = neg_ℤ (pos (suc n / d))

abbrev pub ◌≤ℤ◌ : ℤ → ℤ → Type 0
a ≤ℤ b = pos_part a + neg_part b ≤ pos_part b + neg_part a

abbrev pub ltb_ℤ : ℤ → ℤ → Bool
ltb_ℤ a b = ltb (pos_part a + neg_part b) (pos_part b + neg_part a)

pub eq_of_parts : (a b : ℤ) → pos_part a + neg_part b ≡ pos_part b + neg_part a → a ≡ b
eq_of_parts a b h = ground arith
