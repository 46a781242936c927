-- ===== src/Floats.antt =====
-- The floating-point numbers that the program computes with, `f64` and `f32`: parameters with what
-- the theorems rely on.
pub mod Fractions
use Prim.Native.Nat.{ℕ, ◌+◌, ◌*◌, ◌^◌, ◌<◌}
use mathlib.Core.Path.{◌≡◌}
use mathlib.Core.Bool.{Bool, true}

-- `as` from an unsigned integer, the operators, and `.floor() as u64`.
pub record Floats : Type 1 where
  pub Float : Type 0
  pub of_int : ℕ → Float
  pub add : Float → Float → Float
  pub mul : Float → Float → Float
  pub div : Float → Float → Float
  pub is_less : Float → Float → Bool
  pub floor_u64 : Float → ℕ

-- IEEE 754 with a precision in bits: sums that are integers of the precision are exact, and the
-- rounding of a division keeps the order.
pub record IsFloats (f : Floats) (precision : ℕ) : Type 0 where
  pub add-eq :
      (a b : ℕ) → a + b < 2 ^ precision → f.add (f.of_int a) (f.of_int b) ≡ f.of_int (a + b)
  pub is_less-div :
      (a b c d : ℕ)
      → a < 2 ^ precision
      → b < 2 ^ precision
      → c < 2 ^ precision
      → d < 2 ^ precision
      → 0 < b
      → 0 < d
      → f.is_less (f.div (f.of_int a) (f.of_int b)) (f.div (f.of_int c) (f.of_int d)) ≡ true
      → a * d < c * b
