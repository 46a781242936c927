-- ===== src/Base/U128.antt =====
-- `u128` as native numbers below 2 ^ 128.
use stabilitypool.Base.Tests.{if◌then◌else◌, ◌==◌}
use stabilitypool.Base.Panics.{Exec, ok, panic, division_by_zero}
use Prim.Native.Nat.{ℕ, ◌+◌, ◌-◌, ◌*◌, ◌/◌, ◌%◌, ◌^◌, ◌<◌, ◌≤◌}
use mathlib.Core.Path.{◌≡◌}
use mathlib.Core.Option.{Option, none, some}
use native.Mathlib.Nat.{mod-eq_of_lt, mul-le-mul}
use native.Mathlib.Omega.{arith}

abbrev pub modulus : ℕ
modulus = 2 ^ 128

unfoldable pub add : ℕ → ℕ → ℕ
add a b = (a + b) % modulus

unfoldable pub sub : ℕ → ℕ → ℕ
sub a b = (a + modulus - b) % modulus

unfoldable pub mul : ℕ → ℕ → ℕ
mul a b = (a * b) % modulus

abbrev pub checked_div : ℕ → ℕ → Option ℕ
checked_div n d = if d == 0 then none else some (n / d)

pub add_lem : (a b : ℕ) → a + b < modulus → add a b ≡ a + b
unfolding add
add_lem a b h = omega arith

pub sub_lem : (a b : ℕ) → a < modulus → b ≤ a → sub a b ≡ a - b
unfolding sub
sub_lem a b h k = omega arith

-- A product of two `u64` values never wraps.
pub mul_lem : (a b : ℕ) → a < 2 ^ 64 → b < 2 ^ 64 → mul a b ≡ a * b
unfolding mul
mul_lem a b h k =
    let small : a * b ≤ (2 ^ 64 - 1) * (2 ^ 64 - 1) =
      mul-le-mul {n₂ = 2 ^ 64 - 1} {m₂ = 2 ^ 64 - 1} (omega arith) (omega arith) in
    mod-eq_of_lt (omega arith)

-- The operator `/`, which panics on the divisor 0.
abbrev pub div : ℕ → ℕ → Exec ℕ
div n d = if d == 0 then panic division_by_zero else ok (n / d)
