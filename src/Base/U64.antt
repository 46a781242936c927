-- ===== src/Base/U64.antt =====
-- `u64` as native numbers below 2 ^ 64. The plain operators wrap, as they do in a release build.
use stabilitypool.Base.Tests.{ltb, leb, if◌then◌else◌}
use stabilitypool.Base.Lists.{sum}
use Prim.Native.Nat.{ℕ, ◌+◌, ◌-◌, ◌*◌, ◌%◌, ◌^◌, ◌≤◌, ◌<◌, min}
use mathlib.Core.Path.{◌≡◌}
use mathlib.Core.Option.{Option, none, some}
use mathlib.Core.List.{List, [], ◌∷◌}
use native.Mathlib.Nat.{mod-eq_of_lt}
use native.Mathlib.Omega.{arith}

abbrev pub modulus : ℕ
modulus = 2 ^ 64

-- `u64::MAX`
abbrev pub max_value : ℕ
max_value = 2 ^ 64 - 1

unfoldable pub add : ℕ → ℕ → ℕ
add a b = (a + b) % modulus

unfoldable pub sub : ℕ → ℕ → ℕ
sub a b = (a + modulus - b) % modulus

unfoldable pub mul : ℕ → ℕ → ℕ
mul a b = (a * b) % modulus

-- `as u64` on a `u128`
unfoldable pub of_u128 : ℕ → ℕ
of_u128 n = n % modulus

-- `u64::try_from(n).ok()` on a `u128`
abbrev pub try_from : ℕ → Option ℕ
try_from n = if ltb n modulus then some n else none

abbrev pub saturating_sub : ℕ → ℕ → ℕ
saturating_sub a b = a - b

abbrev pub saturating_add : ℕ → ℕ → ℕ
saturating_add a b = min (a + b) max_value

abbrev pub checked_sub : ℕ → ℕ → Option ℕ
checked_sub a b = if leb b a then some (a - b) else none

abbrev pub checked_add : ℕ → ℕ → Option ℕ
checked_add a b = if ltb (a + b) modulus then some (a + b) else none

-- `iter().sum::<u64>()`, which adds from the left
unfoldable pub sum_from : ℕ → List ℕ → ℕ
sum_from acc [] = acc
sum_from acc (x ∷ xs) = sum_from (add acc x) xs

pub add_lem : (a b : ℕ) → a + b < modulus → add a b ≡ a + b
unfolding add
add_lem a b h = omega arith

pub sub_lem : (a b : ℕ) → a < modulus → b ≤ a → sub a b ≡ a - b
unfolding sub
sub_lem a b h k = omega arith

pub mul_lem : (a b : ℕ) → a * b < modulus → mul a b ≡ a * b
unfolding mul
mul_lem a b h = mod-eq_of_lt h

pub of_u128_lem : (n : ℕ) → n < modulus → of_u128 n ≡ n
unfolding of_u128
of_u128_lem n h = mod-eq_of_lt h

pub of_u128-lt : (n : ℕ) → of_u128 n < modulus
unfolding of_u128
of_u128-lt n = omega arith

pub of_u128-le : (n : ℕ) → of_u128 n ≤ n
unfolding of_u128
of_u128-le n = omega arith

pub add-lt : (a b : ℕ) → add a b < modulus
unfolding add
add-lt a b = omega arith

pub sum_from_lem : (acc : ℕ) (xs : List ℕ) → acc + sum xs < modulus → sum_from acc xs ≡ acc + sum xs
unfolding sum_from
sum_from_lem acc [] h = omega arith
sum_from_lem acc (x ∷ xs) h =
    let step : add acc x ≡ acc + x = add_lem acc x (omega arith) in
    omega (arith, step, sum_from_lem (add acc x) xs (omega (arith, step)))

-- Subtraction undoes addition, whatever wraps.
pub sub-add : (a b : ℕ) → a < modulus → b < modulus → sub (add a b) b ≡ a
unfolding add sub
sub-add a b h k = omega arith
