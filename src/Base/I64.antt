-- ===== src/Base/I64.antt =====
-- `i64` and `i128` as integers, with the casts between them and `u64`.
use stabilitypool.Base.Tests.{ltb, if◌then◌else◌}
use stabilitypool.Base.Int.{ℤ, pos, negsuc, ◌+ℤ◌, ltb_ℤ, pos_part, neg_part}
use Prim.Native.Nat.{ℕ, ◌-◌, ◌%◌, ◌^◌, ◌<◌, ◌≤◌}
use mathlib.Core.Path.{◌≡◌}
use native.Mathlib.Omega.{arith}

abbrev pub max_value : ℤ
max_value = pos (2 ^ 63 - 1)

abbrev pub min_value : ℤ
min_value = negsuc (2 ^ 63 - 1)

-- `as i64` on a `u64`
unfoldable pub of_u64 : ℕ → ℤ
of_u64 n = if ltb n (2 ^ 63) then pos n else negsuc (2 ^ 64 - 1 - n)

-- `as u64` on an `i64`
unfoldable pub to_u64 : ℤ → ℕ
to_u64 (pos n) = n % 2 ^ 64
to_u64 (negsuc n) = 2 ^ 64 - 1 - n % 2 ^ 64

-- An integer cut to 64 bits, for the operators that wrap.
unfoldable pub wrap : ℤ → ℤ
wrap z = of_u64 (to_u64 z)

-- An integer cut to 128 bits.
unfoldable pub wrap_i128 : ℤ → ℤ
wrap_i128 (pos n) =
    if ltb (n % 2 ^ 128) (2 ^ 127) then pos (n % 2 ^ 128) else negsuc (2 ^ 128 - 1 - n % 2 ^ 128)
wrap_i128 (negsuc n) =
    if ltb (n % 2 ^ 128) (2 ^ 127) then negsuc (n % 2 ^ 128) else pos (2 ^ 128 - 1 - n % 2 ^ 128)

-- The nearest `i64`.
unfoldable pub clamp : ℤ → ℤ
clamp z = if ltb_ℤ max_value z then max_value else if ltb_ℤ z min_value then min_value else z

unfoldable pub saturating_add : ℤ → ℤ → ℤ
unfolding clamp
saturating_add a b = clamp (a +ℤ b)

pub of_u64_lem : (n : ℕ) → n < 2 ^ 63 → of_u64 n ≡ pos n
unfolding of_u64
of_u64_lem n h = ground arith

-- Every `i64` comes back from its cast to `u64`.
pub of_u64-to_u64 : (z : ℤ) → pos_part z < 2 ^ 63 → neg_part z ≤ 2 ^ 63 → of_u64 (to_u64 z) ≡ z
unfolding of_u64 to_u64
of_u64-to_u64 (pos n) h k = ground arith
of_u64-to_u64 (negsuc n) h k = ground arith

pub to_u64-lt : (z : ℤ) → to_u64 z < 2 ^ 64
unfolding to_u64
to_u64-lt (pos n) = omega arith
to_u64-lt (negsuc n) = omega arith

pub wrap_lem : (z : ℤ) → pos_part z < 2 ^ 63 → neg_part z ≤ 2 ^ 63 → wrap z ≡ z
unfolding wrap of_u64 to_u64
wrap_lem (pos n) h k = ground arith
wrap_lem (negsuc n) h k = ground arith

pub wrap_i128_lem : (z : ℤ) → pos_part z < 2 ^ 127 → neg_part z ≤ 2 ^ 127 → wrap_i128 z ≡ z
unfolding wrap_i128
wrap_i128_lem (pos n) h k = ground arith
wrap_i128_lem (negsuc n) h k = ground arith
