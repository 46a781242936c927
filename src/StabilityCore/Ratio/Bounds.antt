-- ===== src/StabilityCore/Ratio/Bounds.antt =====
-- The two conversions of `CollateralRatio` in plain arithmetic, and how they answer one another.
use native.Mathlib.Nat.{mul-le-mul, le-div_iff_mul-le, div-lt_iff_lt-mul}
use stabilitypool.Base.{
  ℕ, ◌+◌, ◌-◌, ◌*◌, ◌/◌, ◌^◌, ◌≤◌, ◌<◌, ◌≡◌, ◌↔◌, none, some, ok, arith, ltb, if◌then◌else◌,
}
use stabilitypool.Base.U64
use stabilitypool.Base.U128
use stabilitypool.StabilityCore.Ratio.{
  CollateralRatio, ceiling_div, collateral_for_provider_position, position_for_provider_collateral,
}

-- A ratio with two parts that are not 0 and fit a `u8`.
pub record IsRatio (r : CollateralRatio) : Type 0 where
  pub seeker_pos : 0 < r.seeker
  pub seeker_lt : r.seeker < 256
  pub provider_pos : 0 < r.provider
  pub provider_lt : r.provider < 256

-- The quotient rounded up.
abbrev pub ceil : ℕ → ℕ → ℕ
ceil n d = (n + d - 1) / d

pub ceil-le_iff : (n d c : ℕ) → 0 < d → (ceil n d ≤ c) ↔ (n ≤ c * d)
ceil-le_iff n d c h = (
  λ le. let up : n + d - 1 < (c + 1) * d = (div-lt_iff_lt-mul h).0 (omega arith) in grind arith,
  λ le.
      let up : n + d - 1 < (c + 1) * d = grind arith in
      let down : ceil n d < c + 1 = (div-lt_iff_lt-mul h).1 up in omega arith,
)

pub ceiling_div_lem :
    (n d : ℕ)
    → 0 < d
    → n + d < 2 ^ 128
    → ceiling_div n d ≡ (if ltb (ceil n d) (2 ^ 64) then some (ceil n d) else none)
unfolding ceiling_div U128.add U128.sub
ceiling_div_lem n d h k = ground arith

-- Without truncation the two conversions are a ceiling and a floor.
module _ {r : CollateralRatio} (valid : IsRatio r) where
  pub collateral_lem :
      (p : ℕ)
      → p < 2 ^ 64
      → ceil (p * r.provider) r.seeker < 2 ^ 64
      → collateral_for_provider_position r p ≡ ok (ceil (p * r.provider) r.seeker)
  unfolding collateral_for_provider_position
  collateral_lem p h fits =
      let small : p * r.provider ≤ 2 ^ 64 * 256 =
        mul-le-mul {n₂ = 2 ^ 64} {m₂ = 256} (omega arith) (omega (arith, valid.provider_lt)) in
      rw (U128.mul_lem p r.provider h (omega (arith, valid.provider_lt))) (
        rw
          (ceiling_div_lem (p * r.provider) r.seeker valid.seeker_pos
            (omega (arith, valid.seeker_lt)))
          (ground arith))

  pub position_lem :
      (c : ℕ)
      → c < 2 ^ 64
      → c * r.seeker / r.provider < 2 ^ 64
      → position_for_provider_collateral r c ≡ ok (c * r.seeker / r.provider)
  unfolding position_for_provider_collateral
  position_lem c h fits =
      rw (U128.mul_lem c r.seeker h (omega (arith, valid.seeker_lt)))
        (ground (arith, valid.provider_pos, U64.of_u128_lem (c * r.seeker / r.provider) fits))

  -- The position is covered exactly by the collateral for it.
  pub ceil-le_iff_le-position :
      (p c : ℕ) → (ceil (p * r.provider) r.seeker ≤ c) ↔ (p ≤ c * r.seeker / r.provider)
  ceil-le_iff_le-position p c = (
    λ h.
        (le-div_iff_mul-le valid.provider_pos).1
          ((ceil-le_iff (p * r.provider) r.seeker c valid.seeker_pos).0 h),
    λ h.
        (ceil-le_iff (p * r.provider) r.seeker c valid.seeker_pos).1
          ((le-div_iff_mul-le valid.provider_pos).0 h),
  )

  -- For a ratio of two `u8` that are not 0, and where neither result leaves `u64`, collateral `c` reaches what a position `p` needs exactly if
  -- the position that `c` backs reaches `p`; both functions return.
  pub collateral-le_iff_le-position :
      (p c : ℕ)
      → p < 2 ^ 64
      → c < 2 ^ 64
      → ceil (p * r.provider) r.seeker < 2 ^ 64
      → c * r.seeker / r.provider < 2 ^ 64
      → (needed backed : ℕ) × (collateral_for_provider_position r p ≡ ok needed)
        × (position_for_provider_collateral r c ≡ ok backed)
        × ((needed ≤ c) ↔ (p ≤ backed))
  collateral-le_iff_le-position p c hp hc fp fc = (
    ceil (p * r.provider) r.seeker,
    c * r.seeker / r.provider,
    collateral_lem p hp fp,
    position_lem c hc fc,
    ceil-le_iff_le-position p c,
  )
