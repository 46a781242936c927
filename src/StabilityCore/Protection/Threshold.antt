-- ===== src/StabilityCore/Protection/Threshold.antt =====
-- What it means that a price change breaks the protection threshold (stability_core.rs).
use native.Mathlib.Nat.{mul-le-mul_right, mul-lt-mul_of_pos_left, lt_of_mul-lt-mul_right}
use stabilitypool.Base.{ℕ, ◌+◌, ◌*◌, ◌^◌, ◌≤◌, ◌<◌, ◌≡◌, ap, subst, true, ok, arith}
use stabilitypool.Floats.{Floats, IsFloats}
use stabilitypool.StabilityCore.Ratio.{CollateralRatio, collateral_for_provider_position}
use stabilitypool.StabilityCore.Ratio.Bounds.{IsRatio, ceil, collateral_lem}
use stabilitypool.StabilityCore.Protection.{
  seeker_protection_threshold, does_price_change_break_protection_threshold,
}

-- A position with its collateral, of which `collateral - 1` is less than the exact quotient.
short_lem :
    (s p start end position collateral : ℕ)
    → end * (p + s) < s * start
    → 0 < position
    → 0 < s
    → collateral * s < position * p + s
    → (position + collateral) * end < position * start + end
short_lem s p start end position collateral broken pos seeker within =
    let worth = mul-lt-mul_of_pos_left broken pos in
    let backed : collateral * s + 1 ≤ position * p + s = omega arith in
    let backed' = mul-le-mul_right end backed in lt_of_mul-lt-mul_right s (grind arith)

ceil-lt : (n d : ℕ) → 0 < d → ceil n d * d < n + d
ceil-lt n d h = grind arith

module _ {f64 : Floats} (law : IsFloats f64 53) where
  threshold_lem :
      (r : CollateralRatio)
      → r.seeker < 256
      → r.provider < 256
      → seeker_protection_threshold f64 r
        ≡ f64.div (f64.of_int r.seeker) (f64.of_int (r.provider + r.seeker))
  unfolding seeker_protection_threshold
  threshold_lem r small small' =
      ap (f64.div (f64.of_int r.seeker)) (law.add-eq r.provider r.seeker (omega arith))

  -- For a ratio of `u8` parts that are not 0, `u64` prices of less than 2 ^ 53, a start price that is
  -- not 0, and a `u64` position that is not 0 and whose collateral is a `u64`: if the price change
  -- breaks the threshold, then at the end price the position, together with all the collateral that
  -- the ratio asks for it but the one unit that its rounding up may have added, is worth less than
  -- the position was at the start price.
  pub does_price_change_break_protection_threshold_lem :
      (r : CollateralRatio)
      → IsRatio r
      → (start_price end_price position : ℕ) → 0 < start_price
      → start_price < 2 ^ 53
      → end_price < 2 ^ 53
      → 0 < position
      → position < 2 ^ 64
      → ceil (position * r.provider) r.seeker < 2 ^ 64
      → does_price_change_break_protection_threshold f64 r start_price end_price ≡ true
      → (collateral : ℕ) × (collateral_for_provider_position r position ≡ ok collateral)
        × ((position + collateral) * end_price < position * start_price + end_price)
  unfolding does_price_change_break_protection_threshold
  does_price_change_break_protection_threshold_lem r valid start_price end_price position start lt
        lt' pos small fits broken =
      let compared : f64.is_less (f64.div (f64.of_int end_price) (f64.of_int start_price))
            (f64.div (f64.of_int r.seeker) (f64.of_int (r.provider + r.seeker)))
          ≡ true =
        subst
          (λ (t : f64.Float).
            f64.is_less (f64.div (f64.of_int end_price) (f64.of_int start_price)) t ≡ true)
          (threshold_lem r valid.seeker_lt valid.provider_lt) broken in
      let less =
        law.is_less-div end_price start_price r.seeker (r.provider + r.seeker) lt' lt
          (omega (arith, valid.seeker_lt)) (omega (arith, valid.seeker_lt, valid.provider_lt)) start
          (omega (arith, valid.seeker_pos)) compared in
      (
        ceil (position * r.provider) r.seeker,
        collateral_lem valid position small fits,
        short_lem r.seeker r.provider start_price end_price position
            (ceil (position * r.provider) r.seeker) less pos valid.seeker_pos
            (ceil-lt (position * r.provider) r.seeker valid.seeker_pos),
      )
