-- ===== src/StabilityCore/Protection.antt =====
-- stability_core.rs, the functions of `CollateralRatio` that compute with `f64`.
pub mod Threshold
use stabilitypool.Base.{ℕ, ◌+◌, ◌%◌, Bool}
use stabilitypool.Floats.{Floats}
use stabilitypool.StabilityCore.Ratio.{CollateralRatio}

module _ (f64 : Floats) (r : CollateralRatio) where
  unfoldable pub seeker_protection_threshold : f64.Float
  seeker_protection_threshold =
      f64.div (f64.of_int r.seeker) (f64.add (f64.of_int r.provider) (f64.of_int r.seeker))

  unfoldable pub does_price_change_break_protection_threshold : ℕ → ℕ → Bool
  unfolding seeker_protection_threshold
  does_price_change_break_protection_threshold start_price end_price =
      f64.is_less (f64.div (f64.of_int end_price) (f64.of_int start_price))
        seeker_protection_threshold

  -- The sum is one of `u8`.
  unfoldable pub provider_leverage : f64.Float
  provider_leverage = f64.div (f64.of_int r.provider) (f64.of_int ((r.seeker + r.provider) % 256))
