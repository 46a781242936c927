-- ===== src/StabilityCore/Feerate.antt =====
-- stability_core.rs, `EpochFeerate` and the fees and positions that follow from a feerate.
pub mod Fees
use stabilitypool.Base.{ℕ, ◌*◌, ◌/◌, ◌^◌, Exec, ok, ◌>>=◌}
use stabilitypool.Base.U64
use stabilitypool.Base.U128
use stabilitypool.StabilityCore.Ratio.{CollateralRatio, position_for_provider_collateral}

-- FEERATE_UNIT_DENOMINATOR
abbrev pub feerate_unit_denominator : ℕ
feerate_unit_denominator = 10 ^ 18

-- PPM_TO_INTERNAL
abbrev pub ppm_to_internal : ℕ
ppm_to_internal = 10 ^ 18 / 1_000_000

-- `struct EpochFeerate(u64)`, compared by its number
abbrev pub EpochFeerate : Type 0
EpochFeerate = ℕ

unfoldable pub approx_ppm_feerate : EpochFeerate → ℕ
approx_ppm_feerate feerate = feerate / ppm_to_internal

unfoldable pub from_ppm_feerate : ℕ → EpochFeerate
from_ppm_feerate rate = U64.mul rate ppm_to_internal

unfoldable pub seeker_fee : EpochFeerate → ℕ → ℕ
seeker_fee feerate locked_value =
    U64.of_u128 (U128.mul locked_value feerate / U128.add feerate_unit_denominator feerate)

unfoldable pub seeker_position : EpochFeerate → ℕ → ℕ
unfolding seeker_fee
seeker_position feerate locked_value = U64.sub locked_value (seeker_fee feerate locked_value)

unfoldable pub provider_fee : EpochFeerate → ℕ → CollateralRatio → Exec ℕ
provider_fee feerate locked_value ratio = do
  position ← position_for_provider_collateral ratio locked_value
  ok (U64.of_u128 (U128.mul position feerate / feerate_unit_denominator))
