-- ===== src/StabilityCore/Ratio.antt =====
-- stability_core.rs, `CollateralRatio` and `ceiling_div`. The functions of `CollateralRatio` that
-- compute with `f64` are left out.
pub mod Bounds
use stabilitypool.Base.{
  ℕ, ◌*◌, ◌/◌, ◌≤◌, ◌<◌, ◌≡◌, Option, none, some, Exec, ok, panic, expect,
  collateral_ridiculously_high, ◌>>=◌, ltb, ◌==◌, if◌then◌else◌,
}
use stabilitypool.Base.U64
use stabilitypool.Base.U128

-- Both parts are `u8`.
pub record CollateralRatio : Type 0 where
  pub seeker : ℕ
  pub provider : ℕ

-- `CollateralRatio::default`
abbrev pub default_ratio : CollateralRatio
default_ratio = record { seeker = 1; provider = 1 }

unfoldable pub ceiling_div : ℕ → ℕ → Option ℕ
unfolding U128.add U128.sub
ceiling_div numerator denominator =
    elim (U128.checked_div (U128.sub (U128.add numerator denominator) 1) denominator) [
      | none ↦ none
      | some q ↦ U64.try_from q
    ]

unfoldable pub collateral_for_provider_position : CollateralRatio → ℕ → Exec ℕ
unfolding ceiling_div
collateral_for_provider_position r position =
    expect (ceiling_div (U128.mul position r.provider) r.seeker) collateral_ridiculously_high

unfoldable pub position_for_provider_collateral : CollateralRatio → ℕ → Exec ℕ
position_for_provider_collateral r collateral = do
  quotient ← U128.div (U128.mul collateral r.seeker) r.provider
  ok (U64.of_u128 quotient)
