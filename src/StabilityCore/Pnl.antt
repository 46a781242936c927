-- ===== src/StabilityCore/Pnl.antt =====
-- stability_core.rs, `pnl_for_price` and the payout of one account if it stood alone, which the
-- clients show as the value of a position.
pub mod Bounds
use stabilitypool.Base.{ℕ, suc, ◌+◌, ◌-◌, ◌*◌, min, Bool, Exec, ok, ◌>>=◌, ltb, ◌==◌, if◌then◌else◌}
use stabilitypool.Base.Int.{ℤ, pos, negsuc, neg_ℤ, ◌+ℤ◌, ◌*ℤ◌, sub_ℕ, tdiv, ltb_ℤ}
use stabilitypool.Base.I64
use stabilitypool.Base.U64
use stabilitypool.StabilityCore.Ratio.{
  CollateralRatio, position_for_provider_collateral, collateral_for_provider_position,
}
use stabilitypool.StabilityCore.Feerate.{EpochFeerate, seeker_position, provider_fee}

-- The arithmetic is that of `i128`.
unfoldable pub pnl_for_price : ℤ → ℕ → ℕ → ℤ
pnl_for_price position start_price end_price =
    if end_price == 0
    then (if ltb_ℤ position (pos 0) then I64.max_value else I64.min_value)
    else I64.clamp
        (tdiv (I64.wrap_i128 (position *ℤ I64.wrap_i128 (sub_ℕ end_price start_price))) end_price)

unfoldable pub provider_price_payout : ℕ → ℕ → ℕ → CollateralRatio → Exec ℕ
provider_price_payout locked_value start_price end_price ratio = do
  position ← position_for_provider_collateral ratio locked_value
  let pnl = pnl_for_price (I64.of_u64 position) start_price end_price
  let payout = I64.wrap (I64.of_u64 locked_value +ℤ pnl)
  ok (if ltb_ℤ payout (pos 0) then 0 else I64.to_u64 payout)

unfoldable pub provider_payout : ℕ → EpochFeerate → ℕ → ℕ → CollateralRatio → Exec ℕ
provider_payout locked_value feerate start_price end_price ratio = do
  fee ← provider_fee feerate locked_value ratio
  price_payout ← provider_price_payout locked_value start_price end_price ratio
  ok (U64.add fee price_payout)

unfoldable pub seeker_payout : ℕ → EpochFeerate → ℕ → ℕ → CollateralRatio → Exec ℕ
seeker_payout locked_value feerate start_price end_price ratio = do
  let position = seeker_position feerate locked_value
  let pnl = pnl_for_price (I64.wrap (neg_ℤ (I64.of_u64 position))) start_price end_price
  collateral ← collateral_for_provider_position ratio position
  let max_payout = U64.add position collateral
  ok (min (I64.to_u64 (I64.saturating_add (I64.of_u64 position) pnl)) max_payout)
