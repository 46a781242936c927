-- ===== src/StabilityCore/Payouts/Value.antt =====
-- What the seekers of an epoch get together, in terms of the two prices.
use stabilitypool.Base.{ℕ, zero, suc, ◌+◌, ◌-◌, ◌*◌, ◌^◌, ◌<◌, min, ◌≡◌, ◌∙◌, ok, arith}
use stabilitypool.Base.Int.{◌+ℤ◌}
use stabilitypool.Base.I64
use stabilitypool.Base.U64
use stabilitypool.BTreeMap.{BTreeMap}
use stabilitypool.BTreeMap.Totals.{total}
use stabilitypool.StabilityCore.Feerate.{EpochFeerate, seeker_fee, seeker_position}
use stabilitypool.StabilityCore.Feerate.Fees.{seeker_position_lem, seeker_position_bounds}
use stabilitypool.StabilityCore.Pnl.{pnl_for_price}
use stabilitypool.StabilityCore.Pnl.Bounds.{short_payout, short_payout_lem, worth, worth_value}
use stabilitypool.StabilityCore.Payouts.{seeker_total, calculate_payouts}
use stabilitypool.StabilityCore.Payouts.Conservation.{
  IsEpoch, seekers_due, seekers_due-le, calculate_payouts_lem,
}

-- At a price of 0 a short position that is not empty is worth more than any pool.
short_payout-zero : (p start : ℕ) → 0 < p → p < 2 ^ 63 → short_payout p start 0 ≡ 2 ^ 63 - 1
unfolding pnl_for_price I64.of_u64 I64.to_u64 I64.wrap I64.saturating_add I64.clamp ◌+ℤ◌
short_payout-zero zero start h k = absurd (omega arith)
short_payout-zero (suc p) start h k = ground arith

module _ {f : EpochFeerate} {ss ps : BTreeMap ℕ} (epoch : IsEpoch f ss ps) (start end : ℕ) where
  -- What is left in the pool without the fee.
  abbrev pub pool_without_fee : ℕ
  pool_without_fee = total ss + total ps - seeker_fee f (total ss)

  seekers_due_lem :
      seekers_due epoch start end
      ≡ min (short_payout (seeker_position f (total ss)) start end) pool_without_fee
  unfolding seeker_total seeker_position
  seekers_due_lem =
      let left : U64.sub (total ps + total ss) (seeker_fee f (total ss)) ≡ pool_without_fee =
        U64.sub_lem (total ps + total ss) (seeker_fee f (total ss)) (omega (arith, epoch.pool_lt))
          (omega (arith, seekers_due-le epoch start end))
        ∙ omega arith in
      rw left

  position_pos : 0 < seeker_position f (total ss)
  position_pos = grind (
    arith,
    seeker_position_bounds f (total ss) epoch.feerate_lt (omega (arith, epoch.pool_lt)),
    epoch.seekers_pos,
  )

  -- For an epoch with seekers and providers, entries in the order of their accounts, a `u64`
  -- feerate and less than 2 ^ 63 locked and `u64` prices, the end price not 0, the seekers together
  -- get the worth of their position at the end price, whose value in the asset is that of the
  -- position at the start price up to one unit, or all of the pool but the fee if that is less.
  pub calculate_payouts_keeps_value :
      start < 2 ^ 64
      → 0 < end
      → end < 2 ^ 64
      → let position = seeker_position f (total ss) in
        (sp pp : BTreeMap ℕ) × (w : ℕ) × (calculate_payouts f ss ps start end ≡ ok (sp, pp))
        × (total sp ≡ min w (total ss + total ps - seeker_fee f (total ss)))
        × (w * end < position * start + end)
        × (position * start < w * end + end)
  calculate_payouts_keeps_value hs he h =
      let position = seeker_position f (total ss) in
      let (sp, pp, done, all, _) = calculate_payouts_lem epoch start end in
      let position-lt : position < 2 ^ 63 = omega (
        arith,
        seeker_position_lem f (total ss) epoch.feerate_lt (omega (arith, epoch.pool_lt)),
        epoch.pool_lt,
      ) in
      let (low, high) = worth_value position start end he in
      (
        sp,
        pp,
        worth position start end,
        done,
        omega (
          arith,
          all.0,
          seekers_due_lem,
          short_payout_lem position start end position-lt hs he h,
          epoch.pool_lt,
        ),
        low,
        high,
      )

  -- In an epoch with seekers and providers, entries in the order of their accounts, a `u64` feerate
  -- and less than 2 ^ 63 locked, if the price falls to 0 the seekers get all of the pool but the
  -- fee, and the providers the fee.
  pub calculate_payouts_worthless :
      end ≡ 0
      → (sp pp : BTreeMap ℕ) × (calculate_payouts f ss ps start end ≡ ok (sp, pp))
        × (total sp ≡ total ss + total ps - seeker_fee f (total ss))
        × (total pp ≡ seeker_fee f (total ss))
  calculate_payouts_worthless e =
      let position = seeker_position f (total ss) in
      let (sp, pp, done, all, all') = calculate_payouts_lem epoch start end in
      let position-lt : position < 2 ^ 63 = omega (
        arith,
        seeker_position_lem f (total ss) epoch.feerate_lt (omega (arith, epoch.pool_lt)),
        epoch.pool_lt,
      ) in
      let most : short_payout position start end ≡ 2 ^ 63 - 1 =
        rw e (short_payout-zero position start position_pos position-lt) in
      let due : seekers_due epoch start end ≡ pool_without_fee =
        omega (arith, seekers_due_lem, most, epoch.pool_lt) in
      (
        sp,
        pp,
        done,
        omega (arith, all.0, due),
        omega (arith, all'.0, due, seekers_due-le epoch start end),
      )
