-- ===== src/StabilityCore/Tests/Passing.antt =====
-- The unit tests of stability_core.rs pass.
use stabilitypool.Base.{◌≡◌, refl, [], ◌∷◌, ok}
use stabilitypool.Floats.Fractions.{fractions}
use stabilitypool.StabilityCore.Protection.{
  seeker_protection_threshold, does_price_change_break_protection_threshold,
}
use stabilitypool.Base.U64
use stabilitypool.Base.U128
use stabilitypool.Base.I64
use stabilitypool.Base.Int.{◌+ℤ◌, ◌*ℤ◌, tdiv}
use stabilitypool.BTreeMap
use stabilitypool.StabilityCore.Ratio.{
  default_ratio, ceiling_div, collateral_for_provider_position, position_for_provider_collateral,
}
use stabilitypool.StabilityCore.Feerate.{
  from_ppm_feerate, approx_ppm_feerate, seeker_fee, seeker_position, provider_fee,
}
use stabilitypool.StabilityCore.Pnl.{
  pnl_for_price, seeker_payout, provider_payout, provider_price_payout,
}
use stabilitypool.StabilityCore.Payouts.{
  calculate_payouts, share_out, pay_each, bump_each, seeker_total,
}
use stabilitypool.StabilityCore.Matching.{
  match_locks_and_bids, retain_locks, fill_seekers, find_feerate, begin_round, judge_excess,
  draining_feerate_of, should_use_next_provider, use_provider, break_draining, break_at,
  take_excess, sort_bids, insert_bid, bid_lt,
}
use stabilitypool.StabilityCore.Tests.{
  assert_almost_eq, begin_exact_pair_match, begin_no_seekers, provider_with_zero_value_is_ignored,
  begin_bigger_fee_than_min, begin_two_providers_one_seeker, partial_fill_one_seeker, end_just_fee,
  end_providers_liqd, test_guarantees, lock, bid,
}

begin_exact_pair_match_passes : begin_exact_pair_match 1 2 ≡ ok tt
unfolding begin_exact_pair_match match_locks_and_bids retain_locks fill_seekers find_feerate
    begin_round judge_excess draining_feerate_of should_use_next_provider use_provider
    break_draining break_at take_excess sort_bids insert_bid bid_lt collateral_for_provider_position
    position_for_provider_collateral seeker_position seeker_fee provider_fee from_ppm_feerate
    approx_ppm_feerate ceiling_div U64.add U64.sub U64.mul U64.of_u128 U128.add U128.sub U128.mul
    BTreeMap.insert BTreeMap.get assert_almost_eq I64.of_u64 I64.to_u64 I64.wrap ◌+ℤ◌
begin_exact_pair_match_passes = refl

begin_no_seekers_passes : begin_no_seekers 1 ≡ ok tt
unfolding begin_no_seekers match_locks_and_bids retain_locks fill_seekers find_feerate begin_round
    judge_excess draining_feerate_of should_use_next_provider use_provider break_draining break_at
    take_excess sort_bids insert_bid bid_lt collateral_for_provider_position
    position_for_provider_collateral seeker_position seeker_fee provider_fee from_ppm_feerate
    approx_ppm_feerate ceiling_div U64.add U64.sub U64.mul U64.of_u128 U128.add U128.sub U128.mul
    BTreeMap.insert BTreeMap.get
begin_no_seekers_passes = refl

provider_with_zero_value_is_ignored_passes : provider_with_zero_value_is_ignored 1 2 ≡ ok tt
unfolding provider_with_zero_value_is_ignored match_locks_and_bids retain_locks fill_seekers
    find_feerate begin_round judge_excess draining_feerate_of should_use_next_provider use_provider
    break_draining break_at take_excess sort_bids insert_bid bid_lt collateral_for_provider_position
    position_for_provider_collateral seeker_position seeker_fee provider_fee from_ppm_feerate
    approx_ppm_feerate ceiling_div U64.add U64.sub U64.mul U64.of_u128 U128.add U128.sub U128.mul
    BTreeMap.insert BTreeMap.get
provider_with_zero_value_is_ignored_passes = refl

begin_bigger_fee_than_min_passes : begin_bigger_fee_than_min 1 2 ≡ ok tt
unfolding begin_bigger_fee_than_min match_locks_and_bids retain_locks fill_seekers find_feerate
    begin_round judge_excess draining_feerate_of should_use_next_provider use_provider
    break_draining break_at take_excess sort_bids insert_bid bid_lt collateral_for_provider_position
    position_for_provider_collateral seeker_position seeker_fee provider_fee from_ppm_feerate
    approx_ppm_feerate ceiling_div U64.add U64.sub U64.mul U64.of_u128 U128.add U128.sub U128.mul
    BTreeMap.insert BTreeMap.get
begin_bigger_fee_than_min_passes = refl

begin_two_providers_one_seeker_passes : begin_two_providers_one_seeker 1 2 3 ≡ ok tt
unfolding begin_two_providers_one_seeker match_locks_and_bids retain_locks fill_seekers find_feerate
    begin_round judge_excess draining_feerate_of should_use_next_provider use_provider
    break_draining break_at take_excess sort_bids insert_bid bid_lt collateral_for_provider_position
    position_for_provider_collateral seeker_position seeker_fee provider_fee from_ppm_feerate
    approx_ppm_feerate ceiling_div U64.add U64.sub U64.mul U64.of_u128 U128.add U128.sub U128.mul
    BTreeMap.insert BTreeMap.get
begin_two_providers_one_seeker_passes = refl

partial_fill_one_seeker_passes : partial_fill_one_seeker 1 2 3 ≡ ok tt
unfolding partial_fill_one_seeker match_locks_and_bids retain_locks fill_seekers find_feerate
    begin_round judge_excess draining_feerate_of should_use_next_provider use_provider
    break_draining break_at take_excess sort_bids insert_bid bid_lt collateral_for_provider_position
    position_for_provider_collateral seeker_position seeker_fee provider_fee from_ppm_feerate
    approx_ppm_feerate ceiling_div U64.add U64.sub U64.mul U64.of_u128 U128.add U128.sub U128.mul
    BTreeMap.insert BTreeMap.get
partial_fill_one_seeker_passes = refl

end_just_fee_passes : end_just_fee 1 2 ≡ ok tt
unfolding end_just_fee match_locks_and_bids retain_locks fill_seekers find_feerate begin_round
    judge_excess draining_feerate_of should_use_next_provider use_provider break_draining break_at
    take_excess sort_bids insert_bid bid_lt collateral_for_provider_position
    position_for_provider_collateral seeker_position seeker_fee provider_fee from_ppm_feerate
    approx_ppm_feerate ceiling_div U64.add U64.sub U64.mul U64.of_u128 U128.add U128.sub U128.mul
    BTreeMap.insert BTreeMap.get calculate_payouts share_out pay_each bump_each seeker_total
    pnl_for_price U64.sum_from I64.of_u64 I64.to_u64 I64.wrap I64.wrap_i128 I64.clamp
    I64.saturating_add ◌+ℤ◌ ◌*ℤ◌ tdiv assert_almost_eq
end_just_fee_passes = refl

end_providers_liqd_passes : end_providers_liqd 1 2 ≡ ok tt
unfolding end_providers_liqd from_ppm_feerate seeker_fee U64.add U64.sub U64.mul U64.of_u128
    U128.add U128.sub U128.mul BTreeMap.insert BTreeMap.get calculate_payouts share_out pay_each
    bump_each seeker_total pnl_for_price U64.sum_from I64.of_u64 I64.to_u64 I64.wrap I64.wrap_i128
    I64.clamp I64.saturating_add ◌+ℤ◌ ◌*ℤ◌ tdiv
end_providers_liqd_passes = refl

-- One run of the property test, with a fall of the price that breaks the threshold and with one that
-- does not.
test_guarantees_passes :
    test_guarantees fractions
      (lock 1 10_000_000 ∷ lock 2 30_000_000 ∷ [])
      (bid 3 100_000 20_000_000 ∷ bid 4 50_000 5_000_000 ∷ [])
      20_000
      18_000
      default_ratio
      2
    ≡ ok tt
unfolding test_guarantees match_locks_and_bids retain_locks fill_seekers find_feerate begin_round
    judge_excess draining_feerate_of should_use_next_provider use_provider break_draining break_at
    take_excess sort_bids insert_bid bid_lt collateral_for_provider_position
    position_for_provider_collateral seeker_position seeker_fee provider_fee from_ppm_feerate
    ceiling_div U64.add U64.sub U64.mul U64.of_u128 U128.add U128.sub U128.mul BTreeMap.insert
    BTreeMap.get calculate_payouts share_out pay_each bump_each seeker_total pnl_for_price
    U64.sum_from I64.of_u64 I64.to_u64 I64.wrap I64.wrap_i128 I64.clamp I64.saturating_add ◌+ℤ◌ ◌*ℤ◌
    tdiv seeker_payout provider_payout provider_price_payout
    does_price_change_break_protection_threshold seeker_protection_threshold
test_guarantees_passes = refl

test_guarantees_passes_broken :
    test_guarantees fractions
      (lock 1 10_000_000 ∷ [])
      (bid 3 100_000 20_000_000 ∷ [])
      20_000
      5_000
      default_ratio
      2
    ≡ ok tt
unfolding test_guarantees match_locks_and_bids retain_locks fill_seekers find_feerate begin_round
    judge_excess draining_feerate_of should_use_next_provider use_provider break_draining break_at
    take_excess sort_bids insert_bid bid_lt collateral_for_provider_position
    position_for_provider_collateral seeker_position seeker_fee provider_fee from_ppm_feerate
    ceiling_div U64.add U64.sub U64.mul U64.of_u128 U128.add U128.sub U128.mul BTreeMap.insert
    BTreeMap.get calculate_payouts share_out pay_each bump_each seeker_total pnl_for_price
    U64.sum_from I64.of_u64 I64.to_u64 I64.wrap I64.wrap_i128 I64.clamp I64.saturating_add ◌+ℤ◌ ◌*ℤ◌
    tdiv seeker_payout provider_payout provider_price_payout
    does_price_change_break_protection_threshold seeker_protection_threshold
test_guarantees_passes_broken = refl
