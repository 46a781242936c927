-- ===== src/StabilityCore/Tests.antt =====
-- The unit tests of stability_core.rs, as functions of the public keys that they draw at random. A
-- failed assertion is a panic.
mod Passing
use stabilitypool.Base.{
  ℕ, ◌-◌, ◌/◌, Bool, true, false, not, ◌&&◌, ◌*◌, List, [], ◌∷◌, map, length, Exec, ok, ◌>>=◌, ◌>>◌,
  assert, expect, assertion_failed, unwrap_of_none, ltb, leb, ◌==◌, if◌then◌else◌,
}
use stabilitypool.Base.U64
use stabilitypool.Base.U128
use stabilitypool.Base.I64
use stabilitypool.Base.Int.{◌+ℤ◌, neg_ℤ, ltb_ℤ}
use stabilitypool.BTreeMap
use stabilitypool.BTreeMap.{BTreeMap}
use stabilitypool.Floats.{Floats}
use stabilitypool.StabilityCore.Ratio.{
  CollateralRatio, default_ratio, position_for_provider_collateral,
}
use stabilitypool.StabilityCore.Feerate.{
  EpochFeerate, from_ppm_feerate, approx_ppm_feerate, seeker_fee, seeker_position, provider_fee,
}
use stabilitypool.StabilityCore.Pnl.{seeker_payout, provider_payout}
use stabilitypool.StabilityCore.Protection.{does_price_change_break_protection_threshold}
use stabilitypool.StabilityCore.Payouts.{calculate_payouts}
use stabilitypool.StabilityCore.Desired.{SeekerLock, ProviderBid}
use stabilitypool.StabilityCore.Matching.{match_locks_and_bids, max_total_seeker_value}

-- HUNDRED_PERCENT_FEE
abbrev hundred_percent_fee : ℕ
hundred_percent_fee = 1_000_000

abbrev pub lock : ℕ → ℕ → SeekerLock
lock account value = record { account_id = account; value = value }

abbrev pub bid : ℕ → ℕ → ℕ → ProviderBid
bid account feerate value = record {
  min_feerate = feerate;
  max_value = value;
  account_id = account;
}

abbrev assert_eq : ℕ → ℕ → Exec (Unit {0})
assert_eq a b = assert (a == b) assertion_failed

-- `*map.get(&key).unwrap()`
abbrev at : ℕ → BTreeMap ℕ → Exec ℕ
at key m = expect (BTreeMap.get key m) unwrap_of_none

abbrev abs_diff : ℕ → ℕ → ℕ
abs_diff a b = if ltb a b then b - a else a - b

-- `assert_almost_eq!`
unfoldable assert_almost_eq : (lhs rhs fudge : ℕ) → Exec (Unit {0})
assert_almost_eq lhs rhs fudge =
    let diff = I64.wrap (I64.of_u64 rhs +ℤ neg_ℤ (I64.of_u64 lhs)) in
    assert (leb lhs rhs && not (ltb_ℤ (I64.of_u64 fudge) diff)) assertion_failed

begin_exact_pair_match : (seeker_id provider_id : ℕ) → Exec (Unit {0})
begin_exact_pair_match seeker_id provider_id = do
  (feerate, seeker_entries, provider_entries) ←
      match_locks_and_bids (lock seeker_id 10_000_000 ∷ [])
        (bid provider_id (hundred_percent_fee / 10) 11_000_000 ∷ []) default_ratio
  assert_eq feerate (from_ppm_feerate (hundred_percent_fee / 10))
  locked ← at seeker_id seeker_entries
  assert_eq locked 10_000_000
  provider_position ← at provider_id provider_entries
  assert_almost_eq (seeker_position feerate 10_000_000) provider_position 1

begin_no_seekers : (provider_id : ℕ) → Exec (Unit {0})
begin_no_seekers provider_id = do
  (feerate, seeker_entries, provider_entries) ←
      match_locks_and_bids [] (bid provider_id (hundred_percent_fee / 10) 15_000_000 ∷ [])
        default_ratio
  assert_eq feerate 0
  assert_eq (length provider_entries) 0
  assert_eq (length seeker_entries) 0

provider_with_zero_value_is_ignored : (seeker_id provider_id : ℕ) → Exec (Unit {0})
provider_with_zero_value_is_ignored seeker_id provider_id = do
  (feerate, seeker_entries, provider_entries) ←
      match_locks_and_bids (lock seeker_id 10_000_000 ∷ [])
        (bid provider_id (hundred_percent_fee / 10) 0 ∷ []) default_ratio
  assert_eq (length seeker_entries) 0
  assert_eq (length provider_entries) 0
  assert_eq feerate 0

begin_bigger_fee_than_min : (seeker_id provider_id : ℕ) → Exec (Unit {0})
begin_bigger_fee_than_min seeker_id provider_id = do
  (feerate, seeker_entries, provider_entries) ←
      match_locks_and_bids (lock seeker_id 11_000_000 ∷ [])
        (bid provider_id (hundred_percent_fee / 100) 10_000_000 ∷ []) default_ratio
  assert_eq (approx_ppm_feerate feerate) (hundred_percent_fee / 100)

begin_two_providers_one_seeker : (seeker_id first_id second_id : ℕ) → Exec (Unit {0})
begin_two_providers_one_seeker seeker_id first_id second_id = do
  (feerate, seeker_entries, provider_entries) ←
      match_locks_and_bids (lock seeker_id 10_000_000 ∷ [])
        (bid first_id (hundred_percent_fee / 10) 5_000_000
          ∷ bid second_id (hundred_percent_fee / 5) 5_000_000
          ∷ [])
        default_ratio
  assert_eq (length provider_entries) 2
  assert_eq (length seeker_entries) 1
  assert_eq (approx_ppm_feerate feerate) (hundred_percent_fee / 5)

partial_fill_one_seeker : (first_id second_id provider_id : ℕ) → Exec (Unit {0})
partial_fill_one_seeker first_id second_id provider_id = do
  (feerate, seeker_entries, provider_entries) ←
      match_locks_and_bids (lock first_id 10_000_000 ∷ lock second_id 30_000_000 ∷ [])
        (bid provider_id (hundred_percent_fee / 10) 20_000_000 ∷ []) default_ratio
  assert_eq (length seeker_entries) 2
  first ← at first_id seeker_entries
  assert_eq first 10_000_000
  second ← at second_id seeker_entries
  assert_eq second 12_000_000
  assert_eq (length provider_entries) 1
  assert_eq (approx_ppm_feerate feerate) (hundred_percent_fee / 10)

end_just_fee : (seeker_id provider_id : ℕ) → Exec (Unit {0})
unfolding assert_almost_eq
end_just_fee seeker_id provider_id = do
  (feerate, seeker_entries, provider_entries) ←
      match_locks_and_bids (lock seeker_id 1_000 ∷ [])
        (bid provider_id (hundred_percent_fee / 10) 1_000 ∷ []) default_ratio
  actual_seeker_lock ← at seeker_id seeker_entries
  assert_eq actual_seeker_lock 1_000
  actual_provider_lock ← at provider_id provider_entries
  fee ← provider_fee feerate actual_provider_lock default_ratio
  assert (leb (abs_diff actual_seeker_lock (U64.add actual_provider_lock fee)) 1) assertion_failed
  (seeker_payouts, provider_payouts) ←
      calculate_payouts feerate seeker_entries provider_entries 1_000_000 1_000_000
  seeker_paid ← at seeker_id seeker_payouts
  provider_paid ← at provider_id provider_payouts
  assert_almost_eq seeker_paid 910 1
  assert_eq
      (U64.sub (U64.sub (U64.add actual_provider_lock actual_seeker_lock) seeker_paid)
        provider_paid)
      0

end_providers_liqd : (seeker_id provider_id : ℕ) → Exec (Unit {0})
end_providers_liqd seeker_id provider_id = do
  (seeker_payouts, provider_payouts) ←
      calculate_payouts (from_ppm_feerate 0) ((seeker_id, 1_000_000) ∷ [])
        ((provider_id, 1_000_000) ∷ []) 2_000_000 1_000_000
  seeker_paid ← at seeker_id seeker_payouts
  provider_paid ← at provider_id provider_payouts
  assert_eq seeker_paid (U64.add 1_000_000 1_000_000)
  assert_eq provider_paid 0

module _ (f64 : Floats) (feerate : EpochFeerate) (start_price end_price : ℕ)
    (pool_ratio : CollateralRatio) (fudge_msat : ℕ) where
  -- The price of the position is kept up to a hundredth of a cent, unless the threshold is broken.
  check_value : (position payout : ℕ) → Exec (Unit {0})
  check_value position payout =
      if not (does_price_change_break_protection_threshold f64 pool_ratio start_price end_price)
      then assert
          (leb
            (abs_diff (U128.mul position start_price / 10_000_000)
              (U128.mul payout end_price / 10_000_000))
            1)
          assertion_failed
      else ok tt

  -- The loop over the payouts of the seekers.
  check_seekers : BTreeMap ℕ → List (ℕ × ℕ) → Exec (Unit {0})
  unfolding check_value
  check_seekers seeker_entries [] = ok tt
  check_seekers seeker_entries ((seeker, payout) ∷ payouts) = do
    locked ← at seeker seeker_entries
    check_value (seeker_position feerate locked) payout
    expected_payout ← seeker_payout locked feerate start_price end_price pool_ratio
    assert (leb (abs_diff payout expected_payout) fudge_msat) assertion_failed
    check_seekers seeker_entries payouts

  -- The loop over the payouts of the providers.
  check_providers : BTreeMap ℕ → List (ℕ × ℕ) → Exec (Unit {0})
  check_providers provider_entries [] = ok tt
  check_providers provider_entries ((provider, payout) ∷ payouts) = do
    locked ← at provider provider_entries
    expected_payout ← provider_payout locked feerate start_price end_price pool_ratio
    assert (leb (abs_diff payout expected_payout) fudge_msat) assertion_failed
    check_providers provider_entries payouts

-- The amounts that are locked, against what was desired and against the fees.
check_entered :
    (feerate : EpochFeerate) (total_seeker_desired total_provider_desired : ℕ)
    (total_seeker_entered total_provider_entered : ℕ) (pool_ratio : CollateralRatio)
    (fudge_msat : ℕ)
    → Exec (Unit {0})
check_entered feerate total_seeker_desired total_provider_desired total_seeker_entered
      total_provider_entered pool_ratio fudge_msat =
    do
      desired_position ← position_for_provider_collateral pool_ratio total_provider_desired
      if leb total_seeker_desired desired_position
            && ltb total_seeker_desired max_total_seeker_value
          then assert_eq total_seeker_entered total_seeker_desired
          else ok tt
      total_provider_position ← position_for_provider_collateral pool_ratio total_provider_entered
      fee ← provider_fee feerate total_provider_entered pool_ratio
      assert (leb (abs_diff total_seeker_entered (U64.add total_provider_position fee)) fudge_msat)
          assertion_failed
      assert
          (leb
            (abs_diff total_seeker_entered
              (U64.add total_provider_position (seeker_fee feerate total_seeker_entered)))
            fudge_msat)
          assertion_failed

test_guarantees :
    (f64 : Floats) (seekers : List SeekerLock) (providers : List ProviderBid)
    (start_price end_price : ℕ) (pool_ratio : CollateralRatio) (fudge_msat : ℕ)
    → Exec (Unit {0})
unfolding check_entered check_seekers check_providers
test_guarantees f64 seekers providers start_price end_price pool_ratio fudge_msat = do
  let start_price_msat = U64.mul start_price 100_000_000_000
  let end_price_msat = U64.mul end_price 100_000_000_000
  let total_seeker_desired = U64.sum_from 0 (map (λ (l : SeekerLock). l.value) seekers)
  let total_provider_desired = U64.sum_from 0 (map (λ (b : ProviderBid). b.max_value) providers)
  (feerate, seeker_entries, provider_entries) ← match_locks_and_bids seekers providers pool_ratio
  let total_seeker_entered = U64.sum_from 0 (BTreeMap.values seeker_entries)
  let total_provider_entered = U64.sum_from 0 (BTreeMap.values provider_entries)
  check_entered feerate total_seeker_desired total_provider_desired total_seeker_entered
      total_provider_entered pool_ratio fudge_msat
  (seeker_payouts, provider_payouts) ←
      calculate_payouts feerate seeker_entries provider_entries start_price_msat end_price_msat
  assert_eq
      (U64.add (U64.sum_from 0 (BTreeMap.values provider_payouts))
        (U64.sum_from 0 (BTreeMap.values seeker_payouts)))
      (U64.add total_seeker_entered total_provider_entered)
  assert_eq (length seeker_entries) (length seeker_payouts)
  assert_eq (length provider_entries) (length provider_payouts)
  check_seekers f64 feerate start_price end_price pool_ratio fudge_msat seeker_entries
      seeker_payouts
  check_providers f64 feerate start_price end_price pool_ratio fudge_msat provider_entries
      provider_payouts
