-- ===== src/StabilityCore/Payouts.antt =====
-- stability_core.rs, `calculate_payouts`: what every account of an epoch gets back. Its body is
-- split at its loops: `seeker_total` is the computation of the seekers' total, `pay_each` and
-- `bump_each` are the two inner loops, and `share_out` is one round of the outer loop.
pub mod Shares
pub mod Conservation
pub mod Value
pub mod Sides
use stabilitypool.Base.{
  ℕ, suc, ◌+◌, ◌-◌, min, Bool, List, [], ◌∷◌, Exec, ok, panic, ◌>>=◌, ◌>>◌, assert, expect,
  paying_out_more_than_we_can, remaining_above_payouts, payouts_differ_from_entries, length, leb,
  ◌==◌, if◌then◌else◌,
}
use stabilitypool.Base.Int.{neg_ℤ}
use stabilitypool.Base.I64
use stabilitypool.Base.U64
use stabilitypool.Base.U128
use stabilitypool.BTreeMap
use stabilitypool.BTreeMap.{BTreeMap}
use stabilitypool.StabilityCore.Feerate.{EpochFeerate, seeker_fee}
use stabilitypool.StabilityCore.Pnl.{pnl_for_price}

unfoldable pub seeker_total : EpochFeerate → ℕ → ℕ → ℕ → ℕ → ℕ
seeker_total feerate total_seeker_locked total_pooled_amount start_price end_price =
    let total_fee = seeker_fee feerate total_seeker_locked in
    let total_seeker_position = U64.sub total_seeker_locked total_fee in
    let pnl =
      pnl_for_price (I64.wrap (neg_ℤ (I64.of_u64 total_seeker_position))) start_price end_price in
    let total_seeker_payout =
      I64.to_u64 (I64.saturating_add (I64.of_u64 total_seeker_position) pnl) in
    min total_seeker_payout (U64.sub total_pooled_amount total_fee)

unfoldable pub pay_each :
    (total_payout total_locked : ℕ)
    → BTreeMap ℕ
    → (remaining : ℕ) → BTreeMap ℕ
    → Exec (ℕ × BTreeMap ℕ)
pay_each total_payout total_locked [] remaining payouts = ok (remaining, payouts)
pay_each total_payout total_locked ((id, locked_amount) ∷ entries) remaining payouts = do
  quotient ← U128.div (U128.mul total_payout locked_amount) total_locked
  let payout = U64.of_u128 quotient
  remaining' ← expect (U64.checked_sub remaining payout) paying_out_more_than_we_can
  pay_each total_payout total_locked entries remaining' (BTreeMap.insert id payout payouts)

unfoldable pub bump_each : ℕ → BTreeMap ℕ → BTreeMap ℕ
bump_each remaining [] = []
bump_each remaining ((id, value) ∷ payouts) =
    if remaining == 0
    then (id, value) ∷ payouts
    else (id, U64.add value 1) ∷ bump_each (U64.sub remaining 1) payouts

unfoldable pub share_out : (total_payout total_locked : ℕ) → BTreeMap ℕ → Exec (BTreeMap ℕ)
share_out total_payout total_locked locked_amounts = do
  paid ← pay_each total_payout total_locked locked_amounts total_payout []
  assert (leb paid.0 (length paid.1)) remaining_above_payouts
  ok (bump_each paid.0 paid.1)

-- The seekers' payouts and the providers' payouts.
unfoldable pub calculate_payouts :
    EpochFeerate
    → (seeker_entries provider_entries : BTreeMap ℕ) → (start_price end_price : ℕ)
    → Exec (BTreeMap ℕ × BTreeMap ℕ)
calculate_payouts feerate seeker_entries provider_entries start_price end_price = do
  let total_provider_locked = U64.sum_from 0 (BTreeMap.values provider_entries)
  let total_seeker_locked = U64.sum_from 0 (BTreeMap.values seeker_entries)
  let total_pooled_amount = U64.add total_provider_locked total_seeker_locked
  let total_seeker_payout =
      seeker_total feerate total_seeker_locked total_pooled_amount start_price end_price
  let total_provider_payout = U64.sub total_pooled_amount total_seeker_payout
  provider_payouts ← share_out total_provider_payout total_provider_locked provider_entries
  seeker_payouts ← share_out total_seeker_payout total_seeker_locked seeker_entries
  let final_seeker_payout = U64.sum_from 0 (BTreeMap.values seeker_payouts)
  let final_provider_payout = U64.sum_from 0 (BTreeMap.values provider_payouts)
  assert
      (U64.add total_provider_locked total_seeker_locked
        == U64.add final_seeker_payout final_provider_payout)
      payouts_differ_from_entries
  ok (seeker_payouts, provider_payouts)
