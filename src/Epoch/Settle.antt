-- ===== src/Epoch/Settle.antt =====
-- epoch.rs, `settle_locked_balances`: the payouts of an epoch go back to the unlocked balances.
pub mod Entries
pub mod Funds
pub mod Sides
pub mod Conservation
use stabilitypool.Base.{
  ℕ, List, [], ◌∷◌, ◌++◌, Option, none, some, Exec, ok, ◌>>=◌, expect, previous_outcome_missing,
  previous_price_missing, price_not_settled, ltb, if◌then◌else◌,
}
use stabilitypool.Base.U64
use stabilitypool.BTreeMap
use stabilitypool.BTreeMap.{BTreeMap}
use stabilitypool.Account.{AccountBalance, LockedBalance, locked_amount, default_balance}
use stabilitypool.StabilityCore.Payouts.{calculate_payouts}
use stabilitypool.Epoch.Types.{EpochOutcome}
use stabilitypool.Db.{Store, Database}

-- The seekers' and the providers' entries.
abbrev pub Entries : Type 0
Entries = BTreeMap ℕ × BTreeMap ℕ

-- The closure over the accounts; an amount of 0 enters neither map.
unfoldable pub collect_entry : ℕ → LockedBalance → Entries → Entries
collect_entry account_id locked (seekers, providers) =
    if ltb 0 (locked_amount locked)
    then (elim locked [
      | LockedBalance.seeker a ↦ (BTreeMap.insert account_id a seekers, providers)
      | LockedBalance.provider a ↦ (seekers, BTreeMap.insert account_id a providers)
      | LockedBalance.none ↦ (seekers, providers)
    ])
    else (seekers, providers)

unfoldable pub collect_entries : List (ℕ × AccountBalance) → Entries → Entries
collect_entries [] entries = entries
collect_entries ((account_id, account) ∷ accounts) entries =
    collect_entries accounts (collect_entry account_id account.locked entries)

abbrev pub or_default : Option AccountBalance → AccountBalance
or_default none = default_balance
or_default (some a) = a

module _ (st : Store) where
  -- The body of the loop that withdraws the payouts.
  unfoldable pub withdraw_payout : ℕ → ℕ → Database st → Database st
  withdraw_payout account_id payout_amount db =
      let old_balance = or_default (st.get_value account_id db.accounts) in
      let new_balance : AccountBalance = record {
        unlocked = U64.add old_balance.unlocked payout_amount;
        locked = LockedBalance.none;
      } in
      record db { accounts = st.insert_entry account_id new_balance db.accounts }

  unfoldable pub withdraw_payouts : List (ℕ × ℕ) → Database st → Database st
  withdraw_payouts [] db = db
  withdraw_payouts ((account_id, payout_amount) ∷ payouts) db =
      withdraw_payouts payouts (withdraw_payout account_id payout_amount db)

  -- The database after the settlement, and the seekers' payouts.
  unfoldable pub settle_locked_balances :
      Database st → ℕ → EpochOutcome → Exec (Database st × BTreeMap ℕ)
  settle_locked_balances db epoch_id epoch_outcome = elim (U64.checked_sub epoch_id 1) [
    | none ↦ ok (db, [])
    | some prev_epoch_id ↦ do
      prev_epoch_outcome ←
          expect (st.get_value prev_epoch_id db.epoch_outcomes) previous_outcome_missing
      start_price ← expect prev_epoch_outcome.settled_price previous_price_missing
      end_price ← expect epoch_outcome.settled_price price_not_settled
      let entries = collect_entries (st.find_by_prefix db.accounts) ([], [])
      payouts ← calculate_payouts epoch_outcome.feerate entries.0 entries.1 start_price end_price
      ok (withdraw_payouts (payouts.0 ++ payouts.1) db, payouts.0)
  ]
