-- ===== src/Pool.antt =====
-- stabilitypool-server/src/lib.rs, `impl ServerModule for StabilityPool`: withdrawals are the inputs
-- of the module and deposits its outputs. A result of the source is a sum with the error on the
-- left. An outpoint is a number.
pub mod Funds
pub mod Deposits
pub mod Items
pub mod Epochs
pub mod Runs
pub mod Audit
pub mod Service
use stabilitypool.Base.{
  ℕ, ◌+◌, Bool, true, false, not, Option, none, some, List, [], ◌∷◌, map, ◌⊎◌, inl, inr, Exec, ok,
  panic, ◌>>=◌, expect, withdrawal_unchecked, deposit_overflow, ltb, if◌then◌else◌,
}
use stabilitypool.Base.Int.{ℤ}
use stabilitypool.Base.I64
use stabilitypool.Base.U64
use stabilitypool.BTreeMap
use stabilitypool.Account.{
  AccountBalance, AccountDeposit, AccountWithdrawal, default_balance, can_add_amount, locked_amount,
}
use stabilitypool.Action.Proposed.{ActionProposed, ActionProposedDb, Schnorr}
use stabilitypool.Action.Process as ActionProcess
use stabilitypool.Epoch.Types.{EpochEnd, EpochConfig, ConsensusItemOutcome}
use stabilitypool.Epoch.Process as EpochProcess
use stabilitypool.Db.{Store, Database}

pub data WithdrawalError : Type 0 where
  unavaliable_funds : (amount avaliable : ℕ) → WithdrawalError

pub data StabilityPoolError : Type 0 where
  something_dummy_went_wrong : StabilityPoolError
  deposit_too_large : StabilityPoolError

-- `TransactionItemAmount` of fedimint
pub record TransactionItemAmount : Type 0 where
  pub amount : ℕ
  pub fee : ℕ

-- `InputMeta` of fedimint
pub record InputMeta : Type 0 where
  pub amount : TransactionItemAmount
  pub puk_keys : List ℕ

-- stabilitypool-common/src/lib.rs
pub data PoolConsensusItem (Signature : Type 0) : Type 0 where
  action_proposed : ActionProposed Signature → PoolConsensusItem Signature
  epoch_end : EpochEnd → PoolConsensusItem Signature

abbrev pub or_default : Option AccountBalance → AccountBalance
or_default none = default_balance
or_default (some a) = a

abbrev pub unlocked_or_zero : Option AccountBalance → ℕ
unlocked_or_zero none = 0
unlocked_or_zero (some a) = a.unlocked

abbrev is_too_large : Option AccountBalance → ℕ → Bool
is_too_large none amount = false
is_too_large (some account) amount = not (can_add_amount account amount)

-- The closure of `audit`.
unfoldable pub audit_item : AccountBalance → ℤ
audit_item v = I64.of_u64 (U64.add v.unlocked (locked_amount v.locked))

module _ (st : Store) where
  unfoldable pub validate_input : AccountWithdrawal → Database st → WithdrawalError ⊎ InputMeta
  validate_input withdrawal db =
      let avaliable = unlocked_or_zero (st.get_value withdrawal.account db.accounts) in
      if ltb avaliable withdrawal.amount
      then inl (unavaliable_funds withdrawal.amount avaliable)
      else inr (record {
        amount = record { amount = withdrawal.amount; fee = 0 };
        puk_keys = withdrawal.account ∷ [];
      })

  abbrev pub InputResult : Type 0
  InputResult = WithdrawalError ⊎ (InputMeta × Database st)

  -- The part of `apply_input` after the validation.
  unfoldable pub withdraw : AccountWithdrawal → InputMeta → Database st → Exec InputResult
  withdraw withdrawal meta db = do
    let account = or_default (st.get_value withdrawal.account db.accounts)
    unlocked ← expect (U64.checked_sub account.unlocked withdrawal.amount) withdrawal_unchecked
    let account' : AccountBalance = record account { unlocked = unlocked }
    ok (
        inr
          (meta, record db { accounts = st.insert_entry withdrawal.account account' db.accounts }))

  unfoldable pub apply_input : AccountWithdrawal → Database st → Exec InputResult
  unfolding withdraw
  apply_input withdrawal db = elim (validate_input withdrawal db) [
    | inl e ↦ ok (inl e)
    | inr meta ↦ withdraw withdrawal meta db
  ]

  unfoldable pub validate_output :
      AccountDeposit → Database st → StabilityPoolError ⊎ TransactionItemAmount
  validate_output deposit db =
      if is_too_large (st.get_value deposit.account db.accounts) deposit.amount
      then inl deposit_too_large
      else inr (record { amount = deposit.amount; fee = 0 })

  abbrev pub OutputResult : Type 0
  OutputResult = StabilityPoolError ⊎ (TransactionItemAmount × Database st)

  -- The part of `apply_output` after the validation.
  unfoldable pub put_deposit :
      AccountDeposit → ℕ → TransactionItemAmount → Database st → Exec OutputResult
  put_deposit deposit outpoint txo_amount db = do
    let account = or_default (st.get_value deposit.account db.accounts)
    unlocked ← expect (U64.checked_add account.unlocked deposit.amount) deposit_overflow
    let account' : AccountBalance = record account { unlocked = unlocked }
    ok (
        inr (
          txo_amount,
          record db {
            accounts = st.insert_entry deposit.account account' db.accounts;
            deposit_outcomes = st.insert_new_entry outpoint deposit.account db.deposit_outcomes;
          },
        ))

  unfoldable pub apply_output : AccountDeposit → ℕ → Database st → Exec OutputResult
  unfolding put_deposit
  apply_output deposit outpoint db = elim (validate_output deposit db) [
    | inl e ↦ ok (inl e)
    | inr txo_amount ↦ put_deposit deposit outpoint txo_amount db
  ]

  unfoldable pub output_status : ℕ → Database st → Option ℕ
  output_status outpoint db = st.get_value outpoint db.deposit_outcomes

  -- The amounts that are added to the audit of fedimint, one for each account.
  unfoldable pub audit : Database st → List ℤ
  unfolding audit_item
  audit db = map audit_item (BTreeMap.values (st.find_by_prefix db.accounts))

  module _ (schnorr : Schnorr) (config : EpochConfig) where
    abbrev Stores : Type 0
    Stores = Database st × ActionProposedDb schnorr

    -- One item of a consensus epoch; the outcome is only logged.
    unfoldable pub process_item :
        ℕ → PoolConsensusItem schnorr.Signature → Stores → Exec (Stores × ConsensusItemOutcome)
    process_item peer_id (action_proposed a) stores =
        ActionProcess.process_consensus_item st schnorr a stores
    process_item peer_id (epoch_end e) (db, proposals) = do
      done ← EpochProcess.process_consensus_item st config peer_id e db
      ok ((done.0, proposals), done.1)

    unfoldable pub begin_consensus_epoch :
        List (ℕ × PoolConsensusItem schnorr.Signature) → Stores → Exec Stores
    begin_consensus_epoch [] stores = ok stores
    begin_consensus_epoch ((peer_id, item) ∷ items) stores = do
      done ← process_item peer_id item stores
      begin_consensus_epoch items (done.0)
