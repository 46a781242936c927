-- ===== src/Account.antt =====
-- stabilitypool-common/src/account.rs: the balance of an account. An `Amount` is its number of
-- millisatoshis.
pub mod Bounds
use stabilitypool.Base.{ℕ, Bool, true, false, List, [], ◌∷◌}
use stabilitypool.Base.U64
use mathlib.Core.Option.{Option}

pub data LockedBalance : Type 0 where
  seeker : (amount : ℕ) → LockedBalance
  provider : (amount : ℕ) → LockedBalance
  none : LockedBalance

abbrev pub locked_amount : LockedBalance → ℕ
locked_amount (seeker a) = a
locked_amount (provider a) = a
locked_amount none = 0

pub record AccountBalance : Type 0 where
  pub unlocked : ℕ
  pub locked : LockedBalance

-- `AccountBalance::default`
abbrev pub default_balance : AccountBalance
default_balance = record { unlocked = 0; locked = none }

-- `try_fold(acc, |acc, v| acc.checked_add(v))`
unfoldable pub try_sum : ℕ → List ℕ → Option ℕ
try_sum acc [] = Option.some acc
try_sum acc (v ∷ vs) = elim (U64.checked_add acc v) [
  | Option.none ↦ Option.none
  | Option.some acc' ↦ try_sum acc' vs
]

unfoldable pub total_balance : AccountBalance → Option ℕ
unfolding try_sum
total_balance account = try_sum 0 (account.unlocked ∷ locked_amount account.locked ∷ [])

unfoldable pub can_add_amount : AccountBalance → ℕ → Bool
unfolding try_sum
can_add_amount account amount =
    elim (try_sum 0 (account.unlocked ∷ locked_amount account.locked ∷ amount ∷ [])) [
      | Option.none ↦ false
      | Option.some _ ↦ true
    ]

-- `AccountDeposit`, the module's `PoolOutput`
pub record AccountDeposit : Type 0 where
  pub account : ℕ
  pub amount : ℕ

-- `AccountWithdrawal`, the module's `PoolInput`
pub record AccountWithdrawal : Type 0 where
  pub account : ℕ
  pub amount : ℕ
