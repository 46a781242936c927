-- ===== src/Base/Panics.antt =====
-- Code that may panic. A panic carries the place where the source panics.

use mathlib.Core.Bool.{Bool, true, false}
use mathlib.Core.Option.{Option, none, some}

pub data Panic : Type 0 where
  division_by_zero : Panic
  collateral_ridiculously_high : Panic
  draining_feerate_none : Panic
  paying_out_more_than_we_can : Panic
  remaining_above_payouts : Panic
  payouts_differ_from_entries : Panic
  unexpected_epoch_state : Panic
  no_ended_epoch : Panic
  outcome_already_settled : Panic
  previous_outcome_missing : Panic
  previous_price_missing : Panic
  price_not_settled : Panic
  position_without_balance : Panic
  locked_above_balance : Panic
  locked_is_none : Panic
  withdrawal_unchecked : Panic
  deposit_overflow : Panic
  timestamp_out_of_range : Panic
  outcome_must_exist : Panic
  price_should_be_settled : Panic
  invalid_url : Panic
  encoding_failed : Panic
  assertion_failed : Panic
  unwrap_of_none : Panic

pub data Exec {ℓ} (A : Type ℓ) : Type ℓ where
  ok : A → Exec A
  panic : Panic → Exec A

infixl 5 ◌>>=◌ ◌>>◌
abbrev pub ◌>>=◌ {ℓ κ} : {A : Type ℓ} {B : Type κ} → Exec A → (A → Exec B) → Exec B
ok a >>= f = f a
panic e >>= f = panic e

abbrev pub ◌>>◌ {ℓ} : {B : Type ℓ} → Exec (Unit {0}) → Exec B → Exec B
m >> k = m >>= λ _. k

-- `assert!`
abbrev pub assert : Bool → Panic → Exec (Unit {0})
assert true e = ok tt
assert false e = panic e

-- `Option::expect`
abbrev pub expect {ℓ} : {A : Type ℓ} → Option A → Panic → Exec A
expect none e = panic e
expect (some a) e = ok a
