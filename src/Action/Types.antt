-- ===== src/Action/Types.antt =====
-- action.rs, the data: actions as signed by their accounts and as staged in the database.
use stabilitypool.Base.{ℕ}

pub record Action (T : Type 0) : Type 0 where
  pub epoch_id : ℕ
  pub sequence : ℕ
  pub account_id : ℕ
  pub body : T

pub data SeekerAction : Type 0 where
  lock : (amount : ℕ) → SeekerAction
  unlock : (amount : ℕ) → SeekerAction

pub record ProviderBid : Type 0 where
  pub min_feerate : ℕ
  pub max_amount : ℕ

pub data ActionStaged : Type 0 where
  seeker : Action SeekerAction → ActionStaged
  provider : Action ProviderBid → ActionStaged
