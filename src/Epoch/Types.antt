-- ===== src/Epoch/Types.antt =====
-- epoch.rs and lib.rs, the data; and the fields of `EpochConfig` (config.rs) that epoch.rs reads.
use stabilitypool.Base.{ℕ, Option}
use stabilitypool.StabilityCore.Ratio.{CollateralRatio}
use stabilitypool.StabilityCore.Feerate.{EpochFeerate}

pub record EpochEnd : Type 0 where
  pub price : Option ℕ
  pub epoch_id : ℕ

pub record EpochOutcome : Type 0 where
  pub total_seeker_locked : ℕ
  pub total_provider_locked : ℕ
  pub settled_price : Option ℕ
  pub feerate : EpochFeerate

pub record EpochConfig : Type 0 where
  pub start_epoch_at : ℕ
  pub epoch_length : ℕ
  pub price_threshold : ℕ
  pub max_feerate_ppm : ℕ
  pub collateral_ratio : CollateralRatio

-- The texts of `ConsensusItemOutcome`, by what they report.
pub data Reason : Type 0 where
  backtrack : Reason
  price_backtrack : Reason
  skipped_epoch : Reason
  not_the_epoch : Reason
  price_required : Reason
  invalid_signature : Reason
  unsettled : Reason
  not_next_epoch : Reason
  invalid_sequence : Reason

pub data ConsensusItemOutcome : Type 0 where
  applied : ConsensusItemOutcome
  ignored : Reason → ConsensusItemOutcome
  banned : Reason → ConsensusItemOutcome
