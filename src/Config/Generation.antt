-- ===== src/Config/Generation.antt =====
-- stabilitypool-server/src/lib.rs, `PoolConfigGenerator`: the configuration of the peers, made by one
-- dealer for all of them or by each peer for itself.
pub mod Agreement
use stabilitypool.Base.{ℕ, ◌+◌, ◌%◌, ◌^◌, Option, none, some, List, [], ◌∷◌, length}
use stabilitypool.Base.I64
use stabilitypool.BTreeMap
use stabilitypool.BTreeMap.{BTreeMap}
use stabilitypool.StabilityCore.Ratio.{CollateralRatio, default_ratio}
use stabilitypool.Clock.{Clock}
use stabilitypool.Epoch.Types.{EpochConfig}
use stabilitypool.Oracle.{OracleConfig, default_oracle_config}
use stabilitypool.Config.Pool.{PoolConfig, PoolConfigConsensus}

abbrev pub default_global_max_feerate : ℕ
default_global_max_feerate = 100_000

abbrev pub default_epoch_length : ℕ
default_epoch_length = 40

-- The start is a `PrimitiveDateTime` of the time crate, which the code reads as a time in UTC: here
-- it is that time.
pub record PoolConfigGenParams (clock : Clock) : Type 0 where
  pub important_param : ℕ
  pub start_epoch_at : Option clock.Time
  pub epoch_length : ℕ
  pub oracle_config : OracleConfig
  pub collateral_ratio : CollateralRatio

-- `PoolConfigGenParams::default`
abbrev pub default_params : {clock : Clock} → PoolConfigGenParams clock
default_params = record {
  important_param = 3;
  start_epoch_at = none;
  epoch_length = default_epoch_length;
  oracle_config = default_oracle_config;
  collateral_ratio = default_ratio;
}

-- `threshold` is that of fedimint for a number of peers. The code casts it to `u32`.
module _ (clock : Clock) (threshold : ℕ → ℕ) (params : PoolConfigGenParams clock) where
  -- The time is read only if the parameters name no start.
  abbrev pub start_or : clock.Time → Option clock.Time → clock.Time
  start_or now none = now
  start_or now (some start) = start

  -- `peers` is what the handle of the peer says of the federation.
  unfoldable pub distributed_gen : (our_id : ℕ) → (peers : List ℕ) → clock.Time → PoolConfig
  distributed_gen our_id peers now = record {
    private = record { peer_id = our_id };
    consensus = record {
      epoch = record {
        start_epoch_at = I64.to_u64 (clock.unix_timestamp (start_or now params.start_epoch_at));
        epoch_length = params.epoch_length;
        price_threshold = threshold (length peers) % 2 ^ 32;
        max_feerate_ppm = default_global_max_feerate;
        collateral_ratio = params.collateral_ratio;
      };
      oracle = params.oracle_config;
    };
  }

  -- The closure of the dealer, for all the peers and one of them.
  unfoldable pub deal_one : List ℕ → ℕ → clock.Time → PoolConfig
  deal_one peers peer now = record {
    private = record { peer_id = peer };
    consensus = record {
      epoch = record {
        start_epoch_at = I64.to_u64 (clock.unix_timestamp (start_or now params.start_epoch_at));
        epoch_length = params.epoch_length;
        price_threshold = threshold (length peers) % 2 ^ 32;
        max_feerate_ppm = default_global_max_feerate;
        collateral_ratio = params.collateral_ratio;
      };
      oracle = params.oracle_config;
    };
  }

  -- The iterator over the peers that are left; `now n` is what the clock says when the closure is
  -- called for the n-th time.
  unfoldable pub deal :
      List ℕ → ℕ → (now : ℕ → clock.Time) → List ℕ → BTreeMap PoolConfig → BTreeMap PoolConfig
  unfolding deal_one
  deal all_peers n now [] dealt = dealt
  deal all_peers n now (peer ∷ peers) dealt =
      deal all_peers (n + 1) now peers
        (BTreeMap.insert peer (deal_one all_peers peer (now n)) dealt)

  unfoldable pub trusted_dealer_gen : (now : ℕ → clock.Time) → List ℕ → BTreeMap PoolConfig
  unfolding deal
  trusted_dealer_gen now peers = deal peers 0 now peers []
