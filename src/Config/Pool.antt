-- ===== src/Config/Pool.antt =====
-- stabilitypool-common/src/config.rs, `PoolConfig` and the configuration that clients get from it.
-- `ServerModuleConfig` and `ClientModuleConfig` of fedimint are the serialised forms of these types.
use Prim.Native.String.{String}
use stabilitypool.Base.{ℕ, ◌⊎◌, inr}
use stabilitypool.StabilityCore.Ratio.{CollateralRatio}
use stabilitypool.Epoch.Types.{EpochConfig}
use stabilitypool.Oracle.{OracleConfig}

pub record PoolConfigPrivate : Type 0 where
  pub peer_id : ℕ

pub record PoolConfigConsensus : Type 0 where
  pub epoch : EpochConfig
  pub oracle : OracleConfig

pub record PoolConfig : Type 0 where
  pub private : PoolConfigPrivate
  pub consensus : PoolConfigConsensus

pub record PoolConfigClient : Type 0 where
  pub oracle : OracleConfig
  pub collateral_ratio : CollateralRatio

-- `KIND` of stabilitypool-common/src/lib.rs
abbrev pub kind : String
kind = "stabilitypool"

unfoldable pub from_parts : Unit {0} → PoolConfigPrivate → PoolConfigConsensus → PoolConfig
from_parts _ private consensus = record { private = private; consensus = consensus }

unfoldable pub to_parts : PoolConfig → String × Unit {0} × PoolConfigPrivate × PoolConfigConsensus
to_parts c = (kind, tt, c.private, c.consensus)

-- There is no error: every configuration is valid.
unfoldable pub validate_config : ℕ → PoolConfig → String ⊎ Unit {0}
validate_config identity c = inr tt

unfoldable pub to_client_config : PoolConfigConsensus → PoolConfigClient
to_client_config c = record { oracle = c.oracle; collateral_ratio = c.epoch.collateral_ratio }
