-- ===== src/Oracle.antt =====
-- stabilitypool-common/src/config.rs, `OracleConfig`, and the oracle clients that it names
-- (stabilitypool-common/src/price.rs). `Url` and its parser are those of reqwest.
pub mod Prices
use Prim.Native.String.{String}
use stabilitypool.Base.{Option, Exec, ok, ◌>>=◌, expect, invalid_url}

pub data OracleConfig : Type 0 where
  bit_mex : OracleConfig
  mock : (url : String) → OracleConfig
  file : (path : String) → OracleConfig

-- `OracleConfig::default`
abbrev pub default_oracle_config : OracleConfig
default_oracle_config = file "./misc/offline_oracle"

-- `Box<dyn OracleClient>`: `BitMexOracle`, `MockOracle` and `FileOracle`.
pub data OracleClient (Url : Type 0) : Type 0 where
  bit_mex_oracle : OracleClient Url
  mock_oracle : (url : Url) → OracleClient Url
  file_oracle : (path : String) → OracleClient Url

-- A text is always a path.
unfoldable pub oracle_client :
    {Url : Type 0} → (String → Option Url) → OracleConfig → Exec (OracleClient Url)
oracle_client parse bit_mex = ok bit_mex_oracle
oracle_client parse (mock url) = do url' ← expect (parse url) invalid_url; ok (mock_oracle url')
oracle_client parse (file path) = ok (file_oracle path)
