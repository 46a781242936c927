-- ===== src/Config.antt =====
-- stabilitypool-common/src/config.rs, `impl EpochConfig`: the epoch that a point in time falls into;
-- and `price_at_epoch_start` of stabilitypool-common/src/price.rs with the oracle as a parameter.
pub mod Epochs
pub mod Pool
pub mod Generation
use stabilitypool.Base.{
  ℕ, ◌/◌, Option, none, some, Bool, true, false, Exec, ok, panic, ◌>>=◌, expect,
  timestamp_out_of_range, if◌then◌else◌,
}
use stabilitypool.Base.I64
use stabilitypool.Base.U64
use stabilitypool.Base.U128
use stabilitypool.Clock.{Clock}
use stabilitypool.Epoch.Types.{EpochConfig}

module _ (clock : Clock) where
  unfoldable pub start_epoch_at : EpochConfig → Exec clock.Time
  start_epoch_at config =
      expect (clock.from_unix_timestamp (I64.of_u64 config.start_epoch_at)) timestamp_out_of_range

  unfoldable pub epoch_id_for_time : EpochConfig → clock.Time → Exec ℕ
  unfolding start_epoch_at
  epoch_id_for_time config time = do
    start ← start_epoch_at config
    if clock.is_before time start
        then ok 0
        else (U128.div (clock.whole_seconds_since time start) config.epoch_length >>= λ epochs.
            ok (U64.add epochs 1))

  -- The time of which the oracle is asked the price.
  unfoldable pub epoch_start_time : EpochConfig → ℕ → Exec clock.Time
  unfolding start_epoch_at
  epoch_start_time config epoch_id = do
    start ← start_epoch_at config
    expect (clock.add_seconds start (I64.of_u64 (U64.mul epoch_id config.epoch_length)))
        timestamp_out_of_range

  -- `price_at_time` of the oracle; `none` is an error.
  abbrev pub Oracle : Type 0
  Oracle = clock.Time → Option ℕ

  unfoldable pub price_at_epoch_start : Oracle → EpochConfig → ℕ → Exec (Option ℕ)
  unfolding epoch_start_time
  price_at_epoch_start oracle config epoch_id = do
    time ← epoch_start_time config epoch_id
    ok (oracle time)
