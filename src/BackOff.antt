-- ===== src/BackOff.antt =====
-- stabilitypool-common/src/price.rs, `BackOff`: how long the module waits after failures of the
-- oracle. The atomic fields are read and written one at a time, by one task.
pub mod Delay
use stabilitypool.Base.{
  ℕ, ◌+◌, ◌%◌, ◌^◌, min, Bool, not, Exec, ok, ◌>>=◌, expect, timestamp_out_of_range,
}
use stabilitypool.Base.I64
use stabilitypool.Base.U64
use stabilitypool.Clock.{Clock}

-- `failures` is a `u32`, the other fields are `u64`.
pub record BackOff : Type 0 where
  pub max_delay : ℕ
  pub base : ℕ
  pub failures : ℕ
  pub last_failure : ℕ

-- `BackOff::default`
abbrev pub default_back_off : BackOff
default_back_off = record { max_delay = 20; base = 2; failures = 0; last_failure = 0 }

-- The seconds of `delay`, before their cast to `i64`; `pow` wraps in a release build.
unfoldable pub delay : BackOff → ℕ
delay backoff = min (backoff.base ^ backoff.failures % U64.modulus) backoff.max_delay

-- The new state, and the failures before it.
unfoldable pub reset : BackOff → BackOff × ℕ
reset backoff = (record backoff { failures = 0 }, backoff.failures)

module _ (clock : Clock) where
  unfoldable pub record_failure : clock.Time → BackOff → BackOff
  record_failure failure_time backoff = record backoff {
    last_failure = I64.to_u64 (clock.unix_timestamp failure_time);
    failures = (backoff.failures + 1) % 2 ^ 32;
  }

  unfoldable pub earliest_retry : BackOff → Exec clock.Time
  earliest_retry backoff = do
    last_failure ←
        expect (clock.from_unix_timestamp (I64.of_u64 backoff.last_failure)) timestamp_out_of_range
    expect (clock.add_seconds last_failure (I64.of_u64 (delay backoff))) timestamp_out_of_range

  unfoldable pub can_retry : clock.Time → BackOff → Exec Bool
  unfolding earliest_retry
  can_retry now backoff = do
    earliest ← earliest_retry backoff
    ok (not (clock.is_before now earliest))
