-- ===== src/Clock.antt =====
-- What the program takes from the `time` crate: points in time and whole seconds between them.
use stabilitypool.Base.{ℕ, ◌+◌, ◌-◌, ◌*◌, ◌/◌, ◌^◌, ◌≤◌, ◌<◌, ◌≡◌, Bool, Option, some, ltb}
use stabilitypool.Base.Int.{ℤ, pos, pos_part, neg_part}

-- `OffsetDateTime` with `unix_timestamp`, `from_unix_timestamp`, `<`, the seconds of a difference
-- that is not negative, and the addition of a `Duration` of whole seconds. What is out of the range
-- of the crate is `none`: an error of the timestamp, or a panic of the addition.
pub record Clock : Type 1 where
  pub Time : Type 0
  pub unix_timestamp : Time → ℤ
  pub from_unix_timestamp : ℤ → Option Time
  pub is_before : Time → Time → Bool
  pub whole_seconds_since : Time → Time → ℕ
  pub add_seconds : Time → ℤ → Option Time

-- What the theorems rely on: time is counted in nanoseconds, from a second that no time of the
-- crate is before, and a timestamp is an `i64` that forgets the parts of a second.
pub record IsClock (clock : Clock) : Type 0 where
  pub nanos : clock.Time → ℕ
  pub unix_timestamp-le : (t : clock.Time) → pos_part (clock.unix_timestamp t) < 2 ^ 63
  pub unix_timestamp-ge : (t : clock.Time) → neg_part (clock.unix_timestamp t) ≤ 2 ^ 63
  pub from_unix_timestamp-unix_timestamp :
      (t u : clock.Time)
      → clock.from_unix_timestamp (clock.unix_timestamp t) ≡ some u
      → nanos u ≡ nanos t / 1_000_000_000 * 1_000_000_000
  pub is_before-eq : (a b : clock.Time) → clock.is_before a b ≡ ltb (nanos a) (nanos b)
  pub whole_seconds-eq :
      (a b : clock.Time) → clock.whole_seconds_since a b ≡ (nanos a - nanos b) / 1_000_000_000
  pub add_seconds-eq :
      (t : clock.Time) (n : ℕ) (u : clock.Time)
      → clock.add_seconds t (pos n) ≡ some u
      → nanos u ≡ nanos t + n * 1_000_000_000
