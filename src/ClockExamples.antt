-- ===== src/ClockExamples.antt =====
-- The theorems on the clock, the back-off and the proposals of ends of epochs at a concrete clock.
use stabilitypool.Base.{
  ℕ, ◌+◌, ◌-◌, ◌*◌, ◌/◌, ◌^◌, if◌then◌else◌, Option, ◌≤◌, ◌<◌, ◌≡◌, refl, ◌↔◌, ◌⊎◌, inl, Bool, true,
  false, ◌&&◌, none, some, List, [], min, ok, arith, ltb,
}
use stabilitypool.Base.Int.{ℤ, pos, negsuc}
use stabilitypool.Base.I64
use stabilitypool.Base.U64
use stabilitypool.Clock.{Clock, IsClock}
use stabilitypool.Config.{epoch_id_for_time, epoch_start_time, price_at_epoch_start, Oracle}
use stabilitypool.Config
use stabilitypool.Config.Epochs.{epoch_id_for_time_lem}
use stabilitypool.BackOff as BackOffs
use stabilitypool.BackOff.{
  BackOff, default_back_off, delay, earliest_retry, can_retry, record_failure,
}
use stabilitypool.BackOff.Delay.{delay_wraps, can_retry-record_failure}
use stabilitypool.StabilityCore.Ratio.{default_ratio}
use stabilitypool.Epoch.Types.{EpochEnd, EpochConfig}
use stabilitypool.Epoch.State.{option_lt}
use stabilitypool.Epoch.Propose.{can_propose, consensus_proposal}
use stabilitypool.Epoch.Propose.Checks.{
  IsWanted, IsPriceless, consensus_proposal-check_requirements,
}
use stabilitypool.Db.Example.{map_store, empty_database}

abbrev from_second : ℤ → Option ℕ
from_second (pos n) = if ltb n (2 ^ 63 - 1) then some (n * 1_000_000_000) else none
from_second (negsuc n) = none

abbrev after_seconds : ℕ → ℤ → Option ℕ
after_seconds t (pos n) = some (t + n * 1_000_000_000)
after_seconds t (negsuc n) = none

-- A clock that counts nanoseconds from the Unix epoch, up to 2 ^ 63 seconds.
abbrev pub nano_clock : Clock
nano_clock = record {
  Time = ℕ;
  unix_timestamp = λ t. pos (min (t / 1_000_000_000) (2 ^ 63 - 1));
  from_unix_timestamp = from_second;
  is_before = ltb;
  whole_seconds_since = λ a b. (a - b) / 1_000_000_000;
  add_seconds = after_seconds;
}

some_eq : {a b : ℕ} → some a ≡ some b → b ≡ a
some_eq e = cc

capped_lem : (n : ℕ) → min n (2 ^ 63 - 1) < 2 ^ 63
capped_lem n = omega arith

round_lem :
    (t u : ℕ)
    → from_second (pos (min (t / 1_000_000_000) (2 ^ 63 - 1))) ≡ some u
    → u ≡ t / 1_000_000_000 * 1_000_000_000
round_lem t u e = ground arith

pub nano_clock-IsClock : IsClock nano_clock
nano_clock-IsClock = record {
  nanos = λ t. t;
  unix_timestamp-le = λ t. capped_lem (t / 1_000_000_000);
  unix_timestamp-ge = λ t. omega arith;
  from_unix_timestamp-unix_timestamp = round_lem;
  is_before-eq = λ a b. refl;
  whole_seconds-eq = λ a b. refl;
  add_seconds-eq = λ t n u e. some_eq e;
}

abbrev pub minutes : EpochConfig
minutes = record {
  start_epoch_at = 0;
  epoch_length = 60;
  price_threshold = 1;
  max_feerate_ppm = 200_000;
  collateral_ratio = default_ratio;
}

epoch_id_for_time_example :
    (id : ℕ) × (epoch_id_for_time nano_clock minutes 150_000_000_000 ≡ ok id)
    × ((n : ℕ) → (0 + n * 60 * 1_000_000_000 ≤ 150_000_000_000) ↔ (n < id))
unfolding nano_clock-IsClock I64.of_u64
epoch_id_for_time_example =
    epoch_id_for_time_lem nano_clock-IsClock minutes 0 150_000_000_000 refl (omega arith)
      (omega arith)

delay_wraps_example : delay (record default_back_off { failures = 70 }) ≡ 0
delay_wraps_example = delay_wraps (record default_back_off { failures = 70 }) refl (omega arith)

can_retry-record_failure_example :
    (retry : Bool) × (can_retry nano_clock 10_000_000_000
        (record_failure nano_clock 5_000_000_001 default_back_off)
      ≡ ok retry)
    × ((retry ≡ true)
        ↔ ((5_000_000_001 / 1_000_000_000 + min (2 ^ (0 + 1)) 20) * 1_000_000_000 ≤ 10_000_000_000))
unfolding nano_clock-IsClock
can_retry-record_failure_example =
    can_retry-record_failure nano_clock-IsClock default_back_off 5_000_000_001 10_000_000_000
      5_000_000_000 7_000_000_000 (omega arith) (omega arith) (omega arith) refl refl

abbrev oracle : Oracle nano_clock
oracle time = some 15_000

consensus_proposal-check_requirements_example :
    let due : Bool = true && option_lt none (some 4) in
    (backoff' : BackOff) × (ends : List EpochEnd) × (can_propose nano_clock minutes map_store
        200_000_000_000 default_back_off empty_database
      ≡ ok due)
    × (consensus_proposal nano_clock minutes oracle 200_000_000_000 map_store default_back_off
          empty_database
        ≡ ok (backoff', ends))
    × (((due ≡ false) × (ends ≡ []) × (backoff' ≡ default_back_off))
        ⊎ ((due ≡ true)
            × (IsWanted nano_clock minutes oracle 200_000_000_000 map_store default_back_off
                  empty_database
                  (some 15_000)
                  ends
                ⊎ IsPriceless nano_clock minutes oracle 200_000_000_000 map_store default_back_off
                    empty_database
                    (some 15_000)
                    backoff'
                    ends)))
unfolding U64.add U64.mul I64.of_u64 BackOffs.can_retry earliest_retry delay epoch_id_for_time
    epoch_start_time price_at_epoch_start Config.start_epoch_at
consensus_proposal-check_requirements_example =
    consensus_proposal-check_requirements nano_clock minutes oracle 200_000_000_000 map_store
      default_back_off empty_database true 4 (some 15_000) (tt, inl refl) refl refl refl
