-- ===== src/Config/Epochs.antt =====
-- Which epoch a point in time falls into.
use native.Mathlib.Nat.{le-div_iff_mul-le, div-le_of_le-mul}
use stabilitypool.Base.{
  ℕ, ◌+◌, ◌-◌, ◌*◌, ◌/◌, ◌^◌, ◌≤◌, ◌<◌, ◌≡◌, refl, ◌↔◌, some, true, false, ok, arith, ltb,
  Bool-cases, inl, inr, ==_ne, sym, ap, ◌∙◌, ltb→lt,
}
use stabilitypool.Base.I64
use stabilitypool.Base.U64
use stabilitypool.Clock.{Clock, IsClock}
use stabilitypool.Config.{start_epoch_at, epoch_id_for_time}
use stabilitypool.Epoch.Types.{EpochConfig}

module _ {clock : Clock} (law : IsClock clock) where
  -- For a start in the range of the clock, an epoch length that is not 0 and a time less than 2 ^ 63
  -- seconds after the start, or before it, the epoch of the time is computed, and it is the number of
  -- epochs whose start has come: the start of epoch n, which is n times the epoch length after the
  -- start, has come exactly if the epoch is after n.
  pub epoch_id_for_time_lem :
      (config : EpochConfig) (start time : clock.Time)
      → clock.from_unix_timestamp (I64.of_u64 config.start_epoch_at) ≡ some start
      → 0 < config.epoch_length
      → law.nanos time < law.nanos start + 2 ^ 63 * 1_000_000_000
      → (id : ℕ) × (epoch_id_for_time clock config time ≡ ok id)
        × ((n : ℕ)
            → (law.nanos start + n * config.epoch_length * 1_000_000_000 ≤ law.nanos time)
              ↔ (n < id))
  unfolding epoch_id_for_time start_epoch_at
  epoch_id_for_time_lem config start time valid length_pos small =
      elim (Bool-cases (clock.is_before time start)) [
        | inl before ↦ (
          0,
          rw valid (rw before refl),
          λ n. (λ le. absurd (omega (arith, earlier before)), λ lt. absurd (omega arith)),
        )
        | inr after ↦
            let seconds : ℕ = (law.nanos time - law.nanos start) / 1_000_000_000 in
            let epochs : ℕ = seconds / config.epoch_length in
            let few : epochs ≤ seconds = div-le_of_le-mul config.epoch_length (grind arith) in
            let next : U64.add epochs 1 ≡ epochs + 1 = U64.add_lem epochs 1 (omega arith) in
            (
              epochs + 1,
              rw valid (
                  rw after (
                    rw (law.whole_seconds-eq time start, ==_ne config.epoch_length 0 (omega arith))
                      (ap ok next))),
              λ n.
                  let iff =
                    le-div_iff_mul-le {k = config.epoch_length} {x = n} {y = seconds} length_pos in
                  (
                    λ le. let lt : n ≤ epochs = iff.1 (omega (arith, later after)) in omega arith,
                    λ lt.
                        let le : n * config.epoch_length ≤ seconds = iff.0 (omega arith) in
                        omega (arith, later after),
                  ),
            )
      ]
    where
      earlier : clock.is_before time start ≡ true → law.nanos time < law.nanos start
      earlier e = ltb→lt (law.nanos time) (law.nanos start) (sym (law.is_before-eq time start) ∙ e)

      later : clock.is_before time start ≡ false → law.nanos start ≤ law.nanos time
      later e =
          let f : ltb (law.nanos time) (law.nanos start) ≡ false =
            sym (law.is_before-eq time start) ∙ e in
          ground arith
