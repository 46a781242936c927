-- ===== src/BackOff/Delay.antt =====
-- How long the back-off lasts.
use native.Mathlib.Nat.{pow-suc}
use stabilitypool.Base.{
  ℕ, zero, suc, ◌+◌, ◌-◌, ◌*◌, ◌/◌, ◌%◌, ◌^◌, ◌≤◌, ◌<◌, ◌≡◌, refl, sym, ap, ◌∙◌, ◌↔◌, min, Bool,
  true, not, some, ok, arith, ltb,
}
use stabilitypool.Base.Int.{pos}
use stabilitypool.Base.I64
use stabilitypool.Base.U64
use stabilitypool.Clock.{Clock, IsClock}
use stabilitypool.BackOff.{BackOff, delay, record_failure, can_retry}

two_pow_lem : (k : ℕ) → (q : ℕ) × (2 ^ (k + 64) ≡ q * 2 ^ 64)
two_pow_lem zero = (1, refl)
two_pow_lem (suc k) =
    let (q, e) = two_pow_lem k in
    let i : suc k + 64 ≡ suc (k + 64) = omega arith in
    (q * 2, rw i (rw (pow-suc 2 (k + 64)) (omega (arith, e))))

-- With a base of 2, from the 64th failure in a row on the power wraps to 0, and there is no delay any
-- more.
pub delay_wraps : (b : BackOff) → b.base ≡ 2 → 64 ≤ b.failures → delay b ≡ 0
unfolding delay
delay_wraps b e h =
    let (q, p) = two_pow_lem (b.failures - 64) in
    let n : b.failures - 64 + 64 ≡ b.failures = omega arith in
    let power : b.base ^ b.failures ≡ q * 2 ^ 64 =
      ap (λ (base : ℕ). base ^ b.failures) e ∙ sym (ap (λ (k : ℕ). 2 ^ k) n) ∙ p in
    let none_left : b.base ^ b.failures % U64.modulus ≡ 0 =
      ap (λ (k : ℕ). k % U64.modulus) power ∙ omega arith in
    omega arith

not-ltb_iff : (a b : ℕ) {c : ℕ} → b ≡ c → (not (ltb a b) ≡ true) ↔ (c ≤ a)
not-ltb_iff a b e = (λ h. ground arith, λ h. ground arith)

module _ {clock : Clock} (law : IsClock clock) where
  -- After a failure, where the power does not wrap, the delay is less than 2 ^ 63 and the times are in
  -- the range of the clock, the
  -- oracle is asked again exactly from the time of the failure on, in whole seconds, and the power of
  -- the base by the failures so far, at most the maximal delay.
  pub can_retry-record_failure :
      (b : BackOff) (failure now last earliest : clock.Time)
      → b.failures + 1 < 2 ^ 32
      → b.base ^ (b.failures + 1) < 2 ^ 64
      → min (b.base ^ (b.failures + 1)) b.max_delay < 2 ^ 63
      → clock.from_unix_timestamp (clock.unix_timestamp failure) ≡ some last
      → clock.add_seconds last (pos (min (b.base ^ (b.failures + 1)) b.max_delay)) ≡ some earliest
      → (retry : Bool) × (can_retry clock now (record_failure clock failure b) ≡ ok retry)
        × ((retry ≡ true) ↔ (
            (law.nanos failure / 1_000_000_000 + min (b.base ^ (b.failures + 1)) b.max_delay)
              * 1_000_000_000
            ≤ law.nanos now))
  unfolding can_retry record_failure delay
  can_retry-record_failure b failure now last earliest few small short valid reached =
      let count : (b.failures + 1) % 2 ^ 32 ≡ b.failures + 1 = omega arith in
      let power : b.base ^ (b.failures + 1) % U64.modulus ≡ b.base ^ (b.failures + 1) =
        omega arith in
      let due : law.nanos earliest
          ≡ (law.nanos failure / 1_000_000_000 + min (b.base ^ (b.failures + 1)) b.max_delay)
            * 1_000_000_000 =
        omega (
          arith,
          law.add_seconds-eq last (min (b.base ^ (b.failures + 1)) b.max_delay) earliest reached,
          law.from_unix_timestamp-unix_timestamp failure last valid,
        ) in
      let back : I64.of_u64 (I64.to_u64 (clock.unix_timestamp failure))
          ≡ clock.unix_timestamp failure =
        I64.of_u64-to_u64 (clock.unix_timestamp failure) (law.unix_timestamp-le failure)
          (law.unix_timestamp-ge failure) in
      let cast : I64.of_u64 (min (b.base ^ (b.failures + 1)) b.max_delay)
          ≡ pos (min (b.base ^ (b.failures + 1)) b.max_delay) =
        I64.of_u64_lem (min (b.base ^ (b.failures + 1)) b.max_delay) short in
      (
        not (clock.is_before now earliest),
        rw back (rw valid (rw count (rw power (rw cast (rw reached refl))))),
        rw (law.is_before-eq now earliest) (not-ltb_iff (law.nanos now) (law.nanos earliest) due),
      )
