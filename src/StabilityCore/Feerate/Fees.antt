-- ===== src/StabilityCore/Feerate/Fees.antt =====
-- What a seeker pays, and what is left as the position.
use native.Mathlib.Nat.{div-le_of_le-mul, lt-mul-div-succ, mul-div-le}
use stabilitypool.Base.{ℕ, ◌+◌, ◌*◌, ◌/◌, ◌^◌, ◌≤◌, ◌<◌, ◌≡◌, ap, arith}
use stabilitypool.Base.U64
use stabilitypool.Base.U128
use stabilitypool.StabilityCore.Feerate.{
  feerate_unit_denominator, ppm_to_internal, approx_ppm_feerate, from_ppm_feerate, seeker_fee,
  seeker_position,
}

-- A feerate of at most 18446743 parts per million survives the conversion to the internal unit.
pub approx_ppm_feerate-from_ppm_feerate :
    (rate : ℕ) → rate ≤ 18_446_743 → approx_ppm_feerate (from_ppm_feerate rate) ≡ rate
unfolding approx_ppm_feerate from_ppm_feerate
approx_ppm_feerate-from_ppm_feerate rate h =
    rw (U64.mul_lem rate ppm_to_internal (omega arith)) (omega arith)

pub seeker_fee_lem :
    (f v : ℕ) → f < 2 ^ 64 → v < 2 ^ 64 → seeker_fee f v ≡ v * f / (feerate_unit_denominator + f)
unfolding seeker_fee
seeker_fee_lem f v hf hv =
    let le : v * f / (feerate_unit_denominator + f) ≤ v =
      div-le_of_le-mul (feerate_unit_denominator + f) (grind arith) in
    rw (U128.mul_lem v f hv hf) (
      rw (U128.add_lem feerate_unit_denominator f (omega arith))
        (U64.of_u128_lem (v * f / (feerate_unit_denominator + f)) (omega arith)))

pub seeker_fee-le : (f v : ℕ) → f < 2 ^ 64 → v < 2 ^ 64 → seeker_fee f v ≤ v
seeker_fee-le f v hf hv =
    rw (seeker_fee_lem f v hf hv) (div-le_of_le-mul (feerate_unit_denominator + f) (grind arith))

pub seeker_position_lem :
    (f v : ℕ) → f < 2 ^ 64 → v < 2 ^ 64 → seeker_position f v + seeker_fee f v ≡ v
unfolding seeker_position
seeker_position_lem f v hf hv =
    omega
      (arith, seeker_fee-le f v hf hv, U64.sub_lem v (seeker_fee f v) hv (seeker_fee-le f v hf hv))

-- For a `u64` feerate f and a `u64` value, the position is the value scaled by D / (D + f) and rounded
-- up, D being the denominator of the feerate.
pub seeker_position_bounds :
    (f v : ℕ)
    → f < 2 ^ 64
    → v < 2 ^ 64
    → let d = feerate_unit_denominator in
      (v * d ≤ seeker_position f v * (d + f)) × (seeker_position f v * (d + f) < v * d + (d + f))
seeker_position_bounds f v hf hv =
    let d = feerate_unit_denominator in
    let fee = v * f / (d + f) in
    let low : (d + f) * fee ≤ v * f = mul-div-le (v * f) (d + f) in
    let high : v * f < (d + f) * (fee + 1) = lt-mul-div-succ (v * f) (omega arith) in
    let split : (seeker_position f v + fee) * (d + f) ≡ v * (d + f) =
      ap (λ (t : ℕ). t * (d + f))
        (rw (seeker_fee_lem f v hf hv) at (seeker_position_lem f v hf hv)) in
    (grind arith, grind arith)
