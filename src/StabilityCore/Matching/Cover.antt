-- ===== src/StabilityCore/Matching/Cover.antt =====
-- How the collateral that the loop of `match_locks_and_bids` found covers the demand.
use native.Mathlib.Nat.{mul-le-mul_right}
use stabilitypool.Base.{
  ℕ, ◌+◌, ◌-◌, ◌*◌, ◌/◌, ◌≤◌, ◌<◌, ◌≡◌, List, arith, ◌==◌, Bool-cases, ◌⊎◌, inl, inr,
}
use stabilitypool.BTreeMap.Totals.{total}
use stabilitypool.StabilityCore.Ratio.{CollateralRatio}
use stabilitypool.StabilityCore.Feerate.{seeker_position}
use stabilitypool.StabilityCore.Desired.{ProviderBid}
use stabilitypool.StabilityCore.Matching.{Found}
use stabilitypool.StabilityCore.Matching.Step.{needed, needed-le_iff, backed-le}
use native.Mathlib.Nat.{le-div_iff_mul-le}
use stabilitypool.StabilityCore.Ratio.Bounds.{ceil-le_iff}
use stabilitypool.StabilityCore.Feerate.{feerate_unit_denominator}
use stabilitypool.StabilityCore.Feerate.Fees.{seeker_position_bounds}
use stabilitypool.StabilityCore.Desired.{SeekerLock}
use stabilitypool.StabilityCore.Matching.Result.{
  IsMarket, demand, demand-le, IsFoundHere, backing, fee_bounds, entered, entered_lem,
}

module _ {r : CollateralRatio} {balance : ℕ → ℕ} {locks : List SeekerLock} {bids : List ProviderBid}
    (market : IsMarket r balance locks bids) where
  -- Enough collateral and its fee take in the whole demand.
  pub full_demand :
      (found : Found)
      → IsFoundHere market found
      → needed market.pool (demand market) (demand-le market) found.feerate ≤ found.collateral
      → let p = backing market found.collateral in
        (demand market) ≤ p + p * found.feerate / feerate_unit_denominator
  full_demand found good le =
      let p = backing market found.collateral in
      let f = found.feerate in
      let u = feerate_unit_denominator in
      let reach =
        (needed-le_iff market.pool (demand market) (demand-le market) f found.collateral).0 le in
      let (covers, _) =
        seeker_position_bounds f (demand market) (fee_bounds market found good).0
          (omega (arith, (demand-le market))) in
      let scaled : seeker_position f (demand market) * (u + f) ≤ p * (u + f) =
        mul-le-mul_right (u + f) reach in
      let rest : (demand market) - p ≤ p * f / u =
        (le-div_iff_mul-le {k = u} {x = (demand market) - p} {y = p * f} (omega arith)).1
          (omega arith) in
      omega arith

  -- Where no collateral is entered, no seeker is.
  pub entered-backed_up :
      (found : Found)
      → IsFoundHere market found
      → (total (entered market found) ≡ 0) ⊎ (0 < total found.entries)
  entered-backed_up found good =
      let c = found.collateral in
      let f = found.feerate in
      let sum = (entered_lem market found good).0 in
      let position = seeker_position f (demand market) in
      elim good.outcome [
        | inl (exact, _, _) ↦ elim (Bool-cases (demand market == 0)) [
          | inl none_wanted ↦ inl (ground (arith, sum))
          | inr wanted ↦
              let (covers, _) =
                seeker_position_bounds f (demand market) (fee_bounds market found good).0
                  (omega (arith, (demand-le market))) in
              let wanted' : 0 < (demand market) = ground arith in
              let some_position : 0 < position = grind arith in
              let scaled : position ≤ position * r.provider =
                grind (arith, market.pool.valid.provider_pos) in
              inr
                (elim (Bool-cases (needed market.pool (demand market) (demand-le market) f == 0)) [
                  | inl empty ↦
                      let le : needed market.pool (demand market) (demand-le market) f ≤ 0 =
                        ground arith in
                      absurd (
                        omega (
                          arith,
                          (ceil-le_iff (position * r.provider) r.seeker 0
                                market.pool.valid.seeker_pos).0
                              le,
                        ))
                  | inr filled ↦ ground (arith, exact)
                ])
        ]
        | inr (exact, _, _) ↦ elim (Bool-cases (c == 0)) [
          | inl empty ↦
              let nothing : c ≡ 0 = ground arith in
              let p0 : backing market c ≡ 0 =
                grind (arith, backed-le market.pool (demand market) (demand-le market) c) in
              let no_fee : backing market c * f ≡ 0 = rw p0 (omega arith) in
              inl (omega (arith, sum, no_fee))
          | inr filled ↦ inr (ground (arith, exact))
        ]
      ]
