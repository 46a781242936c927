-- ===== src/StabilityCore/Payouts/Conservation.antt =====
-- `calculate_payouts` pays out exactly what went in, and never panics on the entries of an epoch.
use stabilitypool.Base.{ℕ, ◌+◌, ◌-◌, ◌^◌, ◌≤◌, ◌<◌, ◌≡◌, ok, arith, ==_refl}
use stabilitypool.Base.U64
use stabilitypool.BTreeMap
use stabilitypool.BTreeMap.{BTreeMap, IsSorted}
use stabilitypool.BTreeMap.Totals.{total, sum-values}
use stabilitypool.StabilityCore.Feerate.{EpochFeerate, seeker_fee}
use stabilitypool.StabilityCore.Feerate.Fees.{seeker_fee-le}
use stabilitypool.StabilityCore.Payouts.{seeker_total, calculate_payouts}
use stabilitypool.StabilityCore.Payouts.Shares.{IsShared, IsPaidOut, share_out-IsPaidOut}

-- The entries of an epoch that has both seekers and providers, with amounts that fit.
pub record IsEpoch (feerate : EpochFeerate) (seekers providers : BTreeMap ℕ) : Type 0 where
  pub feerate_lt : feerate < 2 ^ 64
  pub seekers_sorted : IsSorted seekers
  pub providers_sorted : IsSorted providers
  pub seekers_pos : 0 < total seekers
  pub providers_pos : 0 < total providers
  pub pool_lt : total seekers + total providers < 2 ^ 63

pub sum_from-values :
    (m : BTreeMap ℕ) → total m < 2 ^ 64 → U64.sum_from 0 (BTreeMap.values m) ≡ total m
sum_from-values m h =
    omega
      (arith, sum-values m, U64.sum_from_lem 0 (BTreeMap.values m) (omega (arith, sum-values m)))

module _ {f : EpochFeerate} {ss ps : BTreeMap ℕ} (epoch : IsEpoch f ss ps) (start end : ℕ) where
  -- The seekers' total of `calculate_payouts`.
  abbrev pub seekers_due : ℕ
  seekers_due = seeker_total f (total ss) (total ps + total ss) start end

  -- The seekers' total leaves the fee in the pool.
  pub seekers_due-le : seekers_due + seeker_fee f (total ss) ≤ total ss + total ps
  unfolding seeker_total
  seekers_due-le =
      let fee-le = seeker_fee-le f (total ss) epoch.feerate_lt (omega (arith, epoch.pool_lt)) in
      let left =
        U64.sub_lem (total ps + total ss) (seeker_fee f (total ss)) (omega (arith, epoch.pool_lt))
          (omega arith) in
      omega (arith, left)

  pub calculate_payouts_lem :
      (sp pp : BTreeMap ℕ) × (calculate_payouts f ss ps start end ≡ ok (sp, pp))
      × IsPaidOut seekers_due ss sp
      × IsPaidOut (total ss + total ps - seekers_due) ps pp
  unfolding calculate_payouts
  calculate_payouts_lem =
      let lt = epoch.pool_lt in
      let due-le = seekers_due-le in
      let t : ℕ = total ss + total ps - seekers_due in
      let (pp, paid, all) =
        share_out-IsPaidOut t ps epoch.providers_sorted epoch.providers_pos (omega arith)
          (omega arith) in
      let (sp, paid', all') =
        share_out-IsPaidOut seekers_due ss epoch.seekers_sorted epoch.seekers_pos (omega arith)
          (omega arith) in
      let pooled : U64.add (total ps) (total ss) ≡ total ps + total ss =
        U64.add_lem _ _ (omega arith) in
      let rest : U64.sub (total ps + total ss) seekers_due ≡ t =
        omega (arith, U64.sub_lem (total ps + total ss) seekers_due (omega arith) (omega arith)) in
      let final : U64.add (total sp) (total pp) ≡ total ps + total ss =
        omega (
          arith,
          U64.add_lem (total sp) (total pp) (omega (arith, all.0, all'.0)),
          all.0,
          all'.0,
        ) in
      (
        sp,
        pp,
        rw (sum_from-values ps (omega arith), sum_from-values ss (omega arith), pooled)
            (rw (rest, paid, paid')
              (rw (
                sum_from-values sp (omega (arith, all'.0)),
                sum_from-values pp (omega (arith, all.0)),
                final,
                ==_refl (total ps + total ss),
              ))),
        all',
        all,
      )

  -- In an epoch with seekers and providers, entries in the order of their accounts, a `u64` feerate
  -- and less than 2 ^ 63 locked, the payouts are computed with no panic, and for any two prices
  -- they add up to what was locked, each side's payouts go to the accounts of its entries in
  -- proportion to their amounts up to one unit, and the providers get the fee at the least.
  pub calculate_payouts_conserves :
      (sp pp : BTreeMap ℕ) × (calculate_payouts f ss ps start end ≡ ok (sp, pp))
      × (total sp + total pp ≡ total ss + total ps)
      × IsShared (total sp) (total ss) ss sp
      × IsShared (total pp) (total ps) ps pp
      × (seeker_fee f (total ss) ≤ total pp)
  calculate_payouts_conserves =
      let (sp, pp, done, all', all) = calculate_payouts_lem in
      (
        sp,
        pp,
        done,
        omega (arith, all.0, all'.0, seekers_due-le),
        rw (all'.0) (all'.1),
        rw (all.0) (all.1),
        omega (arith, all.0, seekers_due-le),
      )
