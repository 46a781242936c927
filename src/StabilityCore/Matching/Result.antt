-- ===== src/StabilityCore/Matching/Result.antt =====
-- The entries that `match_locks_and_bids` makes of what its loop found.
use native.Mathlib.Nat.{mul-le-mul_right}
use stabilitypool.Base.{
  ℕ, ◌+◌, ◌-◌, ◌*◌, ◌/◌, ◌^◌, ◌≤◌, ◌<◌, ◌≡◌, refl, none, List, [], ◌∷◌, ok, All, arith, ltb, ◌⊎◌,
  inl, inr,
}
use stabilitypool.Base.U64
use stabilitypool.BTreeMap
use stabilitypool.BTreeMap.{BTreeMap, IsSorted}
use stabilitypool.BTreeMap.Totals.{total}
use stabilitypool.StabilityCore.Ratio.{CollateralRatio}
use stabilitypool.StabilityCore.Desired.{ProviderBid}
use stabilitypool.StabilityCore.Matching.{max_total_seeker_value, empty_selection, Found}
use stabilitypool.StabilityCore.Matching.Sorting.{Distinct}
use stabilitypool.StabilityCore.Matching.Step.{IsPoolRatio, backed, backed-le}
use stabilitypool.StabilityCore.Matching.Loop.{IsSelected, AreLeft, IsFound, IsWithin, bid_total}
use native.Mathlib.Nat.{div-le_of_le-mul, mul-le-mul_left}
use stabilitypool.Base.{filter, All-filter, sum_of-filter-le, min}
use stabilitypool.Base.U128
use stabilitypool.StabilityCore.Ratio.{position_for_provider_collateral}
use stabilitypool.StabilityCore.Ratio.Bounds.{position_lem}
use stabilitypool.StabilityCore.Feerate.{provider_fee, feerate_unit_denominator}
use stabilitypool.StabilityCore.Desired.{SeekerLock}
use stabilitypool.StabilityCore.Matching.{retain_locks, sort_bids, fill_seekers}
use stabilitypool.StabilityCore.Matching.Sorting.{
  filter-Distinct, sort_bids-Distinct, sum-sort_bids, All-sort_bids,
}
use stabilitypool.StabilityCore.Matching.Demand.{
  retain_locks_lem, All-retain_locks, retain_locks-Distinct, fill_seekers_lem,
}

-- What the locks and the bids of an epoch satisfy: one lock and one bid for an account at the most,
-- within the account's balance, feerates of at most 100 %, and amounts whose position fits.
pub record IsMarket (r : CollateralRatio) (balance : ℕ → ℕ) (locks : List SeekerLock)
    (bids : List ProviderBid) : Type 0 where
  pub pool : IsPoolRatio r
  pub seekers_distinct : Distinct (λ l. l.account_id) locks
  pub providers_distinct : Distinct (λ b. b.account_id) bids
  pub locks_covered : All (λ l. l.value ≤ balance l.account_id) locks
  pub bids_covered : All (λ b. b.max_value ≤ balance b.account_id) bids
  pub cheap : All (λ b. b.min_feerate ≤ 1_000_000) bids
  pub fits : bid_total bids * r.seeker < 2 ^ 63

-- What the matching returns: both maps in order, no entry 0 or above the balance of its account, and
-- no seeker without a provider.
pub record IsMatched (balance : ℕ → ℕ) (feerate : ℕ) (seekers providers : BTreeMap ℕ) : Type 0 where
  pub feerate_lt : feerate < 2 ^ 64
  pub seekers_sorted : IsSorted seekers
  pub providers_sorted : IsSorted providers
  pub seekers_within : IsWithin balance seekers
  pub providers_within : IsWithin balance providers
  pub backed_up : (total seekers ≡ 0) ⊎ (0 < total providers)

-- The bids in the order in which the loop takes them.
abbrev pub queue : List ProviderBid → List ProviderBid
queue bids = sort_bids (filter (λ (bid : ProviderBid). ltb 0 bid.max_value) bids)

module _ {r : CollateralRatio} {balance : ℕ → ℕ} {locks : List SeekerLock} {bids : List ProviderBid}
    (market : IsMarket r balance locks bids) where
  abbrev pub demand : ℕ
  demand = (retain_locks 0 locks).0

  pub demand-le : demand ≤ max_total_seeker_value
  demand-le = (retain_locks_lem 0 locks (omega arith)).1

  abbrev pub offer : ℕ
  offer = bid_total (queue bids)

  offer-le : offer ≤ bid_total bids
  offer-le = omega (
    arith,
    sum-sort_bids (λ b. b.max_value) (filter (λ (bid : ProviderBid). ltb 0 bid.max_value) bids),
    sum_of-filter-le (λ (b : ProviderBid). b.max_value) (λ bid. ltb 0 bid.max_value) bids,
  )

  queue-All {ℓ} : (P : ProviderBid → Type ℓ) → All P bids → All P (queue bids)
  queue-All P h =
      All-sort_bids P (filter (λ (bid : ProviderBid). ltb 0 bid.max_value) bids)
        (All-filter P (λ bid. ltb 0 bid.max_value) bids h)

  pub start-IsSelected : IsSelected market.pool demand demand-le balance offer empty_selection
  start-IsSelected = record {
    feerate_le = omega arith;
    sorted = tt;
    sum = refl;
    within = tt;
    marginal = refl;
  }

  pub start-AreLeft :
      AreLeft market.pool demand demand-le balance offer empty_selection (queue bids)
  unfolding BTreeMap.get
  start-AreLeft =
      let scaled : offer * r.seeker ≤ bid_total bids * r.seeker =
        mul-le-mul_right r.seeker offer-le in
      record {
        absent = all_absent (queue bids);
        distinct = sort_bids-Distinct (filter (λ (bid : ProviderBid). ltb 0 bid.max_value) bids) (
            filter-Distinct (λ (b : ProviderBid). b.account_id) (λ bid. ltb 0 bid.max_value) bids
              market.providers_distinct);
        covered =
            All-sort_bids (λ b. (0 < b.max_value) × (b.max_value ≤ balance b.account_id))
              (filter (λ (bid : ProviderBid). ltb 0 bid.max_value) bids)
              (filled bids market.bids_covered);
        cheap = queue-All (λ b. b.min_feerate ≤ 1_000_000) market.cheap;
        everything = omega arith;
        fits = omega (arith, market.fits, scaled);
      }
    where
      filled :
          (bs : List ProviderBid)
          → All (λ b. b.max_value ≤ balance b.account_id) bs
          → All
              (λ b. (0 < b.max_value) × (b.max_value ≤ balance b.account_id))
              (filter (λ (bid : ProviderBid). ltb 0 bid.max_value) bs)
      filled [] h = tt
      filled (b ∷ bs) h = ground (arith, filled bs h.1)

      all_absent :
          (bs : List ProviderBid) → All (λ b. BTreeMap.get {V = ℕ} b.account_id [] ≡ none) bs
      all_absent [] = tt
      all_absent (b ∷ bs) = (refl, all_absent bs)

  -- The result of the loop on this market.
  abbrev pub IsFoundHere : Found → Type 0
  IsFoundHere = IsFound market.pool demand demand-le balance offer

  abbrev pub backing : ℕ → ℕ
  backing = backed market.pool demand demand-le

  pub fee_bounds :
      (found : Found)
      → IsFoundHere found
      → let p = backing found.collateral in
        (found.feerate < 2 ^ 64) × (p + p * found.feerate / feerate_unit_denominator < 2 ^ 64)
  fee_bounds found good =
      let p = backing found.collateral in
      let f = found.feerate in
      let u = feerate_unit_denominator in
      let small : p < 2 ^ 63 =
        omega (arith, backed-le market.pool demand demand-le found.collateral, good.fits) in
      let capped : f ≤ u → (f < 2 ^ 64) × (p + p * f / u < 2 ^ 64) = λ le.
        let scaled : p * f ≤ p * u = mul-le-mul_left p le in
        let fee : p * f / u ≤ p = div-le_of_le-mul u (omega arith) in (omega arith, omega arith) in
      elim good.outcome [
        | inl (_, _, le) ↦ capped le
        | inr (_, _, inl (le, _)) ↦ capped le
        | inr (_, lt, inr (f-lt, up, _)) ↦
            let fee : p * f / u ≤ demand - p + 1 = div-le_of_le-mul u (omega (arith, demand-le)) in
            (f-lt, omega (arith, demand-le))
      ]

  -- The fee on a position that the loop can end with.
  pub fee_fits :
      (found : Found)
      → IsFoundHere found
      → let p = backing found.collateral in
        let fee = p * found.feerate / feerate_unit_denominator in
        (p + fee < 2 ^ 64)
        × (provider_fee found.feerate found.collateral r ≡ ok fee)
        × (position_for_provider_collateral r found.collateral ≡ ok p)
  unfolding provider_fee
  fee_fits found good =
      let p = backing found.collateral in
      let f = found.feerate in
      let u = feerate_unit_denominator in
      let p-le = backed-le market.pool demand demand-le found.collateral in
      let coll-le : found.collateral ≤ found.collateral * r.seeker =
        grind (arith, market.pool.valid.seeker_pos) in
      let position =
        position_lem market.pool.valid found.collateral (omega (arith, good.fits))
          (omega (arith, good.fits)) in
      let (f-lt, fee-le) : (f < 2 ^ 64) × (p + p * f / u < 2 ^ 64) = fee_bounds found good in
      let exact = U128.mul_lem p f (omega (arith, good.fits)) f-lt in
      (fee-le, rw position (rw (exact, U64.of_u128_lem (p * f / u) (omega arith))), position)

  -- The seekers' entries for what the loop found.
  abbrev pub entered : Found → BTreeMap ℕ
  entered found =
      let p = backing found.collateral in
      fill_seekers (p + p * found.feerate / feerate_unit_denominator) (retain_locks 0 locks).1 []

  pub entered_lem :
      (found : Found)
      → IsFoundHere found
      → let p = backing found.collateral in
        (total (entered found) ≡ min (p + p * found.feerate / feerate_unit_denominator) demand)
        × IsSorted (entered found)
        × All (λ e. (0 < e.1) × (e.1 ≤ balance e.0)) (entered found)
  unfolding BTreeMap.get
  entered_lem found good =
      let p = backing found.collateral in
      let (sum, _, pos) = retain_locks_lem 0 locks (omega arith) in
      let (filled, sorted, bounds) =
        fill_seekers_lem balance (p + p * found.feerate / feerate_unit_denominator)
          (retain_locks 0 locks).1 [] (fee_fits found good).0 pos
          (All-retain_locks (λ l. l.value ≤ balance l.account_id) 0 locks market.locks_covered)
          (retain_locks-Distinct 0 locks market.seekers_distinct)
          (all_absent (retain_locks 0 locks).1) tt tt in
      (omega (arith, filled, sum), sorted, bounds)
    where
      all_absent :
          (ls : List SeekerLock) → All (λ l. BTreeMap.get {V = ℕ} l.account_id [] ≡ none) ls
      all_absent [] = tt
      all_absent (l ∷ ls) = (refl, all_absent ls)
