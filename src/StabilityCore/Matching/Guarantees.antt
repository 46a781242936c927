-- ===== src/StabilityCore/Matching/Guarantees.antt =====
-- What `match_locks_and_bids` returns.

use stabilitypool.Base.{
  ℕ, ◌+◌, ◌-◌, ◌*◌, ◌/◌, ◌≤◌, ◌<◌, ◌≡◌, refl, ap, ◌∙◌, List, [], ◌∷◌, ok, All, arith, ltb, ◌⊎◌, inl,
  inr,
}
use stabilitypool.Base.U64
use stabilitypool.BTreeMap.{BTreeMap}
use stabilitypool.BTreeMap.Totals.{total}
use stabilitypool.StabilityCore.Ratio.{CollateralRatio}
use stabilitypool.StabilityCore.Feerate.{EpochFeerate, seeker_position}
use stabilitypool.StabilityCore.Desired.{ProviderBid}
use stabilitypool.StabilityCore.Matching.{max_total_seeker_value, empty_selection}
use stabilitypool.StabilityCore.Matching.Step.{backed-le}
use stabilitypool.StabilityCore.Matching.Loop.{bid_total}
use native.Mathlib.Nat.{le-div_iff_mul-le}
use stabilitypool.Base.{filter, min}
use stabilitypool.StabilityCore.Ratio.{
  collateral_for_provider_position, position_for_provider_collateral,
}
use stabilitypool.StabilityCore.Ratio.Bounds.{collateral_lem, position_lem}
use stabilitypool.StabilityCore.Feerate.{provider_fee, feerate_unit_denominator}
use stabilitypool.StabilityCore.Desired.{SeekerLock}
use stabilitypool.StabilityCore.Matching.{match_locks_and_bids}
use stabilitypool.StabilityCore.Matching.Sorting.{sum-sort_bids}
use stabilitypool.StabilityCore.Matching.Demand.{demand_of}
use stabilitypool.StabilityCore.Matching.Search.{find_feerate_lem}
use stabilitypool.Base.{sym}
use stabilitypool.StabilityCore.Matching.Step.{position-le, needed-lt}
use stabilitypool.StabilityCore.Matching.Demand.{retain_locks_keeps}
use stabilitypool.StabilityCore.Matching.Result.{
  IsMarket, queue, demand, demand-le, offer, start-IsSelected, start-AreLeft, backing, fee_bounds,
  fee_fits, entered, IsMatched, entered_lem,
}
use stabilitypool.StabilityCore.Matching.Cover.{full_demand, entered-backed_up}

ok-injective : {a b : ℕ} → ok a ≡ ok b → a ≡ b
ok-injective e = cc

module _ {r : CollateralRatio} {balance : ℕ → ℕ} {locks : List SeekerLock} {bids : List ProviderBid}
    (market : IsMarket r balance locks bids) where
  abbrev pub IsBalanced : EpochFeerate → (seekers providers : BTreeMap ℕ) → Type 0
  IsBalanced f se pe =
      (total se ≡ demand market)
      × (collateral_for_provider_position r (seeker_position f (demand market)) ≡ ok (total pe))

  abbrev pub IsPartial : EpochFeerate → (seekers providers : BTreeMap ℕ) → Type 0
  IsPartial f se pe =
      (position fee : ℕ) × (position_for_provider_collateral r (total pe) ≡ ok position)
      × (provider_fee f (total pe) r ≡ ok fee)
      × (position < demand market)
      × (total se ≡ min (position + fee) (demand market))

  -- On a market (a ratio without 0 and of at most 87 on the provider side, one lock and one bid for
  -- an account at the most, feerates of at most 100 %, amounts that fit) the matching returns two
  -- maps in the order of the accounts in which every entry is more than 0 and at most the balance
  -- behind the lock or the bid, with no seeker if there is no provider. Either all of the
  -- retained demand is locked, against exactly the collateral that its position needs at the
  -- feerate, or the collateral backs less than the demand, and the seekers lock the position that
  -- it backs together with its fee, or all of the demand if that is less.
  pub match_locks_and_bids_lem :
      (f : EpochFeerate) × (se pe : BTreeMap ℕ) × (match_locks_and_bids locks bids r
        ≡ ok (f, se, pe))
      × IsMatched balance f se pe
      × (IsBalanced f se pe ⊎ IsPartial f se pe)
  unfolding match_locks_and_bids
  match_locks_and_bids_lem =
      let (found, done, good) =
        find_feerate_lem market.pool (demand market) (demand-le market) balance (offer market)
          (queue bids) empty_selection (start-IsSelected market) (start-AreLeft market) in
      let (fits, fee, position) = fee_fits market found good in
      let f-lt = (fee_bounds market found good).0 in
      let p = backing market found.collateral in
      let (sum, sorted, bounds) = entered_lem market found good in
      let added = U64.add_lem p (p * found.feerate / feerate_unit_denominator) fits in
      (
        found.feerate,
        entered market found,
        found.entries,
        rw done (rw fee (rw position (rw added))),
        record {
          feerate_lt = f-lt;
          seekers_sorted = sorted;
          providers_sorted = good.sorted;
          seekers_within = bounds;
          providers_within = good.within;
          backed_up = entered-backed_up market found good;
        },
        elim good.outcome [
          | inl (exact, le, _) ↦
              let whole = full_demand market found good le in
              inl (
                omega (arith, sum, whole),
                collateral_lem market.pool.valid (seeker_position found.feerate (demand market))
                      (omega (
                        arith,
                        position-le market.pool (demand market) (demand-le market) found.feerate
                            f-lt,
                        demand-le market,
                      ))
                      (needed-lt market.pool (demand market) (demand-le market) found.feerate f-lt)
                    ∙ ap ok (sym exact),
              )
          | inr (exact, lt, _) ↦ inr (
            p,
            p * found.feerate / feerate_unit_denominator,
            rw exact position,
            rw exact fee,
            lt,
            sum,
          )
        ],
      )

  filter-bid_total :
      (bs : List ProviderBid)
      → bid_total (filter (λ (bid : ProviderBid). ltb 0 bid.max_value) bs) ≡ bid_total bs
  filter-bid_total [] = refl
  filter-bid_total (b ∷ bs) = ground (arith, filter-bid_total bs)

  -- On a market (a ratio without 0 and of at most 87 on the provider side, one lock and one bid for
  -- an account at the most, feerates of at most 100 %, amounts that fit), if the position that all
  -- the bids together back reaches the sum of the locks, none of which is empty, and that sum keeps
  -- to the limit of the pool, the whole of it is locked.
  pub match_locks_and_bids_covers :
      All (λ l. 0 < l.value) locks
      → demand_of locks ≤ max_total_seeker_value
      → (position : ℕ) → position_for_provider_collateral r (bid_total bids) ≡ ok position
      → demand_of locks ≤ position
      → (f : EpochFeerate) × (se pe : BTreeMap ℕ) × (match_locks_and_bids locks bids r
          ≡ ok (f, se, pe))
        × (total se ≡ demand_of locks)
  unfolding match_locks_and_bids
  match_locks_and_bids_covers filled small position backs reach =
      let (found, done, good) =
        find_feerate_lem market.pool (demand market) (demand-le market) balance (offer market)
          (queue bids) empty_selection (start-IsSelected market) (start-AreLeft market) in
      let (fits, fee, taken) = fee_fits market found good in
      let p = backing market found.collateral in
      let f = found.feerate in
      let u = feerate_unit_denominator in
      let (sum, sorted, bounds) = entered_lem market found good in
      let added = U64.add_lem p (p * f / u) fits in
      let whole : demand market ≡ demand_of locks =
        ap (λ (t : ℕ × List SeekerLock). t.0) (retain_locks_keeps 0 locks (omega arith) filled)
        ∙ omega arith in
      let all : offer market ≡ bid_total bids =
        sum-sort_bids (λ b. b.max_value) (filter (λ (bid : ProviderBid). ltb 0 bid.max_value) bids)
        ∙ filter-bid_total bids in
      let bids-fit : bid_total bids ≤ bid_total bids * r.seeker =
        grind (arith, market.pool.valid.seeker_pos) in
      let enough : backing market (bid_total bids) ≡ position = ok-injective (
        sym (
          position_lem market.pool.valid (bid_total bids) (omega (arith, market.fits)) (
            omega (
              arith,
              market.fits,
              backed-le market.pool (demand market) (demand-le market) (bid_total bids),
            )))
        ∙ backs) in
      let covered : demand market ≤ p + p * f / u = elim good.outcome [
        | inl (_, le, _) ↦ full_demand market found good le
        | inr (_, lt, inl (_, last)) ↦
            let same : p ≡ position = ap (λ (c : ℕ). backing market c) (last ∙ all) ∙ enough in
            absurd (omega arith)
        | inr (_, lt, inr (_, _, high)) ↦
            let rest : demand market - p ≤ p * f / u =
              (le-div_iff_mul-le {k = u} {x = demand market - p} {y = p * f} (omega arith)).1
                (omega arith) in
            omega arith
      ] in
      (f, entered market found, found.entries, rw done (rw fee (rw taken (rw added))), omega arith)
