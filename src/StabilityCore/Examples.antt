-- ===== src/StabilityCore/Examples.antt =====
-- Concrete epochs and markets, and the theorems on stability_core.rs at them.

use stabilitypool.Base.{
  ℕ, ◌+◌, ◌-◌, ◌*◌, ◌≤◌, ◌<◌, min, ◌≡◌, refl, ◌↔◌, ◌⊎◌, List, [], ◌∷◌, ok, arith,
}
use stabilitypool.Base.Int.{negsuc, ◌*ℤ◌, sub_ℕ, tdiv}
use stabilitypool.Base.I64
use stabilitypool.BTreeMap.{BTreeMap}
use stabilitypool.BTreeMap.Totals.{total}
use stabilitypool.StabilityCore.Ratio.{
  default_ratio, collateral_for_provider_position, position_for_provider_collateral,
}
use stabilitypool.StabilityCore.Ratio.Bounds.{IsRatio, position_lem, collateral-le_iff_le-position}
use stabilitypool.StabilityCore.Feerate.{EpochFeerate, seeker_fee, seeker_position}
use stabilitypool.StabilityCore.Pnl.{pnl_for_price}
use stabilitypool.StabilityCore.Pnl.Bounds.{pnl_for_price_lem}
use stabilitypool.StabilityCore.Payouts.{calculate_payouts}
use stabilitypool.StabilityCore.Payouts.Shares.{IsShared}
use stabilitypool.StabilityCore.Payouts.Conservation.{IsEpoch, calculate_payouts_conserves}
use stabilitypool.StabilityCore.Payouts.Value.{
  calculate_payouts_keeps_value, calculate_payouts_worthless,
}
use stabilitypool.StabilityCore.Desired.{SeekerLock, ProviderBid}
use stabilitypool.StabilityCore.Matching.{match_locks_and_bids}
use stabilitypool.StabilityCore.Matching.Demand.{demand_of}
use stabilitypool.StabilityCore.Matching.Result.{IsMarket, IsMatched}
use stabilitypool.StabilityCore.Matching.Guarantees.{
  IsBalanced, IsPartial, match_locks_and_bids_lem, match_locks_and_bids_covers,
}
use stabilitypool.StabilityCore.Tests.{lock, bid}

abbrev seekers : BTreeMap ℕ
seekers = (1, 1_000_000) ∷ (4, 500_000) ∷ []

abbrev providers : BTreeMap ℕ
providers = (2, 1_000_000) ∷ (3, 700_000) ∷ []

abbrev tenth : EpochFeerate
tenth = 100_000_000_000_000_000

seekers_and_providers : IsEpoch tenth seekers providers
seekers_and_providers = record {
  feerate_lt = omega arith;
  seekers_sorted = ((omega arith, tt), (tt, tt));
  providers_sorted = ((omega arith, tt), (tt, tt));
  seekers_pos = omega arith;
  providers_pos = omega arith;
  pool_lt = omega arith;
}

calculate_payouts_conserves_example :
    (sp pp : BTreeMap ℕ) × (calculate_payouts tenth seekers providers 20_000 15_000 ≡ ok (sp, pp))
    × (total sp + total pp ≡ total seekers + total providers)
    × IsShared (total sp) (total seekers) seekers sp
    × IsShared (total pp) (total providers) providers pp
    × (seeker_fee tenth (total seekers) ≤ total pp)
calculate_payouts_conserves_example =
    calculate_payouts_conserves seekers_and_providers 20_000 15_000

calculate_payouts_keeps_value_example :
    let position = seeker_position tenth (total seekers) in
    (sp pp : BTreeMap ℕ) × (w : ℕ) × (calculate_payouts tenth seekers providers 20_000 15_000
      ≡ ok (sp, pp))
    × (total sp ≡ min w (total seekers + total providers - seeker_fee tenth (total seekers)))
    × (w * 15_000 < position * 20_000 + 15_000)
    × (position * 20_000 < w * 15_000 + 15_000)
calculate_payouts_keeps_value_example =
    calculate_payouts_keeps_value seekers_and_providers 20_000 15_000 (omega arith) (omega arith)
      (omega arith)

calculate_payouts_worthless_example :
    (sp pp : BTreeMap ℕ) × (calculate_payouts tenth seekers providers 20_000 0 ≡ ok (sp, pp))
    × (total sp ≡ total seekers + total providers - seeker_fee tenth (total seekers))
    × (total pp ≡ seeker_fee tenth (total seekers))
calculate_payouts_worthless_example =
    calculate_payouts_worthless seekers_and_providers 20_000 0 refl

default_ratio-IsRatio : IsRatio default_ratio
default_ratio-IsRatio = record {
  seeker_pos = omega arith;
  seeker_lt = omega arith;
  provider_pos = omega arith;
  provider_lt = omega arith;
}

abbrev some_locks : List SeekerLock
some_locks = lock 1 10_000_000 ∷ lock 2 30_000_000 ∷ []

abbrev one_bid : List ProviderBid
one_bid = bid 3 100_000 20_000_000 ∷ []

abbrev balance : ℕ → ℕ
balance _ = 30_000_000

some_market : IsMarket default_ratio balance some_locks one_bid
some_market = record {
  pool = record { valid = default_ratio-IsRatio; provider_le = omega arith };
  seekers_distinct = ((λ e. absurd (omega arith), tt), (tt, tt));
  providers_distinct = (tt, tt);
  locks_covered = (omega arith, (omega arith, tt));
  bids_covered = (omega arith, tt);
  cheap = (omega arith, tt);
  fits = omega arith;
}

match_locks_and_bids_example :
    (f : EpochFeerate) × (se pe : BTreeMap ℕ) × (match_locks_and_bids some_locks one_bid
        default_ratio
      ≡ ok (f, se, pe))
    × IsMatched balance f se pe
    × (IsBalanced some_market f se pe ⊎ IsPartial some_market f se pe)
match_locks_and_bids_example = match_locks_and_bids_lem some_market

abbrev small_lock : List SeekerLock
small_lock = lock 1 10_000_000 ∷ []

small_market : IsMarket default_ratio balance small_lock one_bid
small_market = record {
  pool = record { valid = default_ratio-IsRatio; provider_le = omega arith };
  seekers_distinct = (tt, tt);
  providers_distinct = (tt, tt);
  locks_covered = (omega arith, tt);
  bids_covered = (omega arith, tt);
  cheap = (omega arith, tt);
  fits = omega arith;
}

match_locks_and_bids_covers_example :
    (f : EpochFeerate) × (se pe : BTreeMap ℕ) × (match_locks_and_bids small_lock one_bid
        default_ratio
      ≡ ok (f, se, pe))
    × (total se ≡ demand_of small_lock)
match_locks_and_bids_covers_example =
    match_locks_and_bids_covers small_market (omega arith, tt) (omega arith) 20_000_000
      (position_lem default_ratio-IsRatio 20_000_000 (omega arith) (omega arith)) (omega arith)

collateral-le_iff_le-position_example :
    (needed backed : ℕ) × (collateral_for_provider_position default_ratio 1_000 ≡ ok needed)
    × (position_for_provider_collateral default_ratio 2_000 ≡ ok backed)
    × ((needed ≤ 2_000) ↔ (1_000 ≤ backed))
collateral-le_iff_le-position_example =
    collateral-le_iff_le-position default_ratio-IsRatio 1_000 2_000 (omega arith) (omega arith)
      (omega arith) (omega arith)

pnl_for_price_example :
    pnl_for_price (negsuc 999) 20_000 15_000
    ≡ I64.clamp (tdiv (negsuc 999 *ℤ sub_ℕ 15_000 20_000) 15_000)
pnl_for_price_example =
    pnl_for_price_lem (negsuc 999) 20_000 15_000 (omega arith) (omega arith) (omega arith)
      (omega arith) (omega arith)
