-- ===== src/StabilityCore/Matching.antt =====
-- stability_core.rs, `match_locks_and_bids`: the feerate of an epoch and who is in it. The loop that
-- looks for the feerate is `find_feerate`, one call a round: it consumes a bid or breaks. The
-- `debug_assert!`s are absent from a release build.
pub mod Sorting
pub mod Demand
pub mod Step
pub mod Loop
pub mod Search
pub mod Result
pub mod Cover
pub mod Guarantees
pub mod Positions
use stabilitypool.Base.{
  ℕ, ◌+◌, ◌*◌, ◌/◌, min, Bool, true, false, ◌||◌, Option, none, some, List, [], ◌∷◌, filter, Exec,
  ok, panic, ◌>>=◌, draining_feerate_none, ltb, ◌==◌, if◌then◌else◌,
}
use stabilitypool.Base.Int.{ℤ, pos, negsuc, sub_ℕ}
use stabilitypool.Base.U64
use stabilitypool.Base.U128
use stabilitypool.BTreeMap
use stabilitypool.BTreeMap.{BTreeMap}
use stabilitypool.StabilityCore.Ratio.{
  CollateralRatio, ceiling_div, collateral_for_provider_position, position_for_provider_collateral,
}
use stabilitypool.StabilityCore.Feerate.{
  EpochFeerate, feerate_unit_denominator, from_ppm_feerate, seeker_position, provider_fee,
}
use stabilitypool.StabilityCore.Desired.{SeekerLock, ProviderBid}

-- TOTAL_MSAT
abbrev pub total_msat : ℕ
total_msat = 21_000_000 * 100_000_000 * 1_000

-- MAX_TOTAL_SEEKER_VALUE
abbrev pub max_total_seeker_value : ℕ
max_total_seeker_value = total_msat / 10

-- The derived order of `ProviderBid` goes by its fields from the first to the last.
unfoldable pub bid_lt : ProviderBid → ProviderBid → Bool
bid_lt a b =
    if ltb a.min_feerate b.min_feerate
    then true
    else if ltb b.min_feerate a.min_feerate
    then false
    else if ltb a.max_value b.max_value
    then true
    else if ltb b.max_value a.max_value
    then false
    else ltb a.account_id b.account_id

unfoldable pub insert_bid : ProviderBid → List ProviderBid → List ProviderBid
insert_bid b [] = b ∷ []
insert_bid b (c ∷ bids) = if bid_lt c b then c ∷ insert_bid b bids else b ∷ c ∷ bids

-- `provider_bids.sort()`
unfoldable pub sort_bids : List ProviderBid → List ProviderBid
sort_bids [] = []
sort_bids (b ∷ bids) = insert_bid b (sort_bids bids)

-- `seeker_locks.retain(…)`, which also adds up `total_seeker_demand`
unfoldable pub retain_locks : ℕ → List SeekerLock → ℕ × List SeekerLock
retain_locks total_seeker_demand [] = (total_seeker_demand, [])
retain_locks total_seeker_demand (l ∷ seeker_locks) =
    elim (l.value == 0
      || ltb max_total_seeker_value (U64.saturating_add total_seeker_demand l.value)) [
        | true ↦ retain_locks total_seeker_demand seeker_locks
        | false ↦
            let (demand, retained) =
              retain_locks (U64.add total_seeker_demand l.value) seeker_locks in
            (demand, l ∷ retained)
      ]

-- The variables of the loop.
pub record Selection : Type 0 where
  pub provider_entries : BTreeMap ℕ
  pub selected_provider_collateral : ℕ
  pub current_feerate : EpochFeerate
  pub marginal_provider : Option ProviderBid

abbrev pub empty_selection : Selection
empty_selection = record {
  provider_entries = [];
  selected_provider_collateral = 0;
  current_feerate = 0;
  marginal_provider = none;
}

-- What the loop leaves behind.
pub record Found : Type 0 where
  pub feerate : EpochFeerate
  pub collateral : ℕ
  pub entries : BTreeMap ℕ

-- The branch `collateral_excess >= 0`.
unfoldable pub take_excess : ℕ → Selection → Found
take_excess collateral_excess s = record {
  feerate = s.current_feerate;
  collateral = s.selected_provider_collateral;
  entries = elim s.marginal_provider [
    | none ↦ s.provider_entries
    | some provider ↦
        BTreeMap.insert provider.account_id
          (U64.sub provider.max_value (U64.of_u128 collateral_excess)) s.provider_entries
  ];
}

-- A break that leaves the entries as they are.
unfoldable pub break_at : EpochFeerate → Selection → Found
break_at feerate s = record {
  feerate = feerate;
  collateral = s.selected_provider_collateral;
  entries = s.provider_entries;
}

-- The feerate that meets the target with the collateral that is already selected.
unfoldable pub draining_feerate_of : CollateralRatio → ℕ → ℕ → Exec (Option EpochFeerate)
draining_feerate_of pool_ratio total_seeker_demand selected_provider_collateral = do
  provider_position ← position_for_provider_collateral pool_ratio selected_provider_collateral
  let missing_without_fee = U64.sub total_seeker_demand provider_position
  ok (ceiling_div (U128.mul missing_without_fee feerate_unit_denominator) provider_position)

-- The start of a round: an excess of collateral, or the draining feerate.
pub data Round : Type 0 where
  enough : (collateral_excess : ℕ) → Round
  short : (draining_feerate : Option EpochFeerate) → Round

-- The branch on `collateral_excess`.
unfoldable pub judge_excess : CollateralRatio → ℕ → Selection → ℤ → Exec Round
judge_excess pool_ratio total_seeker_demand s (pos collateral_excess) =
    ok (enough collateral_excess)
judge_excess pool_ratio total_seeker_demand s (negsuc _) = do
  draining_feerate ←
      draining_feerate_of pool_ratio total_seeker_demand s.selected_provider_collateral
  ok (short draining_feerate)

unfoldable pub begin_round : CollateralRatio → ℕ → Selection → Exec Round
begin_round pool_ratio total_seeker_demand s = do
  let total_seeker_position = seeker_position s.current_feerate total_seeker_demand
  collateral_needed ← collateral_for_provider_position pool_ratio total_seeker_position
  judge_excess pool_ratio total_seeker_demand s
      (sub_ℕ s.selected_provider_collateral collateral_needed)

unfoldable pub should_use_next_provider : Option EpochFeerate → ProviderBid → Bool
should_use_next_provider none provider = true
should_use_next_provider (some draining_feerate) provider =
    ltb (from_ppm_feerate provider.min_feerate) draining_feerate

unfoldable pub use_provider : ProviderBid → Selection → Selection
use_provider provider s = record {
  provider_entries = BTreeMap.insert provider.account_id provider.max_value s.provider_entries;
  selected_provider_collateral = U64.add s.selected_provider_collateral provider.max_value;
  current_feerate = from_ppm_feerate provider.min_feerate;
  marginal_provider = some provider;
}

-- `draining_feerate.expect(…)` and the `break`
unfoldable pub break_draining : Option EpochFeerate → Selection → Exec Found
break_draining none s = panic draining_feerate_none
break_draining (some feerate) s = ok (break_at feerate s)

-- The rest of a round in which there is a next provider; `rest` is the loop after using it.
unfoldable pub try_provider : Round → ProviderBid → Selection → Exec Found → Exec Found
try_provider (enough collateral_excess) provider s rest = ok (take_excess collateral_excess s)
try_provider (short draining_feerate) provider s rest =
    if should_use_next_provider draining_feerate provider
    then rest
    else break_draining draining_feerate s

-- The rest of a round in which there is none.
unfoldable pub last_round : Round → Selection → Found
last_round (enough collateral_excess) s = take_excess collateral_excess s
last_round (short draining_feerate) s = break_at s.current_feerate s

unfoldable pub find_feerate : CollateralRatio → ℕ → List ProviderBid → Selection → Exec Found
unfolding try_provider last_round
find_feerate pool_ratio demand [] s = do
  round ← begin_round pool_ratio demand s
  ok (last_round round s)
find_feerate pool_ratio demand (provider ∷ provider_bids) s =
    let rest = find_feerate pool_ratio demand provider_bids (use_provider provider s) in
    begin_round pool_ratio demand s >>= λ round. try_provider round provider s rest

-- The loop that fills the seekers' entries.
unfoldable pub fill_seekers : ℕ → List SeekerLock → BTreeMap ℕ → BTreeMap ℕ
fill_seekers seeker_locked_remaining [] seeker_entries = seeker_entries
fill_seekers seeker_locked_remaining (seeker ∷ seeker_locks) seeker_entries =
    let locked_value = min seeker_locked_remaining seeker.value in
    elim (locked_value == 0) [
      | true ↦ seeker_entries
      | false ↦
          fill_seekers (U64.sub seeker_locked_remaining locked_value) seeker_locks
            (BTreeMap.insert seeker.account_id locked_value seeker_entries)
    ]

-- The feerate, the seekers' entries and the providers' entries.
unfoldable pub match_locks_and_bids :
    List SeekerLock
    → List ProviderBid
    → CollateralRatio
    → Exec (EpochFeerate × BTreeMap ℕ × BTreeMap ℕ)
match_locks_and_bids seeker_locks provider_bids pool_ratio = do
  let sorted = sort_bids (filter (λ (bid : ProviderBid). ltb 0 bid.max_value) provider_bids)
  let retained = retain_locks 0 seeker_locks
  found ← find_feerate pool_ratio retained.0 sorted empty_selection
  total_fee ← provider_fee found.feerate found.collateral pool_ratio
  position ← position_for_provider_collateral pool_ratio found.collateral
  let seeker_locked_remaining = U64.add position total_fee
  ok (found.feerate, fill_seekers seeker_locked_remaining retained.1 [], found.entries)
