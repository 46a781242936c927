-- ===== src/StabilityCore/Matching/Loop.antt =====
-- The invariant of the loop of `match_locks_and_bids`, and what the loop leaves behind.

use stabilitypool.Base.{
  ℕ, ◌+◌, ◌-◌, ◌*◌, ◌^◌, ◌≤◌, ◌<◌, ◌≡◌, ◌≢◌, ◌∙◌, Option, none, some, List, [], ◌∷◌, All, sum_of,
  arith, Option-cases, subst, ◌⊎◌, inl, inr,
}
use stabilitypool.Base.U64
use stabilitypool.BTreeMap
use stabilitypool.BTreeMap.{BTreeMap, IsSorted}
use stabilitypool.BTreeMap.Totals.{total, total-insert, total-insert_new}
use stabilitypool.BTreeMap.Laws.{get-insert_ne, get-insert_self}
use stabilitypool.BTreeMap.Order.{insert-IsSorted, All-insert}
use stabilitypool.StabilityCore.Ratio.{CollateralRatio}
use stabilitypool.StabilityCore.Feerate.{EpochFeerate, from_ppm_feerate}
use stabilitypool.StabilityCore.Desired.{ProviderBid}
use stabilitypool.StabilityCore.Matching.{
  max_total_seeker_value, Selection, Found, take_excess, break_at, use_provider,
}
use stabilitypool.StabilityCore.Matching.Sorting.{Distinct}
use stabilitypool.StabilityCore.Matching.Step.{IsPoolRatio, unit, needed, backed}

pub from_ppm_feerate-le :
    (rate : ℕ) → rate ≤ 1_000_000 → from_ppm_feerate rate ≤ 1_000_000_000_000_000_000
unfolding from_ppm_feerate
from_ppm_feerate-le rate h = rw (U64.mul_lem rate 1_000_000_000_000 (omega arith)) (omega arith)

abbrev pub bid_total : List ProviderBid → ℕ
bid_total = sum_of λ b. b.max_value

-- No entry is 0 or above the balance of its account.
abbrev pub IsWithin : (ℕ → ℕ) → BTreeMap ℕ → Type 0
IsWithin balance = All λ e. (0 < e.1) × (e.1 ≤ balance e.0)

module _ {r : CollateralRatio} (pool : IsPoolRatio r) (d : ℕ) (limit : d ≤ max_total_seeker_value)
    (balance : ℕ → ℕ) (all : ℕ) where
  -- The provider that was selected last is entered in full, and without it the collateral would
  -- not be enough at the feerate that it brought.
  abbrev pub IsMarginal : Selection → Option ProviderBid → Type 0
  IsMarginal s none = s.selected_provider_collateral ≡ 0
  IsMarginal s (some m) =
      (BTreeMap.get m.account_id s.provider_entries ≡ some m.max_value)
      × (m.max_value ≤ s.selected_provider_collateral)
      × (s.selected_provider_collateral - m.max_value < needed pool d limit s.current_feerate)
      × ((0 < m.max_value) × (m.max_value ≤ balance m.account_id))

  pub record IsSelected (s : Selection) : Type 0 where
    pub feerate_le : s.current_feerate ≤ 1_000_000_000_000_000_000
    pub sorted : IsSorted s.provider_entries
    pub sum : total s.provider_entries ≡ s.selected_provider_collateral
    pub within : IsWithin balance s.provider_entries
    pub marginal : IsMarginal s s.marginal_provider

  -- The bids that the loop has not reached.
  pub record AreLeft (s : Selection) (bids : List ProviderBid) : Type 0 where
    pub absent : All (λ b. BTreeMap.get b.account_id s.provider_entries ≡ none) bids
    pub distinct : Distinct (λ b. b.account_id) bids
    pub covered : All (λ b. (0 < b.max_value) × (b.max_value ≤ balance b.account_id)) bids
    pub cheap : All (λ b. b.min_feerate ≤ 1_000_000) bids
    pub everything : s.selected_provider_collateral + bid_total bids ≡ all
    pub fits : all * r.seeker < 2 ^ 63

  -- The loop ended with enough collateral, and the entries are cut to exactly what is needed.
  abbrev pub IsFull : Found → Type 0
  IsFull found =
      (total found.entries ≡ needed pool d limit found.feerate)
      × (needed pool d limit found.feerate ≤ found.collateral)
      × (found.feerate ≤ 1_000_000_000_000_000_000)

  -- The loop ended without, and every selected provider is entered in full.
  abbrev pub IsShort : Found → Type 0
  IsShort found =
      let p = backed pool d limit found.collateral in
      (total found.entries ≡ found.collateral)
      × (p < d)
      × (((found.feerate ≤ 1_000_000_000_000_000_000) × (found.collateral ≡ all))
          ⊎ ((found.feerate < 2 ^ 64)
              × (found.feerate * p < (d - p) * unit pool d limit + p)
              × ((d - p) * unit pool d limit ≤ found.feerate * p)))

  pub record IsFound (found : Found) : Type 0 where
    pub sorted : IsSorted found.entries
    pub within : IsWithin balance found.entries
    pub fits : found.collateral * r.seeker < 2 ^ 63
    pub outcome : IsFull found ⊎ IsShort found

  pub take_excess-IsFound :
      (s : Selection)
      → IsSelected s
      → s.selected_provider_collateral * r.seeker < 2 ^ 63
      → needed pool d limit s.current_feerate ≤ s.selected_provider_collateral
      → IsFound
          (take_excess (s.selected_provider_collateral - needed pool d limit s.current_feerate) s)
  unfolding take_excess
  take_excess-IsFound s v h le =
      let f = s.current_feerate in
      let c = s.selected_provider_collateral in
      let fed = v.feerate_le in
      elim (Option-cases s.marginal_provider) [
        | inl e ↦
            let start : c ≡ 0 = subst (IsMarginal s) e v.marginal in
            rw e (record {
              sorted = v.sorted;
              within = v.within;
              fits = h;
              outcome = inl (omega (arith, v.sum), le, fed);
            })
        | inr (m, e) ↦
            let (entered, part, marginal, covered) = subst (IsMarginal s) e v.marginal in
            let excess = c - needed pool d limit f in
            let m-lt : m.max_value < 2 ^ 63 = grind (arith, pool.valid.seeker_pos) in
            let cut : U64.sub m.max_value (U64.of_u128 excess) ≡ m.max_value - excess =
              rw (U64.of_u128_lem excess (omega arith))
                (U64.sub_lem m.max_value excess (omega arith) (omega arith)) in
            let sum =
              total-insert m.account_id (m.max_value - excess) m.max_value s.provider_entries
                v.sorted entered in
            rw e (
              rw cut (record {
                sorted =
                    insert-IsSorted m.account_id (m.max_value - excess) s.provider_entries v.sorted;
                within =
                    All-insert (λ (e : ℕ × ℕ). (0 < e.1) × (e.1 ≤ balance e.0)) m.account_id
                      (m.max_value - excess) s.provider_entries
                      (omega (arith, covered), omega (arith, covered)) v.within;
                fits = h;
                outcome = inl (omega (arith, sum, v.sum), le, fed);
              }))
      ]

  insert_absent :
      (k v : ℕ) (m : BTreeMap ℕ) (bids : List ProviderBid)
      → All (λ b. b.account_id ≢ k) bids
      → All (λ b. BTreeMap.get b.account_id m ≡ none) bids
      → All (λ b. BTreeMap.get b.account_id (BTreeMap.insert k v m) ≡ none) bids
  insert_absent k v m [] n h = tt
  insert_absent k v m (b ∷ bids) n h =
      (get-insert_ne b.account_id k v m n.0 ∙ h.0, insert_absent k v m bids n.1 h.1)

  pub use_provider-IsSelected :
      (provider : ProviderBid) (bids : List ProviderBid) (s : Selection)
      → IsSelected s
      → AreLeft s (provider ∷ bids)
      → s.selected_provider_collateral < needed pool d limit (from_ppm_feerate provider.min_feerate)
      → IsSelected (use_provider provider s) × AreLeft (use_provider provider s) bids
  unfolding use_provider
  use_provider-IsSelected provider bids s v left more =
      let c = s.selected_provider_collateral in
      let k = provider.account_id in
      let x = provider.max_value in
      let m = s.provider_entries in
      let small : all < 2 ^ 63 = grind (arith, left.fits, pool.valid.seeker_pos) in
      let everything : c + bid_total (provider ∷ bids) ≡ all = left.everything in
      let added : U64.add c x ≡ c + x = U64.add_lem c x (omega arith) in
      let fresh = total-insert_new k x m left.absent.0 in
      rw added (
        record {
          feerate_le = from_ppm_feerate-le provider.min_feerate left.cheap.0;
          sorted = insert-IsSorted k x m v.sorted;
          sum = omega (arith, fresh, v.sum);
          within =
              All-insert (λ (e : ℕ × ℕ). (0 < e.1) × (e.1 ≤ balance e.0)) k x m left.covered.0
                v.within;
          marginal = (get-insert_self k x m, omega arith, omega arith, left.covered.0);
        },
        record {
          absent = insert_absent k x m bids left.distinct.0 left.absent.1;
          distinct = left.distinct.1;
          covered = left.covered.1;
          cheap = left.cheap.1;
          everything = omega (arith, left.everything);
          fits = left.fits;
        },
      )

  pub break_at-IsFound :
      (f : EpochFeerate) (s : Selection)
      → IsSelected s
      → s.selected_provider_collateral * r.seeker < 2 ^ 63
      → let p = backed pool d limit s.selected_provider_collateral in
        p < d
        → (((f ≤ 1_000_000_000_000_000_000) × (s.selected_provider_collateral ≡ all))
            ⊎ ((f < 2 ^ 64)
                × (f * p < (d - p) * unit pool d limit + p)
                × ((d - p) * unit pool d limit ≤ f * p)))
        → IsFound (break_at f s)
  unfolding break_at
  break_at-IsFound f s v h lt fee = record {
    sorted = v.sorted;
    within = v.within;
    fits = h;
    outcome = inr (v.sum, lt, fee);
  }
