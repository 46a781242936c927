-- ===== src/StabilityCore/Matching/Positions.antt =====
-- The desired positions meet what the matching expects of its locks and bids.
use native.Mathlib.Nat.{mul-le-mul_right}
use stabilitypool.Base.{
  ℕ, ◌*◌, ◌^◌, ◌≤◌, ◌<◌, ◌≡◌, Bool, List, [], ◌∷◌, filter, All, All-weaken, All-filter,
  sum_of-filter-le, ok, arith, leb, Bool-cases, inl, inr,
}
use stabilitypool.BTreeMap.{BTreeMap, IsSorted}
use stabilitypool.Action.Types.{Action, SeekerAction}
use stabilitypool.Action.Types
use stabilitypool.StabilityCore.Ratio.{CollateralRatio}
use stabilitypool.StabilityCore.Feerate.{EpochFeerate}
use stabilitypool.StabilityCore.Desired.{SeekerLock, ProviderBid, compute_desired_positions}
use stabilitypool.StabilityCore.Desired.Limits.{balance_of, compute_desired_positions_lem}
use stabilitypool.StabilityCore.Matching.{match_locks_and_bids}
use stabilitypool.StabilityCore.Matching.Sorting.{Distinct, filter-Distinct}
use stabilitypool.StabilityCore.Matching.Step.{IsPoolRatio}
use stabilitypool.StabilityCore.Matching.Loop.{bid_total}
use stabilitypool.StabilityCore.Matching.Result.{IsMarket, IsMatched}
use stabilitypool.StabilityCore.Matching.Guarantees.{match_locks_and_bids_lem}

-- The bids at most at a feerate, as epoch.rs filters them.
abbrev pub affordable : ℕ → List ProviderBid → List ProviderBid
affordable max_feerate_ppm = filter λ bid. leb bid.min_feerate max_feerate_ppm

affordable-All :
    (n : ℕ) (bids : List ProviderBid) → All (λ b. b.min_feerate ≤ n) (affordable n bids)
affordable-All n [] = tt
affordable-All n (b ∷ bids) = elim (Bool-cases (leb b.min_feerate n)) [
  | inl cheap ↦ rw cheap (ground arith, affordable-All n bids)
  | inr dear ↦ rw dear (affordable-All n bids)
]

-- The start of an epoch computes the desired positions and matches them: for a ratio without 0 and
-- of at most 87 on the provider side, payouts in the order of their accounts, provider actions of
-- different accounts, a maximal feerate of at most 100 % and bids that fit, the matching returns,
-- its maps are in the order of the accounts, no entry is 0 or above the available balance of its
-- account, and there is no seeker if there is no provider.
pub match_locks_and_bids-compute_desired_positions :
    {r : CollateralRatio}
    → IsPoolRatio r
    → (available payouts : BTreeMap ℕ) (seeker_actions : List (Action SeekerAction))
      (provider_actions : List (Action Types.ProviderBid)) (max_feerate_ppm : ℕ)
    → IsSorted payouts
    → Distinct (λ (a : Action Types.ProviderBid). a.account_id) provider_actions
    → max_feerate_ppm ≤ 1_000_000
    → bid_total (compute_desired_positions available payouts seeker_actions provider_actions).1
        * r.seeker
      < 2 ^ 63
    → let desired = compute_desired_positions available payouts seeker_actions provider_actions in
      (f : EpochFeerate) × (se pe : BTreeMap ℕ) × (match_locks_and_bids desired.0
          (affordable max_feerate_ppm desired.1)
          r
        ≡ ok (f, se, pe))
      × IsMatched (balance_of available) f se pe
match_locks_and_bids-compute_desired_positions {r} pool available payouts sa pa n s d cheap fits =
    let desired = compute_desired_positions available payouts sa pa in
    let (locks, seekers, bids, providers) =
      compute_desired_positions_lem available payouts sa pa s d in
    let test : ProviderBid → Bool = λ bid. leb bid.min_feerate n in
    let fewer : bid_total (affordable n desired.1) * r.seeker ≤ bid_total desired.1 * r.seeker =
      mul-le-mul_right r.seeker
        (sum_of-filter-le (λ (b : ProviderBid). b.max_value) test desired.1) in
    let market : IsMarket r (balance_of available) desired.0 (affordable n desired.1) = record {
      pool = pool;
      seekers_distinct = seekers;
      providers_distinct =
          filter-Distinct (λ (b : ProviderBid). b.account_id) test desired.1 providers;
      locks_covered =
          All-weaken
            (λ (l : SeekerLock). (0 < l.value) × (l.value ≤ balance_of available l.account_id))
            (λ l. l.value ≤ balance_of available l.account_id) desired.0 (λ l h. h.1) locks;
      bids_covered =
          All-filter (λ (b : ProviderBid). b.max_value ≤ balance_of available b.account_id) test
            desired.1
            (All-weaken
              (λ (b : ProviderBid).
                (0 < b.max_value) × (b.max_value ≤ balance_of available b.account_id))
              (λ b. b.max_value ≤ balance_of available b.account_id) desired.1 (λ b h. h.1) bids);
      cheap =
          All-weaken (λ (b : ProviderBid). b.min_feerate ≤ n) (λ b. b.min_feerate ≤ 1_000_000)
            (affordable n desired.1) (λ b h. omega arith) (affordable-All n desired.1);
      fits = omega (arith, fewer);
    } in
    let (f, se, pe, done, matched, _) = match_locks_and_bids_lem market in
    (f, se, pe, done, matched)
