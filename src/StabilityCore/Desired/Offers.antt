-- ===== src/StabilityCore/Desired/Offers.antt =====
-- The bids of `compute_desired_positions` and the balances that they draw on.
use stabilitypool.Base.{ℕ, ◌≤◌, ◌<◌, ◌≡◌, ◌≢◌, refl, none, some, Option, List, [], ◌∷◌, All, arith}
use stabilitypool.BTreeMap
use stabilitypool.BTreeMap.{BTreeMap, IsSorted}
use stabilitypool.BTreeMap.Totals.{total, total-remove}
use stabilitypool.BTreeMap.Measures.{measure_or_zero}
use stabilitypool.BTreeMap.Laws.{get-remove_ne}
use stabilitypool.Action.Types.{Action, SeekerAction}
use stabilitypool.Action.Types
use stabilitypool.StabilityCore.Desired.{ProviderBid, or_zero, compute_desired_positions}
use stabilitypool.StabilityCore.Desired.Limits.{balance_of, compute_desired_positions_lem}
use stabilitypool.StabilityCore.Matching.Sorting.{Distinct}
use stabilitypool.StabilityCore.Matching.Loop.{bid_total}

or_zero_lem : (o : Option ℕ) → measure_or_zero (λ (n : ℕ). n) o ≡ or_zero o
or_zero_lem none = refl
or_zero_lem (some n) = refl

-- The bid is not empty, and the balance of its account covers it.
abbrev IsCovered : BTreeMap ℕ → ProviderBid → Type 0
IsCovered available b = (0 < b.max_value) × (b.max_value ≤ balance_of available b.account_id)

IsCovered-remove :
    (k : ℕ) (available : BTreeMap ℕ) (bids : List ProviderBid)
    → All (λ b. b.account_id ≢ k) bids
    → All (IsCovered available) bids
    → All (IsCovered (BTreeMap.remove k available)) bids
IsCovered-remove k available [] new h = tt
IsCovered-remove k available (b ∷ bids) new ((pos, le), h) = (
  (pos, rw (get-remove_ne b.account_id k available new.0) le),
  IsCovered-remove k available bids new.1 h,
)

-- Bids of different accounts, each within the balance of its account, keep to all the balances.
bid_total-le :
    (available : BTreeMap ℕ) (bids : List ProviderBid)
    → Distinct (λ b. b.account_id) bids
    → All (IsCovered available) bids
    → bid_total bids ≤ total available
bid_total-le available [] d h = omega arith
bid_total-le available (b ∷ bids) d ((pos, le), h) =
    let k = b.account_id in
    let rest =
      bid_total-le (BTreeMap.remove k available) bids d.1
        (IsCovered-remove k available bids d.0 h) in
    omega (arith, rest, total-remove k available, or_zero_lem (BTreeMap.get k available))

pub bid_total-compute_desired_positions :
    (available payouts : BTreeMap ℕ) (seeker_actions : List (Action SeekerAction))
    (provider_actions : List (Action Types.ProviderBid))
    → IsSorted payouts
    → Distinct (λ (a : Action Types.ProviderBid). a.account_id) provider_actions
    → bid_total (compute_desired_positions available payouts seeker_actions provider_actions).1
      ≤ total available
bid_total-compute_desired_positions available payouts sa pa s d =
    let (_, _, bids, distinct) = compute_desired_positions_lem available payouts sa pa s d in
    bid_total-le available (compute_desired_positions available payouts sa pa).1 distinct bids
