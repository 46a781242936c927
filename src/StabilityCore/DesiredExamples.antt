-- ===== src/StabilityCore/DesiredExamples.antt =====
-- Desired positions and their matching at concrete inputs.
use stabilitypool.Base.{ℕ, ◌≤◌, ◌<◌, ◌≡◌, [], ◌∷◌, ok, All, arith}
use stabilitypool.BTreeMap
use stabilitypool.BTreeMap.{BTreeMap, IsSorted}
use stabilitypool.Action.Types
use stabilitypool.Action.Types.{Action, SeekerAction}
use stabilitypool.StabilityCore.Ratio.{default_ratio}
use stabilitypool.StabilityCore.Feerate.{EpochFeerate}
use stabilitypool.StabilityCore.Desired.{
  compute_desired_positions, apply_seeker_actions, previous_locks, desired_bids, desired_bid,
}
use stabilitypool.StabilityCore.Desired.Limits.{balance_of, compute_desired_positions_lem}
use stabilitypool.StabilityCore.Desired.Folds.{
  value_of, after_all, apply_seeker_actions-previous_locks,
}
use stabilitypool.StabilityCore.Matching.{match_locks_and_bids}
use stabilitypool.StabilityCore.Matching.Sorting.{Distinct}
use stabilitypool.StabilityCore.Matching.Step.{IsPoolRatio}
use stabilitypool.StabilityCore.Matching.Result.{IsMatched}
use stabilitypool.StabilityCore.Matching.Positions.{
  affordable, match_locks_and_bids-compute_desired_positions,
}

abbrev pub lock_action : Action SeekerAction
lock_action = record { epoch_id = 1; sequence = 3; account_id = 7; body = SeekerAction.lock 100 }

abbrev balances : BTreeMap ℕ
balances = (7, 1_000) ∷ (8, 500) ∷ []

abbrev pub bid_action : Action Types.ProviderBid
bid_action = record {
  epoch_id = 1;
  sequence = 0;
  account_id = 8;
  body = record { min_feerate = 10; max_amount = 700 };
}

compute_desired_positions_example :
    let desired =
      compute_desired_positions balances ((7, 950) ∷ []) (lock_action ∷ []) (bid_action ∷ []) in
    All (λ l. (0 < l.value) × (l.value ≤ balance_of balances l.account_id)) desired.0
    × Distinct (λ l. l.account_id) desired.0
    × All (λ b. (0 < b.max_value) × (b.max_value ≤ balance_of balances b.account_id)) desired.1
    × Distinct (λ b. b.account_id) desired.1
compute_desired_positions_example =
    compute_desired_positions_lem balances ((7, 950) ∷ []) (lock_action ∷ []) (bid_action ∷ [])
      (tt, tt) (tt, tt)

apply_seeker_actions-previous_locks_example :
    value_of
      (BTreeMap.get 7 (apply_seeker_actions (lock_action ∷ []) (previous_locks ((7, 950) ∷ []))))
    ≡ after_all 7 (lock_action ∷ []) (BTreeMap.get 7 ((7, 950) ∷ []))
apply_seeker_actions-previous_locks_example =
    apply_seeker_actions-previous_locks 7 (lock_action ∷ []) ((7, 950) ∷ [])

pub default_pool : IsPoolRatio default_ratio
default_pool = record {
  valid = record {
    seeker_pos = omega arith;
    seeker_lt = omega arith;
    provider_pos = omega arith;
    provider_lt = omega arith;
  };
  provider_le = omega arith;
}

match_locks_and_bids-compute_desired_positions_example :
    let desired =
      compute_desired_positions balances ((7, 950) ∷ []) (lock_action ∷ []) (bid_action ∷ []) in
    (f : EpochFeerate) × (se pe : BTreeMap ℕ) × (match_locks_and_bids desired.0
        (affordable 200_000 desired.1)
        default_ratio
      ≡ ok (f, se, pe))
    × IsMatched (balance_of balances) f se pe
unfolding compute_desired_positions desired_bids desired_bid BTreeMap.get
match_locks_and_bids-compute_desired_positions_example =
    match_locks_and_bids-compute_desired_positions default_pool balances ((7, 950) ∷ [])
      (lock_action ∷ []) (bid_action ∷ []) 200_000 (tt, tt) (tt, tt) (omega arith) (omega arith)
