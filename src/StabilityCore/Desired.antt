-- ===== src/StabilityCore/Desired.antt =====
-- stability_core.rs, `compute_desired_positions`: what seekers and providers want to lock in.
pub mod Limits
pub mod Folds
pub mod Offers
use stabilitypool.Base.{
  ℕ, ◌-◌, min, Bool, Option, none, some, List, [], ◌∷◌, filter, ltb, ◌==◌, if◌then◌else◌,
}
use stabilitypool.Base.U64
use stabilitypool.BTreeMap
use stabilitypool.BTreeMap.{BTreeMap}
use stabilitypool.Action.Types.{Action, SeekerAction, lock, unlock}
use stabilitypool.Action.Types

pub record SeekerLock : Type 0 where
  pub account_id : ℕ
  pub value : ℕ

pub record ProviderBid : Type 0 where
  pub min_feerate : ℕ
  pub max_value : ℕ
  pub account_id : ℕ

abbrev as_lock : ℕ → ℕ → SeekerLock
as_lock account_id payout = record { account_id = account_id; value = payout }

-- The `map` and `collect` of `previous_seeker_payouts`.
unfoldable pub previous_locks : BTreeMap ℕ → BTreeMap SeekerLock
previous_locks [] = []
previous_locks ((account_id, payout) ∷ payouts) =
    (account_id, as_lock account_id payout) ∷ previous_locks payouts

-- The body of the loop over `seeker_actions`.
unfoldable pub apply_seeker_action : Action SeekerAction → BTreeMap SeekerLock → BTreeMap SeekerLock
apply_seeker_action action seeker_locks = elim action.body [
  | lock amount ↦
      BTreeMap.and_modify_or_insert action.account_id
        (λ (l : SeekerLock). record l { value = U64.add l.value amount })
        (as_lock action.account_id amount) seeker_locks
  | unlock amount ↦
      BTreeMap.and_modify action.account_id
        (λ (l : SeekerLock). record l { value = U64.saturating_sub l.value amount }) seeker_locks
]

unfoldable pub apply_seeker_actions :
    List (Action SeekerAction) → BTreeMap SeekerLock → BTreeMap SeekerLock
apply_seeker_actions [] seeker_locks = seeker_locks
apply_seeker_actions (action ∷ actions) seeker_locks =
    apply_seeker_actions actions (apply_seeker_action action seeker_locks)

abbrev pub or_zero : Option ℕ → ℕ
or_zero none = 0
or_zero (some n) = n

-- The loop that cuts every lock to the balance of its account.
unfoldable pub limit_locks : BTreeMap ℕ → BTreeMap SeekerLock → BTreeMap SeekerLock
limit_locks available_balances [] = []
limit_locks available_balances ((account_id, l) ∷ seeker_locks) =
    (
      account_id,
      record l { value = min l.value (or_zero (BTreeMap.get account_id available_balances)) },
    )
    ∷ limit_locks available_balances seeker_locks

-- The closure of the `filter_map` over `provider_actions`.
unfoldable pub desired_bid : BTreeMap ℕ → Action Types.ProviderBid → Option ProviderBid
desired_bid available_balances action = elim (BTreeMap.get action.account_id available_balances) [
  | none ↦ none
  | some current_balance ↦
      let bid_amount = min action.body.max_amount current_balance in
      if bid_amount == 0
      then none
      else some (record {
        min_feerate = action.body.min_feerate;
        max_value = bid_amount;
        account_id = action.account_id;
      })
]

unfoldable pub desired_bids : BTreeMap ℕ → List (Action Types.ProviderBid) → List ProviderBid
desired_bids available_balances [] = []
desired_bids available_balances (action ∷ actions) = elim (desired_bid available_balances action) [
  | none ↦ desired_bids available_balances actions
  | some bid ↦ bid ∷ desired_bids available_balances actions
]

unfoldable pub compute_desired_positions :
    (available_balances previous_seeker_payouts : BTreeMap ℕ)
    → List (Action SeekerAction)
    → List (Action Types.ProviderBid)
    → List SeekerLock × List ProviderBid
compute_desired_positions available_balances previous_seeker_payouts seeker_actions
      provider_actions =
    let seeker_locks =
      apply_seeker_actions seeker_actions (previous_locks previous_seeker_payouts) in
    let limited = limit_locks available_balances seeker_locks in
    let retained = filter (λ (e : ℕ × SeekerLock). ltb 0 e.1.value) limited in
    (BTreeMap.values retained, desired_bids available_balances provider_actions)
