-- ===== src/PoolExamples.antt =====
-- The theorems on the settlement, the pool as a whole and the api at concrete databases.
use stabilitypool.Base.{
  ℕ, ◌+◌, ◌≡◌, refl, ◌⊎◌, inl, inr, Option, none, some, [], ◌∷◌, ok, panic, outcome_must_exist,
  arith,
}
use stabilitypool.Base.U64
use stabilitypool.Base.Int.{pos}
use stabilitypool.BTreeMap
use stabilitypool.BTreeMap.{BTreeMap, IsSorted}
use stabilitypool.BTreeMap.Totals.{total}
use stabilitypool.Account.{LockedBalance, AccountWithdrawal}
use stabilitypool.Action.Types.{ActionStaged}
use stabilitypool.Action.Proposed
use stabilitypool.Action.Proposed.{ActionProposedDb, pop_entry}
use stabilitypool.Action.Process as ActionProcess
use stabilitypool.Action.Process.{stage_action, min_sequence}
use stabilitypool.StabilityCore.Ratio.{default_ratio}
use stabilitypool.StabilityCore.DesiredExamples.{default_pool, lock_action, bid_action}
use stabilitypool.StabilityCore.Payouts.{calculate_payouts}
use stabilitypool.StabilityCore.Payouts.Sides.{IsPaidTo, calculate_payouts_returns}
use stabilitypool.Epoch.Types.{EpochEnd, EpochOutcome, ConsensusItemOutcome, applied}
use stabilitypool.Epoch.State.{staging_epoch_id, is_settled}
use stabilitypool.Epoch.Settle.{settle_locked_balances}
use stabilitypool.Epoch.Settle.Funds.{locked_funds, OnlyAccounts}
use stabilitypool.Epoch.Settle.Conservation.{settle_locked_balances_conserves}
use stabilitypool.Epoch.Process as EpochProcess
use stabilitypool.Epoch.Process.{start_epoch}
use stabilitypool.Epoch.Process.Starting.{IsStarted, start_epoch-IsStarted}
use stabilitypool.Epoch.Process.Health.{IsPool, IsHealthy}
use stabilitypool.Epoch.Process.Items.{IsNext, process_consensus_item-IsHealthy}
use stabilitypool.Epoch.Process.Phases.{Phase, IsPhase, Moves, process_consensus_item-Moves}
use stabilitypool.Pool.{
  epoch_end, action_proposed, begin_consensus_epoch, audit, apply_output, put_deposit,
  validate_output, or_default, apply_input, validate_input, withdraw, process_item,
}
use stabilitypool.Pool.Funds.{funds}
use stabilitypool.Pool.Epochs.{begin_consensus_epoch-IsHealthy}
use stabilitypool.Pool.Audit.{sum_ℤ, audit-Run}
use stabilitypool.Pool.Runs.{IsFresh, Run, start, IsBalanced, Run-IsHealthy}
use stabilitypool.Api.{ApiError, BalanceResponse, account, propose_action}
use stabilitypool.Api.Proposals.{IsRejected, IsAdded, propose_action_lem}
use stabilitypool.Api.Balances.{account-IsHealthy, account_panics}
use stabilitypool.Db.{Database}
use stabilitypool.Db.Example.{map_store, map_store-IsStore, empty_database}
use stabilitypool.Examples.{config, schnorr, proposed, deposit, an_account}

config-IsPool : IsPool config
config-IsPool = record {
  ratio = default_pool;
  feerate_le = omega arith;
  threshold_pos = omega arith;
}

abbrev outcome_at : Option ℕ → EpochOutcome
outcome_at price = record {
  total_seeker_locked = 5;
  total_provider_locked = 6;
  settled_price = price;
  feerate = 1_000;
}

-- A seeker and a provider in epoch 4, after epoch 3 was settled.
abbrev running : Database map_store
running = record empty_database {
  accounts = (
    (7, an_account) ∷ (8, record { unlocked = 0; locked = LockedBalance.provider 6 }) ∷ [],
    ((omega arith, tt), (tt, tt)),
  );
  epoch_outcomes =
      ((3, outcome_at (some 15_000)) ∷ (4, outcome_at none) ∷ [], ((omega arith, tt), (tt, tt)));
  last_epoch_ended = some 3;
  last_epoch_settled = some 3;
}

running-IsHealthy : IsHealthy map_store-IsStore default_ratio running
unfolding BTreeMap.get
running-IsHealthy = record {
  place = inl refl;
  fits = omega arith;
  backed_up = inr (omega arith);
  keyed = tt;
  fair = tt;
  history = (
    (outcome_at (some 15_000), 15_000, refl, refl, omega arith),
    (outcome_at none, refl, refl, omega arith),
    λ k lt. ground arith,
  );
}

abbrev next_end : EpochEnd
next_end = record { price = some 16_000; epoch_id = 4 }

settle_locked_balances_conserves_example :
    (db' : Database map_store) × (payouts : BTreeMap ℕ) × (settle_locked_balances map_store running
        4
        (outcome_at (some 16_000))
      ≡ ok (db', payouts))
    × OnlyAccounts map_store-IsStore running db'
    × (funds map_store-IsStore db' ≡ funds map_store-IsStore running)
    × (locked_funds map_store-IsStore db' ≡ 0)
    × IsSorted payouts
unfolding BTreeMap.get
settle_locked_balances_conserves_example =
    settle_locked_balances_conserves map_store-IsStore running 4 16_000 (outcome_at (some 16_000))
      refl (omega arith) (omega arith) (omega arith)
      (inr (3, outcome_at (some 15_000), 15_000, refl, refl, refl, omega arith)) (inr (omega arith))
      (omega arith)

-- A lock and a bid wait for the next epoch.
abbrev waiting : Database map_store
waiting = record empty_database {
  accounts = (
    (7, record { unlocked = 1_000; locked = LockedBalance.none })
        ∷ (8, record { unlocked = 500; locked = LockedBalance.none })
        ∷ [],
    ((omega arith, tt), (tt, tt)),
  );
  actions_staged = (
    (7, ActionStaged.seeker lock_action) ∷ (8, ActionStaged.provider bid_action) ∷ [],
    ((omega arith, tt), (tt, tt)),
  );
}

start_epoch-IsStarted_example :
    (db' : Database map_store) × (start_epoch map_store config 0 ((7, 50) ∷ []) waiting ≡ ok db')
    × IsStarted map_store-IsStore (U64.add 0 1) waiting db'
start_epoch-IsStarted_example =
    start_epoch-IsStarted map_store-IsStore config 0 ((7, 50) ∷ []) waiting default_pool
      (omega arith) (tt, tt) (omega arith) ((refl, omega arith), ((refl, omega arith), tt))
      (omega arith)

process_consensus_item-IsHealthy_example :
    (db' : Database map_store) × (outcome : ConsensusItemOutcome)
    × (EpochProcess.process_consensus_item map_store config 2 next_end running ≡ ok (db', outcome))
    × IsNext map_store-IsStore config 2 next_end running db'
process_consensus_item-IsHealthy_example =
    process_consensus_item-IsHealthy map_store-IsStore config 2 next_end running config-IsPool
      running-IsHealthy (omega arith) (omega arith, omega arith)

process_consensus_item-Moves_example :
    (db' : Database map_store) × (outcome : ConsensusItemOutcome) × (p' : Phase)
    × (EpochProcess.process_consensus_item map_store config 2 next_end running ≡ ok (db', outcome))
    × IsPhase db'.last_epoch_ended db'.last_epoch_settled p'
    × Moves (Phase.underway 4) p'
    × IsHealthy map_store-IsStore default_ratio db'
unfolding U64.add
process_consensus_item-Moves_example =
    process_consensus_item-Moves map_store-IsStore config 2 next_end running (Phase.underway 4)
      config-IsPool running-IsHealthy (omega arith) (omega arith, omega arith) (refl, refl)

begin_consensus_epoch_example :
    (db' : Database map_store) × (proposals' : ActionProposedDb schnorr) × (begin_consensus_epoch
        map_store schnorr config
        ((2, epoch_end next_end) ∷ (0, action_proposed proposed) ∷ [])
        (running, [])
      ≡ ok (db', proposals'))
    × IsHealthy map_store-IsStore default_ratio db'
    × (funds map_store-IsStore db' ≡ funds map_store-IsStore running)
    × (db'.deposit_outcomes ≡ running.deposit_outcomes)
begin_consensus_epoch_example =
    begin_consensus_epoch-IsHealthy map_store-IsStore schnorr config
      ((2, epoch_end next_end) ∷ (0, action_proposed proposed) ∷ []) running [] config-IsPool
      running-IsHealthy (omega arith) ((omega arith, omega arith), (omega arith, tt))

empty-IsFresh : IsFresh map_store-IsStore empty_database
empty-IsFresh = record {
  no_accounts = refl;
  no_actions = refl;
  no_ends = refl;
  no_outcomes = refl;
  none_ended = refl;
  none_settled = refl;
}

-- The pool after one deposit.
abbrev deposited : Database map_store
deposited = record empty_database {
  accounts = ((7, record { unlocked = 20; locked = LockedBalance.none }) ∷ [], (tt, tt));
  deposit_outcomes = ((99, 7) ∷ [], (tt, tt));
}

one_deposit : Run map_store-IsStore schnorr config deposited [] 20 0
unfolding apply_output validate_output put_deposit BTreeMap.get BTreeMap.insert
one_deposit =
    Run.deposit (start [] empty_database empty-IsFresh) deposit 99 (record { amount = 20; fee = 0 })
      deposited (omega arith) (omega arith) refl

-- Then an action of the account is staged.
abbrev staged : Database map_store
staged = record deposited { actions_staged = ((7, Proposed.staged proposed) ∷ [], (tt, tt)) }

-- Then a part of the deposit is withdrawn.
abbrev withdrawn : Database map_store
withdrawn = record staged {
  accounts = ((7, record { unlocked = 15; locked = LockedBalance.none }) ∷ [], (tt, tt));
}

abbrev withdrawal : AccountWithdrawal
withdrawal = record { amount = 5; account = 7 }

three_steps : Run map_store-IsStore schnorr config withdrawn [] 20 5
unfolding apply_input validate_input withdraw process_item ActionProcess.process_consensus_item
    stage_action min_sequence pop_entry staging_epoch_id is_settled U64.add BTreeMap.get
    BTreeMap.insert
three_steps =
    Run.withdrawal
      (Run.item one_deposit 0 (action_proposed proposed) staged [] applied (omega arith)
        (omega arith) refl)
      withdrawal (record { amount = record { amount = 5; fee = 0 }; puk_keys = 7 ∷ [] }) withdrawn
      refl

Run-IsHealthy_example : IsBalanced map_store-IsStore schnorr config 20 5 withdrawn
Run-IsHealthy_example = Run-IsHealthy map_store-IsStore schnorr config config-IsPool three_steps

audit-Run_example : (n : ℕ) × (sum_ℤ (audit map_store withdrawn) ≡ pos n) × (n + 5 ≡ 20)
audit-Run_example = audit-Run map_store-IsStore schnorr config config-IsPool three_steps

calculate_payouts_returns_example :
    (sp pp : BTreeMap ℕ) × (calculate_payouts 1_000 [] ((8, 6) ∷ []) 15_000 16_000 ≡ ok (sp, pp))
    × (total sp + total pp ≡ 0 + 6)
    × IsPaidTo [] sp
    × IsPaidTo ((8, 6) ∷ []) pp
calculate_payouts_returns_example =
    calculate_payouts_returns
      (record {
        feerate_lt = omega arith;
        seekers_sorted = tt;
        providers_sorted = (tt, tt);
        seekers_filled = tt;
        providers_filled = (omega arith, tt);
        pool_lt = omega arith;
        backed_up = inl refl;
      })
      15_000 16_000 (omega arith) (omega arith) (omega arith)

propose_action_example :
    ((e : ApiError) × (propose_action map_store schnorr empty_database [] proposed ≡ inl e)
      × IsRejected {st = map_store} schnorr empty_database [] proposed)
    ⊎ ((proposed_db' : ActionProposedDb schnorr) × (propose_action map_store schnorr empty_database
            [] proposed
          ≡ inr proposed_db')
        × (¬ IsRejected {st = map_store} schnorr empty_database [] proposed)
        × IsAdded {st = map_store} schnorr empty_database [] proposed proposed_db')
propose_action_example = propose_action_lem {st = map_store} schnorr empty_database [] proposed

account-IsHealthy_example :
    (r : BalanceResponse) × (account map_store 7 running ≡ ok r)
    × (r.unlocked ≡ (or_default (map_store.get_value 7 running.accounts)).unlocked)
account-IsHealthy_example =
    account-IsHealthy map_store-IsStore running default_ratio 7 3 running-IsHealthy refl refl
      (omega arith)

deposited-IsHealthy : IsHealthy map_store-IsStore default_ratio deposited
deposited-IsHealthy =
    let (healthy, _) = Run-IsHealthy map_store-IsStore schnorr config config-IsPool one_deposit in
    healthy

account_panics_example : account map_store 7 deposited ≡ panic outcome_must_exist
unfolding BTreeMap.get
account_panics_example =
    account_panics map_store-IsStore deposited default_ratio 7
      (record { unlocked = 20; locked = LockedBalance.none }) deposited-IsHealthy tt refl (inl refl)
