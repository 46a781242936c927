-- ===== src/Epoch/Process/Starting.antt =====
-- The start of an epoch in epoch.rs, from the staged actions to the locked positions.
use native.Mathlib.Nat.{mul-le-mul_right}
use stabilitypool.Base.{ℕ, ◌*◌, ◌^◌, ◌≤◌, ◌<◌, ◌≡◌, refl, ap, none, ok, arith}
use stabilitypool.Base.U64
use stabilitypool.BTreeMap.{BTreeMap, IsSorted}
use stabilitypool.Action.Types.{ActionStaged}
use stabilitypool.StabilityCore.Desired.{compute_desired_positions}
use stabilitypool.StabilityCore.Desired.Offers.{bid_total-compute_desired_positions}
use stabilitypool.StabilityCore.Matching.Step.{IsPoolRatio}
use stabilitypool.StabilityCore.Matching.Loop.{bid_total}
use stabilitypool.StabilityCore.Matching.Positions.{match_locks_and_bids-compute_desired_positions}
use stabilitypool.Epoch.Types.{EpochOutcome, EpochConfig}
use stabilitypool.Epoch.Settle.Funds.{locked_funds, OnlyAccounts}
use stabilitypool.Epoch.Settle.Conservation.{IsBackedUp, funds_parts}
use stabilitypool.Epoch.Process.{seeker_actions, provider_actions, unlocked_balances, start_epoch}
use stabilitypool.Epoch.Process.Matched.{
  AreKeyed, provider_actions-Distinct, total-unlocked_balances, remove_seeker_actions_lem,
  lock_matched_lem,
}
use stabilitypool.Pool.Funds.{funds}
use stabilitypool.Db.{Store, IsStore, Database}

module _ {st : Store} (law : IsStore st) where
  -- The start of an epoch, in terms of the database before and after.
  abbrev pub IsStarted : ℕ → Database st → Database st → Type 0
  IsStarted epoch_id db db' =
      (o : EpochOutcome) × (db' ≡ record db {
        accounts = db'.accounts;
        actions_staged = db'.actions_staged;
        epoch_outcomes = st.insert_entry epoch_id o db.epoch_outcomes;
      })
      × (o.settled_price ≡ none)
      × (o.feerate < 2 ^ 64)
      × (funds law db' ≡ funds law db)
      × IsBackedUp law db'
      × AreKeyed (st.find_by_prefix db'.actions_staged)

  with_outcome :
      (id : ℕ) (o : EpochOutcome) (t : st.Table ActionStaged) (db db' : Database st)
      → OnlyAccounts law (record db { actions_staged = t }) db'
      → record db' { epoch_outcomes = st.insert_entry id o db'.epoch_outcomes } ≡ record db {
        accounts = db'.accounts;
        actions_staged = db'.actions_staged;
        epoch_outcomes = st.insert_entry id o db.epoch_outcomes;
      }
  with_outcome id o t db db' only = λ i. record {
    accounts = db'.accounts;
    deposit_outcomes = (only i).deposit_outcomes;
    epoch_outcomes = st.insert_entry id o (only i).epoch_outcomes;
    last_epoch_ended = (only i).last_epoch_ended;
    last_epoch_settled = (only i).last_epoch_settled;
    epoch_ends = (only i).epoch_ends;
    actions_staged = db'.actions_staged;
  }

  -- For a ratio without 0 and of at most 87 on the provider side, a maximal feerate of at most 100 %,
  -- payouts in the order of their accounts, a database where nothing is locked in and every staged
  -- action stands at its account, with a sequence that has a successor, and funds whose product with the seeker side of the ratio is less
  -- than 2 ^ 63, the start of an epoch returns. It changes only the accounts, the staged actions and
  -- the outcome of the next epoch, which has no price and a `u64` feerate. The funds stay what they
  -- are, no seeker is locked in without a provider, and the staged actions stand at their accounts, with
  -- sequences that have a successor.
  pub start_epoch-IsStarted :
      (config : EpochConfig) (epoch_end_id : ℕ) (payouts : BTreeMap ℕ) (db : Database st)
      → IsPoolRatio config.collateral_ratio
      → config.max_feerate_ppm ≤ 1_000_000
      → IsSorted payouts
      → locked_funds law db ≡ 0
      → AreKeyed (st.find_by_prefix db.actions_staged)
      → funds law db * config.collateral_ratio.seeker < 2 ^ 63
      → (db' : Database st) × (start_epoch st config epoch_end_id payouts db ≡ ok db')
        × IsStarted (U64.add epoch_end_id 1) db db'
  unfolding start_epoch
  start_epoch-IsStarted config epoch_end_id payouts db pool cheap sorted unlocked keyed fits =
      let accounts = st.find_by_prefix db.accounts in
      let staged = st.find_by_prefix db.actions_staged in
      let balances = unlocked_balances accounts in
      let r = config.collateral_ratio in
      let distinct = provider_actions-Distinct staged (law.find-IsSorted db.actions_staged) keyed in
      let offered : bid_total
            (compute_desired_positions balances payouts (seeker_actions staged)
              (provider_actions staged)).1
          ≤ funds law db =
        omega (
          arith,
          bid_total-compute_desired_positions balances payouts (seeker_actions staged)
              (provider_actions staged) sorted distinct,
          total-unlocked_balances accounts,
          funds_parts law db,
        ) in
      let scaled = mul-le-mul_right r.seeker offered in
      let (f, se, pe, matching, matched) =
        match_locks_and_bids-compute_desired_positions pool balances payouts (seeker_actions staged)
          (provider_actions staged) config.max_feerate_ppm sorted distinct cheap
          (omega (arith, scaled, fits)) in
      let (t, removed, keyed') = remove_seeker_actions_lem law (seeker_actions staged) db keyed in
      let small : funds law db ≤ funds law db * r.seeker = grind (arith, pool.valid.seeker_pos) in
      let (db', s, p, locked, only, same, backed) =
        lock_matched_lem law f se pe (record db { actions_staged = t }) matched unlocked
          (omega (arith, small, fits)) in
      let o : EpochOutcome = record {
        total_seeker_locked = s;
        total_provider_locked = p;
        settled_price = none;
        feerate = f;
      } in
      let actions : db'.actions_staged ≡ t = ap (λ (d : Database st). d.actions_staged) only in
      (
        record db' {
          epoch_outcomes = st.insert_entry (U64.add epoch_end_id 1) o db'.epoch_outcomes;
        },
        rw matching (rw removed (rw locked refl)),
        (
          o,
          with_outcome (U64.add epoch_end_id 1) o t db db' only,
          refl,
          matched.feerate_lt,
          same,
          backed,
          rw actions keyed',
        ),
      )
