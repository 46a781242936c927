-- ===== src/Epoch/Process.antt =====
-- epoch.rs, `process_consensus_item`: a peer's proposal that an epoch has ended, up to the
-- settlement and the start of the next epoch. A panic leaves the transaction uncommitted.
pub mod Tally
pub mod Steps
pub mod Locking
pub mod Matched
pub mod Starting
pub mod Health
pub mod Items
pub mod Phases
use stabilitypool.Base.{
  ℕ, ◌+◌, Bool, true, false, ◌&&◌, List, [], ◌∷◌, ◌++◌, filter, length, Option, none, some, Exec,
  ok, panic, ◌>>=◌, ◌>>◌, assert, expect, outcome_already_settled, position_without_balance,
  locked_above_balance, ltb, leb, ◌==◌, if◌then◌else◌,
}
use stabilitypool.Base.U64
use stabilitypool.BTreeMap
use stabilitypool.BTreeMap.{BTreeMap}
use stabilitypool.Account.{AccountBalance, LockedBalance, locked_amount}
use stabilitypool.Action.Types.{Action, SeekerAction, ActionStaged}
use stabilitypool.Action.Types
use stabilitypool.StabilityCore.Feerate.{EpochFeerate, from_ppm_feerate}
use stabilitypool.StabilityCore.Desired.{ProviderBid, compute_desired_positions}
use stabilitypool.StabilityCore.Matching.{match_locks_and_bids}
use stabilitypool.Epoch.Types.{
  EpochEnd, EpochOutcome, EpochConfig, Reason, ConsensusItemOutcome, applied, ignored, banned,
}
use stabilitypool.Epoch.State.{EpochState, is_settled, expected_epoch_end_id}
use stabilitypool.Epoch.Settle.{settle_locked_balances}
use stabilitypool.Db.{Store, Database}

abbrev pub is_none : Option ℕ → Bool
is_none none = true
is_none (some _) = false

-- The checks against the peer's previous item.
unfoldable pub check_previous : Option EpochEnd → EpochEnd → Option ConsensusItemOutcome
check_previous none epoch_end = none
check_previous (some prev) epoch_end =
    if ltb epoch_end.epoch_id prev.epoch_id
    then some (banned Reason.backtrack)
    else if epoch_end.epoch_id == prev.epoch_id
        && is_none epoch_end.price
        && (if is_none prev.price then false else true)
    then some (ignored Reason.price_backtrack)
    else none

-- The checks against the state of the epochs.
unfoldable pub check_requirements : (ℕ × Bool) → EpochEnd → Option ConsensusItemOutcome
check_requirements (expected_epoch_end_id, needs_price) epoch_end =
    if ltb expected_epoch_end_id epoch_end.epoch_id
    then some (banned Reason.skipped_epoch)
    else if ltb epoch_end.epoch_id expected_epoch_end_id
    then some (ignored Reason.not_the_epoch)
    else if needs_price && is_none epoch_end.price
    then some (ignored Reason.price_required)
    else none

-- How many peers have ended the epoch.
unfoldable pub count_ended : ℕ → List (ℕ × EpochEnd) → ℕ
count_ended epoch_id ends = length (filter (λ (e : ℕ × EpochEnd). e.1.epoch_id == epoch_id) ends)

-- The fold that counts the occurrences of each price, whatever epoch the entry is for.
unfoldable pub price_tally : List (ℕ × EpochEnd) → BTreeMap ℕ → BTreeMap ℕ
price_tally [] tally = tally
price_tally ((_, e) ∷ ends) tally = elim e.price [
  | none ↦ price_tally ends tally
  | some price ↦ price_tally ends (BTreeMap.and_modify_or_insert price (λ count. count + 1) 1 tally)
]

-- `price_tally.iter().find(…)`
unfoldable pub agreed_price : ℕ → BTreeMap ℕ → Option ℕ
agreed_price threshold [] = none
agreed_price threshold ((price, count) ∷ tally) =
    if leb threshold count then some price else agreed_price threshold tally

unfoldable pub seeker_actions : List (ℕ × ActionStaged) → List (Action SeekerAction)
seeker_actions [] = []
seeker_actions ((_, ActionStaged.seeker a) ∷ staged) = a ∷ seeker_actions staged
seeker_actions ((_, ActionStaged.provider a) ∷ staged) = seeker_actions staged

unfoldable pub provider_actions : List (ℕ × ActionStaged) → List (Action Types.ProviderBid)
provider_actions [] = []
provider_actions ((_, ActionStaged.seeker a) ∷ staged) = provider_actions staged
provider_actions ((_, ActionStaged.provider a) ∷ staged) = a ∷ provider_actions staged

-- `current_balances`
unfoldable pub unlocked_balances : List (ℕ × AccountBalance) → BTreeMap ℕ
unlocked_balances [] = []
unlocked_balances ((id, account) ∷ accounts) = (id, account.unlocked) ∷ unlocked_balances accounts

unfoldable pub locked_sides : (seekers providers : BTreeMap ℕ) → List (ℕ × LockedBalance)
locked_sides [] [] = []
locked_sides [] ((k, a) ∷ providers) = (k, LockedBalance.provider a) ∷ locked_sides [] providers
locked_sides ((k, a) ∷ seekers) providers =
    (k, LockedBalance.seeker a) ∷ locked_sides seekers providers

abbrev pub or_dummy : Option EpochOutcome → EpochOutcome
or_dummy none = record {
  total_seeker_locked = 0;
  total_provider_locked = 0;
  settled_price = none;
  feerate = from_ppm_feerate 0;
}
or_dummy (some outcome) = outcome

-- `total_seeker_locked` and `total_provider_locked` after one more position.
abbrev pub add_position : LockedBalance → ℕ × ℕ → ℕ × ℕ
add_position (LockedBalance.seeker a) (seekers, providers) = (U64.add seekers a, providers)
add_position (LockedBalance.provider a) (seekers, providers) = (seekers, U64.add providers a)
add_position LockedBalance.none totals = totals

module _ (st : Store) where
  -- `EpochState::from_db`
  abbrev pub from_db : Database st → EpochState
  from_db db = record { latest_ended = db.last_epoch_ended; latest_settled = db.last_epoch_settled }

  -- The loop over `locked_amounts_on_sides`, with the two totals.
  unfoldable pub lock_positions :
      BTreeMap ℕ → List (ℕ × LockedBalance) → ℕ × ℕ → Database st → Exec (Database st × ℕ × ℕ)
  lock_positions current_balances [] totals db = ok (db, totals.0, totals.1)
  lock_positions current_balances ((account_id, locked) ∷ positions) totals db = do
    current_balance ← expect (BTreeMap.get account_id current_balances) position_without_balance
    assert (leb (locked_amount locked) current_balance) locked_above_balance
    let balance : AccountBalance = record {
      unlocked = U64.sub current_balance (locked_amount locked);
      locked = locked;
    }
    lock_positions current_balances positions (add_position locked totals)
        (record db { accounts = st.insert_entry account_id balance db.accounts })

  unfoldable pub remove_seeker_actions : List (Action SeekerAction) → Database st → Database st
  remove_seeker_actions [] db = db
  remove_seeker_actions (a ∷ actions) db =
      remove_seeker_actions actions
        (record db { actions_staged = st.remove_entry a.account_id db.actions_staged })

  -- From the staged actions to the outcome of the next epoch.
  unfoldable pub start_epoch : EpochConfig → ℕ → BTreeMap ℕ → Database st → Exec (Database st)
  start_epoch config epoch_end_id previous_seeker_payouts db = do
    let current_balances = unlocked_balances (st.find_by_prefix db.accounts)
    let staged = st.find_by_prefix db.actions_staged
    let db' = remove_seeker_actions (seeker_actions staged) db
    let desired =
        compute_desired_positions current_balances previous_seeker_payouts (seeker_actions staged)
          (provider_actions staged)
    let bids = filter (λ (bid : ProviderBid). leb bid.min_feerate config.max_feerate_ppm) desired.1
    matched ← match_locks_and_bids desired.0 bids config.collateral_ratio
    locked ← lock_positions current_balances (locked_sides matched.1 matched.2) (0, 0) db'
    let outcome : EpochOutcome = record {
      total_seeker_locked = locked.1;
      total_provider_locked = locked.2;
      settled_price = none;
      feerate = matched.0;
    }
    ok (record (locked.0) {
      epoch_outcomes = st.insert_entry (U64.add epoch_end_id 1) outcome (locked.0).epoch_outcomes;
    })

  -- What follows the agreement on a price.
  unfoldable pub settle_epoch : EpochConfig → ℕ → ℕ → Database st → Exec (Database st)
  settle_epoch config epoch_end_id price db = do
    let old = or_dummy (st.get_value epoch_end_id db.epoch_outcomes)
    assert (is_none old.settled_price) outcome_already_settled
    let outcome : EpochOutcome = record old { settled_price = some price }
    settled ←
        settle_locked_balances st
          (record db {
            last_epoch_settled = some epoch_end_id;
            epoch_outcomes = st.insert_entry epoch_end_id outcome db.epoch_outcomes;
          })
          epoch_end_id outcome
    start_epoch config epoch_end_id settled.1 settled.0

  -- From the second half on, where the price is tallied.
  unfoldable pub try_settle :
      EpochConfig → ℕ → Database st → Exec (Database st × ConsensusItemOutcome)
  try_settle config epoch_end_id db =
      elim (agreed_price config.price_threshold
        (price_tally (st.find_by_prefix db.epoch_ends) [])) [
          | none ↦ ok (db, applied)
          | some price ↦ do db' ← settle_epoch config epoch_end_id price db; ok (db', applied)
        ]

  -- An item that passed the checks.
  unfoldable pub accept_end :
      EpochConfig → ℕ → ℕ → EpochEnd → Database st → Exec (Database st × ConsensusItemOutcome)
  accept_end config peer_id expected_id epoch_end db = do
    let db' : Database st = record db {
      epoch_ends = st.insert_entry peer_id epoch_end db.epoch_ends;
    }
    settled ← is_settled (from_db db)
    if settled
        then (if ltb (count_ended expected_id (st.find_by_prefix db'.epoch_ends))
              config.price_threshold
            then ok (db', applied)
            else try_settle config expected_id (record db' { last_epoch_ended = some expected_id }))
        else try_settle config expected_id db'

  -- The checks against the state of the epochs, and what follows them.
  unfoldable pub end_epoch :
      EpochConfig
      → ℕ
      → (ℕ × Bool)
      → EpochEnd
      → Database st
      → Exec (Database st × ConsensusItemOutcome)
  end_epoch config peer_id expected epoch_end db = elim (check_requirements expected epoch_end) [
    | some outcome ↦ ok (db, outcome)
    | none ↦ accept_end config peer_id expected.0 epoch_end db
  ]

  unfoldable pub process_consensus_item :
      EpochConfig → ℕ → EpochEnd → Database st → Exec (Database st × ConsensusItemOutcome)
  process_consensus_item config peer_id epoch_end db =
      elim (check_previous (st.get_value peer_id db.epoch_ends) epoch_end) [
        | some outcome ↦ ok (db, outcome)
        | none ↦ do
          expected ← expected_epoch_end_id (from_db db)
          end_epoch config peer_id expected epoch_end db
      ]
