-- ===== src/Api.antt =====
-- stabilitypool-server/src/api.rs: what clients ask the module.
pub mod Balances
pub mod Proposals
pub mod Acceptance
use stabilitypool.Base.{
  ℕ, ◌-◌, Bool, true, false, ◌&&◌, not, Option, none, some, List, [], ◌∷◌, ◌⊎◌, inl, inr, Exec, ok,
  ◌>>=◌, expect, outcome_must_exist, price_should_be_settled, leb, ◌==◌, if◌then◌else◌,
}
use stabilitypool.Base.U64
use stabilitypool.BTreeMap
use stabilitypool.BTreeMap.{BTreeMap}
use stabilitypool.Account.{AccountBalance, LockedBalance}
use stabilitypool.Action.Types.{ActionStaged}
use stabilitypool.Action.Staged
use stabilitypool.Action.Proposed
use stabilitypool.Action.Proposed.{ActionProposed, ActionProposedDb, Schnorr, verify_signature}
use stabilitypool.Epoch.Types.{EpochOutcome}
use stabilitypool.Epoch.State.{current_epoch_id, staging_epoch_id}
use stabilitypool.Epoch.Process.{from_db}
use stabilitypool.Db.{Store, Database}

-- `ApiError`, by what it reports.
pub data ApiError : Type 0 where
  no_outcome : (epoch_id : ℕ) → ApiError
  no_action : (account_id : ℕ) → ApiError
  bad_signature : ApiError
  next_epoch_is : (epoch_id : ℕ) → ApiError
  sequence_too_low : (previous : ℕ) → ApiError

pub data SideResponse : Type 0 where
  provider : SideResponse
  seeker : SideResponse

pub record LockedBalanceResponse : Type 0 where
  pub value : ℕ
  pub side : SideResponse
  pub epoch_id : ℕ
  pub epoch_start_price : ℕ
  pub epoch : EpochOutcome

pub record BalanceResponse : Type 0 where
  pub unlocked : ℕ
  pub locked : Option LockedBalanceResponse

pub record StateEpoch : Type 0 where
  pub epoch_id : ℕ
  pub outcome : Option EpochOutcome

pub record State : Type 0 where
  pub previous_epoch : StateEpoch
  pub current_epoch : StateEpoch
  pub accounts : BTreeMap AccountBalance
  pub staged : BTreeMap ActionStaged

-- The match on the locked balance of `account`.
abbrev respond : ℕ → ℕ → EpochOutcome → ℕ → LockedBalance → BalanceResponse
respond unlocked epoch_id outcome price (LockedBalance.seeker locked) = record {
  unlocked = unlocked;
  locked = some (record {
    value = locked;
    side = seeker;
    epoch_id = epoch_id;
    epoch_start_price = price;
    epoch = outcome;
  });
}
respond unlocked epoch_id outcome price (LockedBalance.provider locked) = record {
  unlocked = unlocked;
  locked = some (record {
    value = locked;
    side = provider;
    epoch_id = epoch_id;
    epoch_start_price = price;
    epoch = outcome;
  });
}
respond unlocked epoch_id outcome price LockedBalance.none = record {
  unlocked = unlocked;
  locked = none;
}

-- `unwrap_or(0)`
abbrev id_or_zero : Option ℕ → ℕ
id_or_zero none = 0
id_or_zero (some id) = id

-- `collect` of the staged actions by their accounts
unfoldable pub by_account : List (ℕ × ActionStaged) → BTreeMap ActionStaged → BTreeMap ActionStaged
by_account [] staged = staged
by_account ((_, action) ∷ actions) staged =
    by_account actions (BTreeMap.insert (Staged.account_id action) action staged)

module _ (st : Store) where
  unfoldable pub epoch_outcome : ℕ → Database st → ApiError ⊎ EpochOutcome
  epoch_outcome epoch_id db = elim (st.get_value epoch_id db.epoch_outcomes) [
    | none ↦ inl (no_outcome epoch_id)
    | some outcome ↦ inr outcome
  ]

  -- The endpoints that read one value.
  unfoldable pub epoch_next : Database st → ℕ
  epoch_next db = staging_epoch_id (from_db st db)

  abbrev pub epoch_last_settled : Database st → Option ℕ
  epoch_last_settled db = db.last_epoch_settled

  unfoldable pub action : ℕ → Database st → ApiError ⊎ ActionStaged
  action account_id db = elim (st.get_value account_id db.actions_staged) [
    | none ↦ inl (no_action account_id)
    | some staged ↦ inr staged
  ]

  -- `account` for an account that exists.
  unfoldable pub account_response : AccountBalance → Database st → Exec BalanceResponse
  account_response account db = do
    let epoch_id = current_epoch_id (from_db st db)
    outcome ← expect (st.get_value epoch_id db.epoch_outcomes) outcome_must_exist
    previous ←
        expect (st.get_value (U64.saturating_sub epoch_id 1) db.epoch_outcomes) outcome_must_exist
    epoch_start_price ← expect previous.settled_price price_should_be_settled
    ok (respond account.unlocked epoch_id outcome epoch_start_price account.locked)

  unfoldable pub account : ℕ → Database st → Exec BalanceResponse
  account account_id db = elim (st.get_value account_id db.accounts) [
    | none ↦ ok (record { unlocked = 0; locked = none })
    | some balance ↦ account_response balance db
  ]

  unfoldable pub state : Database st → State
  state db =
      let epoch_state = from_db st db in
      let previous_epoch_id = id_or_zero epoch_state.latest_ended in
      record {
        previous_epoch = record {
          epoch_id = previous_epoch_id;
          outcome = st.get_value previous_epoch_id db.epoch_outcomes;
        };
        current_epoch = record {
          epoch_id = current_epoch_id epoch_state;
          outcome = st.get_value (current_epoch_id epoch_state) db.epoch_outcomes;
        };
        accounts = st.find_by_prefix db.accounts;
        staged = by_account (st.find_by_prefix db.actions_staged) [];
      }

  module _ (schnorr : Schnorr) where
    -- The action of the account that this peer proposes, or else the one that is staged.
    unfoldable pub most_recent : ℕ → Database st → ActionProposedDb schnorr → Option ActionStaged
    most_recent account_id db proposed_db = elim (Proposed.get schnorr account_id proposed_db) [
      | none ↦ st.get_value account_id db.actions_staged
      | some proposed ↦ some (Proposed.staged proposed)
    ]

    -- Whether the request comes after the most recent action for its epoch.
    abbrev pub is_stale : ActionProposed schnorr.Signature → ActionStaged → Bool
    is_stale request recent =
        Proposed.epoch_id request == Staged.epoch_id recent
        && leb (Proposed.sequence request) (Staged.sequence recent)

    abbrev pub Answer : Type 0
    Answer = ApiError ⊎ ActionProposedDb schnorr

    -- The check of the sequence, and the insertion.
    unfoldable pub propose_after :
        Option ActionStaged → ActionProposed schnorr.Signature → ActionProposedDb schnorr → Answer
    propose_after none request proposed_db = inr (Proposed.insert schnorr request proposed_db)
    propose_after (some recent) request proposed_db =
        if is_stale request recent
        then inl (sequence_too_low (Staged.sequence recent))
        else inr (Proposed.insert schnorr request proposed_db)

    unfoldable pub propose_action :
        Database st → ActionProposedDb schnorr → ActionProposed schnorr.Signature → Answer
    propose_action db proposed_db request =
        let next_epoch = staging_epoch_id (from_db st db) in
        if not (verify_signature schnorr request)
        then inl bad_signature
        else if not (Proposed.epoch_id request == next_epoch)
        then inl (next_epoch_is next_epoch)
        else propose_after (most_recent (Proposed.account_id request) db proposed_db) request
            proposed_db
