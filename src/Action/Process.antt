-- ===== src/Action/Process.antt =====
-- action.rs, `process_consensus_item`, `can_propose` and `consensus_proposal`: an action that the
-- peers agree to look at is staged for the next epoch, or refused.
pub mod Staging
use stabilitypool.Base.{
  ℕ, ◌+◌, Bool, true, false, ◌&&◌, not, Option, none, some, List, Exec, ok, ◌>>=◌, ltb, ◌==◌,
  if◌then◌else◌,
}
use stabilitypool.Base.U64
use stabilitypool.Action.Types.{ActionStaged}
use stabilitypool.Action.Staged
use stabilitypool.Action.Proposed
use stabilitypool.Action.Proposed.{
  ActionProposed, ActionProposedDb, Schnorr, verify_signature, pop_entry,
}
use stabilitypool.Epoch.Types.{Reason, ConsensusItemOutcome, applied, ignored, banned}
use stabilitypool.Epoch.State.{is_settled, staging_epoch_id}
use stabilitypool.Epoch.Process.{from_db}
use stabilitypool.Db.{Store, Database}

-- `min_sequence`
unfoldable pub min_sequence : ℕ → Option ActionStaged → ℕ
min_sequence next_epoch_id none = 0
min_sequence next_epoch_id (some a) =
    if ltb (Staged.epoch_id a) next_epoch_id then 0 else U64.add (Staged.sequence a) 1

module _ (st : Store) (schnorr : Schnorr) where
  -- The transaction and the proposals of this peer.
  abbrev pub Stores : Type 0
  Stores = Database st × ActionProposedDb schnorr

  -- The part after the check of the signature and of the state.
  unfoldable pub stage_action :
      ActionProposed schnorr.Signature → Stores → Stores × ConsensusItemOutcome
  stage_action incoming_action (db, proposals) =
      let next_epoch_id = staging_epoch_id (from_db st db) in
      let account = Proposed.account_id incoming_action in
      let popped = pop_entry schnorr incoming_action proposals in
      if not (next_epoch_id == Proposed.epoch_id incoming_action)
      then ((db, popped), ignored Reason.not_next_epoch)
      else if ltb (Proposed.sequence incoming_action)
          (min_sequence next_epoch_id (st.get_value account db.actions_staged))
      then ((db, popped), ignored Reason.invalid_sequence)
      else (
        (
          record db {
            actions_staged =
                st.insert_entry account (Proposed.staged incoming_action) db.actions_staged;
          },
          popped,
        ),
        applied,
      )

  unfoldable pub process_consensus_item :
      ActionProposed schnorr.Signature → Stores → Exec (Stores × ConsensusItemOutcome)
  process_consensus_item incoming_action (db, proposals) =
      if not (verify_signature schnorr incoming_action)
      then ok ((db, pop_entry schnorr incoming_action proposals), banned Reason.invalid_signature)
      else (is_settled (from_db st db) >>= λ settled.
          if not settled
          then ok ((db, proposals), ignored Reason.unsettled)
          else ok (stage_action incoming_action (db, proposals)))

  unfoldable pub can_propose : Stores → Exec Bool
  can_propose (db, proposals) = do
    let state = from_db st db
    settled ← is_settled state
    ok (settled && Proposed.has_epoch_items schnorr (staging_epoch_id state) proposals)

  unfoldable pub consensus_proposal : Stores → List (ActionProposed schnorr.Signature)
  consensus_proposal (db, proposals) =
      Proposed.epoch_items schnorr (staging_epoch_id (from_db st db)) proposals
