-- ===== src/Epoch/Propose.antt =====
-- epoch.rs, `can_propose` and `consensus_proposal`: when this peer proposes the end of an epoch. The
-- time is an argument, and what the oracle answers is a parameter.
pub mod Checks
use stabilitypool.Base.{
  ℕ, Bool, true, false, ◌&&◌, not, Option, none, some, List, [], ◌∷◌, Exec, ok, ◌>>=◌,
  if◌then◌else◌,
}
use stabilitypool.Clock.{Clock}
use stabilitypool.Config.{Oracle, epoch_id_for_time, price_at_epoch_start}
use stabilitypool.BackOff as BackOffs
use stabilitypool.BackOff.{BackOff, record_failure, reset}
use stabilitypool.Epoch.Types.{EpochEnd, EpochConfig}
use stabilitypool.Epoch.State.{EpochState, option_lt, next_id, is_settled}
use stabilitypool.Epoch.Process.{from_db}
use stabilitypool.Db.{Store, Database}

module _ (clock : Clock) (config : EpochConfig) where
  unfoldable pub can_propose : (st : Store) → clock.Time → BackOff → Database st → Exec Bool
  can_propose st now backoff db = do
    retry ← BackOffs.can_retry clock now backoff
    if not retry
        then ok false
        else (epoch_id_for_time clock config now >>= λ expected_epoch.
            ok (option_lt db.last_epoch_settled (some expected_epoch)))

  module _ (oracle : Oracle clock) (now : clock.Time) where
    abbrev pub Proposal : Type 0
    Proposal = BackOff × List EpochEnd

    -- The answer for an epoch that has to end.
    abbrev propose_end : ℕ → Option ℕ → BackOff → Proposal
    propose_end epoch_id none backoff =
        (record_failure clock now backoff, record { price = none; epoch_id = epoch_id } ∷ [])
    propose_end epoch_id (some price) backoff =
        ((reset backoff).0, record { price = some price; epoch_id = epoch_id } ∷ [])

    -- The answer for an epoch that has ended and is to be settled.
    abbrev propose_settlement : ℕ → Option ℕ → BackOff → Proposal
    propose_settlement epoch_id none backoff = (record_failure clock now backoff, [])
    propose_settlement epoch_id (some price) backoff =
        ((reset backoff).0, record { price = some price; epoch_id = epoch_id } ∷ [])

    -- The two branches after the state has been read.
    unfoldable pub propose_for : ℕ → EpochState → Bool → BackOff → Exec Proposal
    propose_for expected_epoch epoch_state settled backoff =
        if settled && option_lt epoch_state.latest_ended (some expected_epoch)
        then (price_at_epoch_start clock oracle config (next_id epoch_state.latest_ended)
            >>= λ price. ok (propose_end (next_id epoch_state.latest_ended) price backoff))
        else if not settled && option_lt epoch_state.latest_settled (some expected_epoch)
        then (price_at_epoch_start clock oracle config (next_id epoch_state.latest_settled)
            >>= λ price. ok (propose_settlement (next_id epoch_state.latest_settled) price backoff))
        else ok (backoff, [])

    -- The part after the back-off.
    unfoldable pub propose_now : (st : Store) → Database st → BackOff → Exec Proposal
    propose_now st db backoff = do
      expected_epoch ← epoch_id_for_time clock config now
      settled ← is_settled (from_db st db)
      propose_for expected_epoch (from_db st db) settled backoff

    unfoldable pub consensus_proposal : (st : Store) → BackOff → Database st → Exec Proposal
    consensus_proposal st backoff db = do
      retry ← BackOffs.can_retry clock now backoff
      if not retry then ok (backoff, []) else propose_now st db backoff
