-- ===== src/Pool/Service.antt =====
-- stabilitypool-server/src/lib.rs, `StabilityPool`: the module of one peer, with its configuration,
-- its oracle, its back-off and the actions that it proposes; and what it proposes to the others.
pub mod Waiting
pub mod Contributing
use stabilitypool.Base.{
  ℕ, zero, suc, ◌+◌, Bool, true, Option, none, some, List, [], ◌∷◌, ◌++◌, map, Exec, ok, ◌>>=◌,
  if◌then◌else◌,
}
use Prim.Native.String.{String}
use stabilitypool.Clock.{Clock}
use stabilitypool.Config.{Oracle}
use stabilitypool.Config.Pool.{PoolConfig}
use stabilitypool.Oracle as Oracles
use stabilitypool.Oracle.{OracleClient}
use stabilitypool.BackOff.{BackOff, default_back_off}
use stabilitypool.Action.Proposed.{ActionProposedDb, Schnorr}
use stabilitypool.Action.Process as ActionProcess
use stabilitypool.Epoch.Types.{EpochConfig}
use stabilitypool.Epoch.Propose as EpochPropose
use stabilitypool.Pool.{PoolConsensusItem, action_proposed, epoch_end}
use stabilitypool.Db.{Store, Database}

pub record StabilityPool (schnorr : Schnorr) (Url : Type 0) : Type 0 where
  pub cfg : PoolConfig
  pub oracle : OracleClient Url
  pub backoff : BackOff
  pub proposed_db : ActionProposedDb schnorr

module _ (schnorr : Schnorr) (Url : Type 0) where
  unfoldable pub new : (String → Option Url) → PoolConfig → Exec (StabilityPool schnorr Url)
  new parse cfg = do
    oracle ← Oracles.oracle_client parse cfg.consensus.oracle
    ok (record { cfg = cfg; oracle = oracle; backoff = default_back_off; proposed_db = [] })

  abbrev pub epoch_config : StabilityPool schnorr Url → EpochConfig
  epoch_config pool = pool.cfg.consensus.epoch

  module _ (st : Store) (clock : Clock) where
    -- What a round of the waiting finds: the time, the pool, and the database.
    pub record Round : Type 0 where
      pub now : clock.Time
      pub pool : StabilityPool schnorr Url
      pub db : Database st

    -- The two tests of a round.
    unfoldable pub can_propose : Round → Exec Bool
    can_propose r = do
      action ← ActionProcess.can_propose st schnorr (r.db, r.pool.proposed_db)
      if action
          then ok true
          else EpochPropose.can_propose clock (epoch_config r.pool) st r.now r.pool.backoff r.db

    -- The loop from its n-th round on, for a number of rounds: the round in which it returns, or
    -- `none` if it sleeps after each of them.
    unfoldable pub await_consensus_proposal : (rounds n : ℕ) → (ℕ → Round) → Exec (Option ℕ)
    unfolding can_propose
    await_consensus_proposal zero n at = ok none
    await_consensus_proposal (suc rounds) n at =
        let rest = await_consensus_proposal rounds (n + 1) at in
        (can_propose (at n) >>= λ ready. if ready then ok (some n) else rest)

    abbrev pub Items : Type 0
    Items = List (PoolConsensusItem schnorr.Signature)

    -- The ends of epochs come first. `price_at_time` is what the oracles answer.
    unfoldable pub consensus_proposal :
        (price_at_time : OracleClient Url → Oracle clock)
        → Round
        → Exec (StabilityPool schnorr Url × Items)
    consensus_proposal price_at_time r = do
      proposal ←
          EpochPropose.consensus_proposal clock (epoch_config r.pool) (price_at_time r.pool.oracle)
            r.now st r.pool.backoff r.db
      let actions = ActionProcess.consensus_proposal st schnorr (r.db, r.pool.proposed_db)
      ok (
        record (r.pool) { backoff = proposal.0 },
        map epoch_end (proposal.1) ++ map action_proposed actions,
      )

-- `end_consensus_epoch`: no peer is dropped.
unfoldable pub end_consensus_epoch : List ℕ → List ℕ
end_consensus_epoch consensus_peers = []
