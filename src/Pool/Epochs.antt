-- ===== src/Pool/Epochs.antt =====
-- A whole consensus epoch of stabilitypool-server/src/lib.rs: the items of all the peers, in order.
use stabilitypool.Base.{
  ℕ, suc, ◌+◌, ◌^◌, ◌<◌, ◌≡◌, refl, ◌∙◌, ◌⊎◌, inl, inr, Option, none, some, List, [], ◌∷◌, ok,
  arith, All, length,
}
use stabilitypool.Base.U64
use stabilitypool.Action.Proposed.{ActionProposedDb, Schnorr}
use stabilitypool.Epoch.Types.{EpochConfig}
use stabilitypool.Epoch.State.{next_id}
use stabilitypool.Epoch.State.Progress.{HasRoom}
use stabilitypool.Epoch.Process.Health.{IsPool, IsHealthy}
use stabilitypool.Pool.{PoolConsensusItem, begin_consensus_epoch}
use stabilitypool.Pool.Funds.{funds}
use stabilitypool.Pool.Items.{IsSound, process_item-IsKept}
use stabilitypool.Db.{Store, IsStore, Database}

-- Room for the ids of the epochs that a number of items can settle.
abbrev pub HasRoomFor : ℕ → Option ℕ → Type 0
HasRoomFor n none = n + 3 < 2 ^ 64
HasRoomFor n (some id) = id + n + 3 < 2 ^ 64

HasRoomFor-HasRoom : (n : ℕ) (settled : Option ℕ) → HasRoomFor n settled → HasRoom settled
HasRoomFor-HasRoom n none room = tt
HasRoomFor-HasRoom n (some id) room = omega arith

-- After one item there is room for the others.
advance-HasRoomFor :
    (n : ℕ) (settled settled' : Option ℕ)
    → HasRoomFor (suc n) settled
    → (settled' ≡ settled) ⊎ (settled' ≡ some (next_id settled))
    → HasRoomFor n settled'
advance-HasRoomFor n none settled' room (inl same) = rw same (omega arith)
advance-HasRoomFor n none settled' room (inr next) = rw next (omega arith)
advance-HasRoomFor n (some id) settled' room (inl same) = rw same (omega arith)
advance-HasRoomFor n (some id) settled' room (inr next) =
    rw next (omega (arith, U64.add_lem id 1 (omega arith)))

module _ {st : Store} (law : IsStore st) (schnorr : Schnorr) (config : EpochConfig) where
  -- For a pool whose ratio has no 0 and at most 87 on the provider side, whose maximal feerate is at
  -- most 100 % and whose threshold is not 0, and in a healthy database with room for as many more
  -- epochs as there are items, all the items of a consensus epoch are processed, in whatever order
  -- they come and from whatever peers, with no panic: ends of epochs with a `u64` price that is not
  -- 0, or with none, and actions with a sequence that has a successor. The database is healthy again,
  -- and the funds and the deposits stay the same.
  pub begin_consensus_epoch-IsHealthy :
      (items : List (ℕ × PoolConsensusItem schnorr.Signature)) (db : Database st)
      (proposals : ActionProposedDb schnorr)
      → IsPool config
      → IsHealthy law config.collateral_ratio db
      → HasRoomFor (length items) db.last_epoch_settled
      → All (λ x. IsSound x.1) items
      → (db' : Database st) × (proposals' : ActionProposedDb schnorr) × (begin_consensus_epoch st
            schnorr config items
            (db, proposals)
          ≡ ok (db', proposals'))
        × IsHealthy law config.collateral_ratio db'
        × (funds law db' ≡ funds law db)
        × (db'.deposit_outcomes ≡ db.deposit_outcomes)
  unfolding begin_consensus_epoch
  begin_consensus_epoch-IsHealthy [] db proposals pool healthy room sound =
      (db, proposals, refl, healthy, refl, refl)
  begin_consensus_epoch-IsHealthy ((peer, item) ∷ items) db proposals pool healthy room sound =
      let now = HasRoomFor-HasRoom (suc (length items)) db.last_epoch_settled room in
      let (db1, proposals1, outcome, done, (healthy1, same, deposits, advanced)) =
        process_item-IsKept law schnorr config db proposals peer item pool healthy now (sound.0) in
      let left = advance-HasRoomFor (length items) _ db1.last_epoch_settled room advanced in
      let (db2, proposals2, rest, healthy2, same', deposits') =
        begin_consensus_epoch-IsHealthy items db1 proposals1 pool healthy1 left (sound.1) in
      (db2, proposals2, rw done rest, healthy2, same' ∙ same, deposits' ∙ deposits)
