-- ===== src/Pool/Items.antt =====
-- Whole consensus items of stabilitypool-server/src/lib.rs, and the database that they need.
use stabilitypool.Base.{
  ℕ, ◌*◌, ◌^◌, ◌<◌, ◌≡◌, refl, sym, ap, subst, ◌∙◌, inl, inr, some, ok, arith, ◌==◌, Bool-cases,
  ◌+◌, ◌⊎◌, Option-cases,
}
use stabilitypool.BTreeMap.Laws.{All-get, All-of_get}
use stabilitypool.Account.{AccountBalance, LockedBalance, locked_amount}
use stabilitypool.Action.Types.{ActionStaged}
use stabilitypool.Action.Staged
use stabilitypool.Action.Proposed
use stabilitypool.Action.Proposed.{ActionProposed, ActionProposedDb, Schnorr}
use stabilitypool.Action.Process.Staging.{HasNext, IsStagedBy, process_consensus_item-IsStagedBy}
use stabilitypool.StabilityCore.Ratio.{CollateralRatio}
use stabilitypool.Epoch.Types.{EpochConfig, ConsensusItemOutcome}
use stabilitypool.Epoch.State.Progress.{HasRoom}
use stabilitypool.Epoch.Settle.Entries.{seeker_amount, provider_amount}
use stabilitypool.Epoch.Settle.Funds.{locked_funds, balance_at, with_balance, sum_up-with_balance}
use stabilitypool.Epoch.Settle.Conservation.{seekers_locked, providers_locked}
use stabilitypool.Epoch.Process.Matched.{IsKeyed, AreKeyed}
use stabilitypool.Epoch.State.{next_id}
use stabilitypool.Epoch.Process.Health.{IsFair, IsPool, IsHistory, IsHealthy}
use stabilitypool.Epoch.Process.Items.{process_consensus_item-IsHealthy}
use stabilitypool.Pool.{PoolConsensusItem, action_proposed, epoch_end, process_item}
use stabilitypool.Pool.Funds.{funds}
use stabilitypool.Db.{Store, IsStore, Database}

staged_account :
    {S : Type 0} (a : ActionProposed S)
    → Staged.account_id (Proposed.staged a) ≡ Proposed.account_id a
staged_account (Proposed.seeker a) = refl
staged_account (Proposed.provider a) = refl

staged_sequence :
    {S : Type 0} (a : ActionProposed S) → Staged.sequence (Proposed.staged a) ≡ Proposed.sequence a
staged_sequence (Proposed.seeker a) = refl
staged_sequence (Proposed.provider a) = refl

module _ {st : Store} (law : IsStore st) (ratio : CollateralRatio) where
  -- Another unlocked balance of an account changes nothing that the settlement asks for.
  pub with_balance-IsHealthy :
      (k : ℕ) (a : AccountBalance) (t : st.Table ℕ) (db : Database st)
      → a.locked ≡ (balance_at law k db).locked
      → IsHealthy law ratio db
      → funds law (with_balance law k a db) * ratio.seeker < 2 ^ 63
      → IsHealthy law ratio (record (with_balance law k a db) { deposit_outcomes = t })
  with_balance-IsHealthy k a t db same healthy fits =
      let kept = λ (amount : LockedBalance → ℕ) (e : amount LockedBalance.none ≡ 0).
        sum_up-with_balance law (λ b. amount b.locked) k a db e in
      let seekers : seekers_locked law (with_balance law k a db) ≡ seekers_locked law db =
        omega (arith, kept seeker_amount refl, ap seeker_amount same) in
      let providers : providers_locked law (with_balance law k a db) ≡ providers_locked law db =
        omega (arith, kept provider_amount refl, ap provider_amount same) in
      let locked : locked_funds law (with_balance law k a db) ≡ locked_funds law db =
        omega (arith, kept locked_amount refl, ap locked_amount same) in
      record {
        place = healthy.place;
        fits = fits;
        backed_up = ground (arith, seekers, providers, healthy.backed_up);
        keyed = healthy.keyed;
        fair = healthy.fair;
        history =
            subst (λ (n : ℕ). IsHistory law db.last_epoch_settled n db.epoch_outcomes) (sym locked)
              healthy.history;
      }

  -- A staged action keeps the actions at their accounts, with sequences that have a successor.
  staged-AreKeyed :
      (schnorr : Schnorr) (a : ActionProposed schnorr.Signature) (db db' : Database st)
      (proposals : ActionProposedDb schnorr)
      → AreKeyed (st.find_by_prefix db.actions_staged)
      → Proposed.sequence a + 1 < 2 ^ 64
      → IsStagedBy law schnorr a db proposals db'
      → AreKeyed (st.find_by_prefix db'.actions_staged)
  staged-AreKeyed schnorr a db db' proposals keyed next (_, here, others) =
      All-of_get IsKeyed (st.find_by_prefix db'.actions_staged)
        (law.find-IsSorted db'.actions_staged)
        (λ k v e.
          let read : st.get_value k db'.actions_staged ≡ some v =
            law.get_value-eq k db'.actions_staged ∙ e in
          elim (Bool-cases (k == Proposed.account_id a)) [
            | inl same ↦
                let exact : k ≡ Proposed.account_id a = ground arith in
                let new : Proposed.staged a ≡ v = cc (here, read, exact) in
                subst (λ (x : ActionStaged). IsKeyed (k, x)) new
                  (staged_account a ∙ sym exact, omega (arith, staged_sequence a, next))
            | inr other ↦
                All-get IsKeyed k v (st.find_by_prefix db.actions_staged) keyed (
                  sym (law.get_value-eq k db.actions_staged) ∙ sym (others k (ground arith)) ∙ read)
          ])

  staged-IsHealthy :
      (t : st.Table ActionStaged) (db : Database st)
      → IsHealthy law ratio db
      → AreKeyed (st.find_by_prefix t)
      → IsHealthy law ratio (record db { actions_staged = t })
  staged-IsHealthy t db healthy keyed = record {
    place = healthy.place;
    fits = healthy.fits;
    backed_up = healthy.backed_up;
    keyed = keyed;
    fair = healthy.fair;
    history = healthy.history;
  }

-- A price that is a `u64` and not 0, or a sequence that has a successor.
abbrev pub IsSound : {S : Type 0} → PoolConsensusItem S → Type 0
IsSound (action_proposed a) = Proposed.sequence a + 1 < 2 ^ 64
IsSound (epoch_end e) = IsFair e.price

-- What is staged for the account of an action has a sequence with a successor.
existing-HasNext :
    {st : Store} (law : IsStore st) (schnorr : Schnorr) (a : ActionProposed schnorr.Signature)
    (db : Database st) (proposals : ActionProposedDb schnorr)
    → AreKeyed (st.find_by_prefix db.actions_staged)
    → HasNext law schnorr a db proposals (st.get_value (Proposed.account_id a) db.actions_staged)
existing-HasNext {st} law schnorr a db proposals keyed =
    let k = Proposed.account_id a in
    elim (Option-cases (st.get_value k db.actions_staged)) [
      | inl absent ↦ rw absent tt
      | inr (prev, there) ↦
          let stands : IsKeyed (k, prev) =
            All-get IsKeyed k prev (st.find_by_prefix db.actions_staged) keyed
              (sym (law.get_value-eq k db.actions_staged) ∙ there) in
          rw there (stands.1)
    ]

module _ {st : Store} (law : IsStore st) (schnorr : Schnorr) (config : EpochConfig)
    (db : Database st) (proposals : ActionProposedDb schnorr) where
  -- The last settled epoch stays, or the next one is settled.
  abbrev pub HasAdvanced : Database st → Type 0
  HasAdvanced db' =
      (db'.last_epoch_settled ≡ db.last_epoch_settled)
      ⊎ (db'.last_epoch_settled ≡ some (next_id db.last_epoch_settled))

  -- A healthy database with the funds and the deposits of the old one.
  abbrev pub IsKept : Database st → Type 0
  IsKept db' =
      IsHealthy law config.collateral_ratio db'
      × (funds law db' ≡ funds law db)
      × (db'.deposit_outcomes ≡ db.deposit_outcomes)
      × HasAdvanced db'

  -- For a pool whose ratio has no 0 and at most 87 on the provider side, whose maximal feerate is at
  -- most 100 % and whose threshold is not 0, and in a healthy database with room for the ids of the
  -- next epochs, no consensus item makes the module panic: neither an end of an epoch with a `u64`
  -- price that is not 0, or with none, nor an action whose sequence has a successor. The
  -- database stays healthy, the funds and the deposits stay the same, and at most the next epoch is
  -- settled.
  pub process_item-IsKept :
      (peer : ℕ) (item : PoolConsensusItem schnorr.Signature)
      → IsPool config
      → IsHealthy law config.collateral_ratio db
      → HasRoom db.last_epoch_settled
      → IsSound item
      → (db' : Database st) × (proposals' : ActionProposedDb schnorr)
        × (outcome : ConsensusItemOutcome) × (process_item st schnorr config peer item
              (db, proposals)
            ≡ ok ((db', proposals'), outcome))
        × IsKept db'
  unfolding process_item
  process_item-IsKept peer (epoch_end e) pool healthy room sound =
      let (db', outcome, done, (healthy', same, deposits, (_, settled))) =
        process_consensus_item-IsHealthy law config peer e db pool healthy room sound in
      (
        db',
        proposals,
        outcome,
        rw done refl,
        (
          healthy',
          same,
          deposits,
          elim settled [ inl stays ↦ inl stays | inr found ↦ inr (found.0) ],
        ),
      )
  process_item-IsKept peer (action_proposed a) pool healthy room sound =
      let (db', proposals', outcome, done, change, _) =
        process_consensus_item-IsStagedBy law schnorr a db proposals (room, healthy.place)
          (existing-HasNext law schnorr a db proposals healthy.keyed) in
      (
        db',
        proposals',
        outcome,
        done,
        elim change [
          | inl (_, same) ↦ subst IsKept (sym same) (healthy, refl, refl, inl refl)
          | inr (_, _, staged) ↦
              let keyed =
                staged-AreKeyed law config.collateral_ratio schnorr a db db' proposals healthy.keyed
                  sound staged in
              subst IsKept (sym staged.0) (
                staged-IsHealthy law config.collateral_ratio db'.actions_staged db healthy keyed,
                refl,
                refl,
                inl refl,
              )
        ],
      )
