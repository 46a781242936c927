-- ===== src/Pool/Service/Contributing.antt =====
-- What the module of a peer contributes when its waiting is over (stabilitypool-server/src/lib.rs).
use stabilitypool.Base.{
  ℕ, ◌+◌, ◌^◌, ◌<◌, ◌≡◌, ◌≢◌, refl, sym, subst, ◌⊎◌, inl, inr, Bool, true, false, ◌&&◌, none, some,
  List, [], ◌∷◌, ◌++◌, map, ok, ◌==◌, Bool-cases, All, All-append, All-filter, All-map, filter,
  filter-All, IsIn, IsIn-map, IsIn-append, IsIn-filter, arith,
}
use stabilitypool.BTreeMap
use stabilitypool.Clock.{Clock}
use stabilitypool.Config.{Oracle, price_at_epoch_start}
use stabilitypool.Oracle.{OracleClient}
use stabilitypool.BackOff.{BackOff}
use stabilitypool.Action.Proposed
use stabilitypool.Action.Proposed.{
  ActionProposed, ActionProposedDb, Schnorr, epoch_items, has_epoch_items,
}
use stabilitypool.Action.Process as ActionProcess
use stabilitypool.Epoch.Types.{EpochEnd}
use stabilitypool.Epoch.State.{next_id, option_lt, staging_epoch_id, expected_epoch_end_id}
use stabilitypool.Epoch.State.Progress.{IsInStep, expected_epoch_end_id_lem}
use stabilitypool.Epoch.Process.{from_db, check_requirements}
use stabilitypool.Epoch.Process.Health.{IsFair}
use stabilitypool.Epoch.Propose.Checks.{
  IsWanted, IsPriceless, consensus_proposal-check_requirements,
}
use stabilitypool.Pool.{PoolConsensusItem, action_proposed, epoch_end}
use stabilitypool.Pool.Items.{IsSound}
use stabilitypool.Pool.Service.{epoch_config, Round, Items, consensus_proposal}
use stabilitypool.Pool.Service.Waiting.{IsAnswering, IsReady, and_iff}
use stabilitypool.Db.{Store}

module _ (schnorr : Schnorr) where
  abbrev pub HasSuccessor : ActionProposed schnorr.Signature → Type 0
  HasSuccessor a = Proposed.sequence a + 1 < 2 ^ 64

  values-HasSuccessor :
      (proposals : ActionProposedDb schnorr)
      → All (λ e. HasSuccessor e.1) proposals
      → All HasSuccessor (BTreeMap.values proposals)
  values-HasSuccessor [] h = tt
  values-HasSuccessor ((k, a) ∷ proposals) h = (h.0, values-HasSuccessor proposals h.1)

  epoch_items-HasSuccessor :
      (epoch : ℕ) (proposals : ActionProposedDb schnorr)
      → All (λ e. HasSuccessor e.1) proposals
      → All HasSuccessor (epoch_items schnorr epoch proposals)
  unfolding epoch_items
  epoch_items-HasSuccessor epoch proposals h =
      All-filter HasSuccessor
        (λ (a : ActionProposed schnorr.Signature). Proposed.epoch_id a == epoch)
        (BTreeMap.values proposals) (values-HasSuccessor proposals h)

  actions-IsSound :
      (actions : List (ActionProposed schnorr.Signature))
      → All HasSuccessor actions
      → All IsSound (map action_proposed actions)
  actions-IsSound [] h = tt
  actions-IsSound (a ∷ actions) h = (h.0, actions-IsSound actions h.1)

  epoch_id-eq :
      (n : ℕ) (a : ActionProposed schnorr.Signature)
      → (Proposed.epoch_id a == n) ≡ true
      → Proposed.epoch_id a ≡ n
  epoch_id-eq n a h = ground arith

  -- An action of the epoch is among the items of the epoch.
  epoch_items_lem :
      (epoch : ℕ) (proposals : ActionProposedDb schnorr)
      → has_epoch_items schnorr epoch proposals ≡ true
      → epoch_items schnorr epoch proposals ≢ []
  unfolding epoch_items has_epoch_items
  epoch_items_lem epoch [] h = cc
  epoch_items_lem epoch ((k, a) ∷ proposals) h = elim (Bool-cases (Proposed.epoch_id a == epoch)) [
    | inl same ↦ rw same (λ e. cc)
    | inr other ↦ rw other (epoch_items_lem epoch proposals (rw other at h))
  ]

  append_ne : {A : Type 0} (xs ys : List A) → (xs ≢ []) ⊎ (ys ≢ []) → xs ++ ys ≢ []
  append_ne [] ys (inl h) = absurd (h refl)
  append_ne [] ys (inr h) = h
  append_ne (x ∷ xs) ys h = λ e. cc

  map_ne : {A B : Type 0} (f : A → B) (xs : List A) → xs ≢ [] → map f xs ≢ []
  map_ne f [] h = absurd (h refl)
  map_ne f (x ∷ xs) h = λ e. cc

  module _ (Url : Type 0) (st : Store) (clock : Clock)
      (price_at_time : OracleClient Url → Oracle clock) (r : Round schnorr Url st clock) where
    actions_ne :
        IsInStep (from_db st r.db)
        → r.db.last_epoch_ended ≡ r.db.last_epoch_settled
        → has_epoch_items schnorr (next_id r.db.last_epoch_settled + 1) r.pool.proposed_db ≡ true
        → ActionProcess.consensus_proposal st schnorr (r.db, r.pool.proposed_db) ≢ []
    unfolding ActionProcess.consensus_proposal
    actions_ne step same has =
        let (settled, checked, iff, _, staging) =
          expected_epoch_end_id_lem (from_db st r.db) step in
        let at : staging_epoch_id (from_db st r.db) ≡ next_id r.db.last_epoch_settled + 1 =
          rw (iff.1 same) at staging in
        rw at (epoch_items_lem (next_id r.db.last_epoch_settled + 1) r.pool.proposed_db has)

    -- What the processing of an item asks for in this state: an action is one of the proposed ones
    -- and is for the epoch that actions are staged for; an end is for the epoch after the last
    -- settled one, has the price of the oracle and meets the requirements.
    abbrev pub IsWelcome : (price : ℕ) → PoolConsensusItem schnorr.Signature → Type 0
    IsWelcome price (action_proposed a) =
        IsIn a (BTreeMap.values r.pool.proposed_db)
        × (Proposed.epoch_id a ≡ staging_epoch_id (from_db st r.db))
    IsWelcome price (epoch_end e) =
        (e.price ≡ some price)
        × (e.epoch_id ≡ next_id r.db.last_epoch_settled)
        × (q : ℕ × Bool) × (expected_epoch_end_id (from_db st r.db) ≡ ok q)
        × (check_requirements q e ≡ none)

    -- The actions of the epoch that actions are staged for are all among the items.
    abbrev pub HasAll : Items schnorr Url st clock → Type 0
    HasAll items =
        (a : ActionProposed schnorr.Signature)
        → IsIn a (BTreeMap.values r.pool.proposed_db)
        → Proposed.epoch_id a ≡ staging_epoch_id (from_db st r.db)
        → IsIn (action_proposed a) items

    actions-IsWelcome :
        (price : ℕ)
        → All (IsWelcome price) (
            map action_proposed
              (epoch_items schnorr (staging_epoch_id (from_db st r.db)) r.pool.proposed_db))
    unfolding epoch_items
    actions-IsWelcome price =
        let n = staging_epoch_id (from_db st r.db) in
        let values = BTreeMap.values r.pool.proposed_db in
        let for_next = λ (a : ActionProposed schnorr.Signature). Proposed.epoch_id a == n in
        All-map (λ (a : ActionProposed schnorr.Signature). IsIn a values × (for_next a ≡ true))
          (IsWelcome price) action_proposed (filter for_next values)
          (λ a h. (h.0, epoch_id-eq n a h.1)) (filter-All for_next values)

    actions-HasAll :
        (ends : List EpochEnd)
        → HasAll (
            map epoch_end ends
            ++ map action_proposed
                (epoch_items schnorr (staging_epoch_id (from_db st r.db)) r.pool.proposed_db))
    unfolding epoch_items
    actions-HasAll ends a among same =
        let n = staging_epoch_id (from_db st r.db) in
        let values = BTreeMap.values r.pool.proposed_db in
        let for_next = λ (a : ActionProposed schnorr.Signature). Proposed.epoch_id a == n in
        IsIn-append (action_proposed a) (map epoch_end ends)
          (map action_proposed (filter for_next values))
          (IsIn-map action_proposed a (filter for_next values)
            (IsIn-filter for_next a values (ground (arith, same)) among))

    abbrev ends_of : List EpochEnd → Items schnorr Url st clock
    ends_of = map epoch_end

    -- The ends that are proposed have the price of the oracle, and there is one if it is due.
    ends_lem :
        (price : ℕ) (due : Bool) (backoff' : BackOff) (ends : List EpochEnd)
        → IsFair (some price)
        → ((due ≡ false) × (ends ≡ []) × (backoff' ≡ r.pool.backoff))
          ⊎ ((due ≡ true)
              × (IsWanted clock
                    (epoch_config schnorr Url r.pool)
                    (price_at_time r.pool.oracle)
                    r.now
                    st
                    r.pool.backoff
                    r.db
                    (some price)
                    ends
                  ⊎ IsPriceless clock
                      (epoch_config schnorr Url r.pool)
                      (price_at_time r.pool.oracle)
                      r.now
                      st
                      r.pool.backoff
                      r.db
                      (some price)
                      backoff'
                      ends))
        → All IsSound (ends_of ends)
          × ((due ≡ true) → ends ≢ [])
          × All (IsWelcome price) (ends_of ends)
    ends_lem price due backoff' ends fair (inl (idle, empty, _)) =
        (rw empty tt, λ is. cc (is, idle), rw empty tt)
    ends_lem price due backoff' ends fair (inr (_, inl (e, q, one, priced, id, wanted, fine))) = (
      rw one (subst IsFair (sym priced) fair, tt),
      λ _. rw one (λ h. cc),
      rw one ((priced, id, q, wanted, fine), tt),
    )
    ends_lem price due backoff' ends fair (inr (_, inr (absent, _, _, _))) = absurd (cc (absent))

    -- In a round where every ended epoch is settled, or all but the last one, where the back-off, the
    -- clock and the oracle answer, the oracle with a `u64` price that is not 0, and where the proposed
    -- actions have sequences with a successor, let the round be ready: it has an action for the epoch
    -- after the current one, or an end of an epoch is due. Then the proposal returns, the module
    -- changes only its back-off, and it contributes at least one item. An end among the items is for
    -- the epoch after the last settled one, has the price of the oracle, and meets the requirements of
    -- its processing in this state. The actions among them are exactly the proposed ones for the epoch
    -- that actions are staged for in this state, and have sequences with a successor.
    pub consensus_proposal-IsSound :
        (answers : IsAnswering schnorr Url st clock r) (price : ℕ)
        → price_at_epoch_start clock
            (price_at_time r.pool.oracle)
            (epoch_config schnorr Url r.pool)
            (next_id r.db.last_epoch_settled)
          ≡ ok (some price)
        → IsFair (some price)
        → All (λ e. HasSuccessor e.1) r.pool.proposed_db
        → IsReady schnorr Url st clock r answers
        → (backoff : BackOff) × (items : Items schnorr Url st clock) × (consensus_proposal schnorr
              Url st clock price_at_time r
            ≡ ok (record (r.pool) { backoff = backoff }, items))
          × (items ≢ [])
          × All IsSound items
          × All (IsWelcome price) items
          × HasAll items
    unfolding consensus_proposal ActionProcess.consensus_proposal
    consensus_proposal-IsSound answers price asked fair sound ready =
        let config = epoch_config schnorr Url r.pool in
        let (backoff', ends, _, done, cases) =
          consensus_proposal-check_requirements clock config (price_at_time r.pool.oracle) r.now st
            r.pool.backoff r.db answers.retry answers.id (some price) answers.step answers.tried
            answers.dated asked in
        let (ends_sound, ends_ne, ends_welcome) =
          ends_lem price (answers.retry && option_lt r.db.last_epoch_settled (some answers.id))
            backoff' ends fair cases in
        let actions = ActionProcess.consensus_proposal st schnorr (r.db, r.pool.proposed_db) in
        (
          backoff',
          ends_of ends ++ map action_proposed actions,
          rw done refl,
          append_ne (ends_of ends) (map action_proposed actions) (elim ready [
            | inr due ↦
                let both =
                  and_iff schnorr Url st clock answers.retry
                    (option_lt r.db.last_epoch_settled (some answers.id)) in
                inl (map_ne epoch_end ends (ends_ne (both.1 due)))
            | inl (same, has) ↦
                inr (map_ne action_proposed actions (actions_ne answers.step same has))
          ]),
          All-append IsSound (ends_of ends) (map action_proposed actions) ends_sound (
              actions-IsSound actions (
                epoch_items-HasSuccessor (staging_epoch_id (from_db st r.db)) r.pool.proposed_db
                  sound)),
          All-append (IsWelcome price) (ends_of ends) (map action_proposed actions) ends_welcome
              (actions-IsWelcome price),
          actions-HasAll ends,
        )
