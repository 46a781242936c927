-- ===== src/Action/Process/Staging.antt =====
-- Which actions are staged by `process_consensus_item` of action.rs, and what that changes.
use stabilitypool.Base.{
  ℕ, ◌+◌, ◌^◌, ◌≤◌, ◌<◌, ◌≡◌, ◌≢◌, refl, subst, ◌⊎◌, inl, inr, true, Option, none, some, ok, arith,
  ltb, ◌==◌, Bool-cases,
}
use stabilitypool.Base.U64
use stabilitypool.Action.Types.{ActionStaged}
use stabilitypool.Action.Staged
use stabilitypool.Action.Proposed
use stabilitypool.Action.Proposed.{
  ActionProposed, ActionProposedDb, Schnorr, verify_signature, pop_entry,
}
use stabilitypool.Action.Process.{min_sequence, stage_action, process_consensus_item}
use stabilitypool.Epoch.Types.{Reason, ConsensusItemOutcome, applied, ignored, banned}
use stabilitypool.Epoch.State.{next_id, staging_epoch_id}
use stabilitypool.Epoch.State.Progress.{IsInStep, expected_epoch_end_id_lem}
use stabilitypool.Epoch.Process.{from_db}
use stabilitypool.Db.{Store, IsStore, Database}
use stabilitypool.Db.Laws.{get_value-insert_self, get_value-insert_ne}

module _ {st : Store} (law : IsStore st) (schnorr : Schnorr) (a : ActionProposed schnorr.Signature)
    (db : Database st) (proposals : ActionProposedDb schnorr) where
  abbrev account : ℕ
  account = Proposed.account_id a

  -- The action that is staged for the account.
  abbrev existing : Option ActionStaged
  existing = st.get_value account db.actions_staged

  -- What is staged for the account is for an earlier epoch or has a lower sequence.
  abbrev pub IsNewer : Option ActionStaged → Type 0
  IsNewer none = Unit
  IsNewer (some prev) =
      (Staged.epoch_id prev < Proposed.epoch_id a) ⊎ (Staged.sequence prev < Proposed.sequence a)

  -- A sequence that has a successor.
  abbrev pub HasNext : Option ActionStaged → Type 0
  HasNext none = Unit
  HasNext (some prev) = Staged.sequence prev + 1 < 2 ^ 64

  -- The action replaces what was staged for its account, and nothing else in the database changes.
  abbrev pub IsStagedBy : Database st → Type 0
  IsStagedBy db' =
      (db' ≡ record db { actions_staged = db'.actions_staged })
      × (st.get_value account db'.actions_staged ≡ some (Proposed.staged a))
      × ((j : ℕ)
          → j ≢ account
          → st.get_value j db'.actions_staged ≡ st.get_value j db.actions_staged)

  abbrev pub IsAcceptable : Type 0
  IsAcceptable =
      (verify_signature schnorr a ≡ true)
      × (db.last_epoch_ended ≡ db.last_epoch_settled)
      × (Proposed.epoch_id a ≡ next_id db.last_epoch_settled + 1)
      × IsNewer existing

  min_sequence-IsNewer :
      (prev : Option ActionStaged)
      → HasNext prev
      → min_sequence (Proposed.epoch_id a) prev ≤ Proposed.sequence a
      → IsNewer prev
  unfolding min_sequence U64.add
  min_sequence-IsNewer none h le = tt
  min_sequence-IsNewer (some prev) h le = ground (arith, h)

  abbrev popped : ActionProposedDb schnorr
  popped = pop_entry schnorr a proposals

  -- The database after the staging.
  abbrev staged_db : Database st
  staged_db = record db {
    actions_staged = st.insert_entry account (Proposed.staged a) db.actions_staged;
  }

  abbrev Reply : Type 0
  Reply = (Database st × ActionProposedDb schnorr) × ConsensusItemOutcome

  stage_action_lem :
      (n : ℕ)
      → staging_epoch_id (from_db st db) ≡ n
      → HasNext existing
      → ((r : Reason) × (stage_action st schnorr a (db, proposals) ≡ ((db, popped), ignored r)))
        ⊎ ((stage_action st schnorr a (db, proposals) ≡ ((staged_db, popped), applied))
            × (Proposed.epoch_id a ≡ n)
            × IsNewer existing)
  unfolding stage_action
  stage_action_lem n e h = elim (Bool-cases (n == Proposed.epoch_id a)) [
    | inr other ↦ inl (Reason.not_next_epoch, rw e (rw other refl))
    | inl same ↦
        let exact : n ≡ Proposed.epoch_id a = ground arith in
        elim (Bool-cases (ltb (Proposed.sequence a) (min_sequence n existing))) [
          | inl low ↦ inl (Reason.invalid_sequence, rw e (rw same (rw low refl)))
          | inr high ↦ inr (
            rw e (rw same (rw high refl)),
            omega arith,
            min_sequence-IsNewer existing h (
                subst (λ (k : ℕ). min_sequence k existing ≤ Proposed.sequence a) exact
                  (ground arith)),
          )
        ]
  ]

  -- In a state where every ended epoch is settled, or all but the last one, and where the sequence of the
  -- action that is staged for the account has a successor, the processing of an action returns. Either the outcome is not `applied` and the database stays
  -- as it is, or the outcome is `applied`, and the action has a valid signature, came while all the
  -- ended epochs are settled, is for the epoch after the current one and newer than what was staged
  -- for its account, which it replaces, and no other record changes. Except in an unsettled
  -- state, it is popped from the proposals.
  pub process_consensus_item-IsStagedBy :
      IsInStep (from_db st db)
      → HasNext existing
      → (db' : Database st) × (proposals' : ActionProposedDb schnorr)
        × (outcome : ConsensusItemOutcome) × (process_consensus_item st schnorr a (db, proposals)
            ≡ ok ((db', proposals'), outcome))
        × (((outcome ≢ applied) × (db' ≡ db))
            ⊎ ((outcome ≡ applied) × IsAcceptable × IsStagedBy db'))
        × ((proposals' ≡ pop_entry schnorr a proposals)
            ⊎ ((proposals' ≡ proposals) × (db.last_epoch_ended ≢ db.last_epoch_settled)))
  unfolding process_consensus_item
  process_consensus_item-IsStagedBy step h =
      let (settled, checked, iff, _, staging) = expected_epoch_end_id_lem (from_db st db) step in
      elim (Bool-cases (verify_signature schnorr a)) [
        | inr bad ↦ (
          db,
          popped,
          banned Reason.invalid_signature,
          rw bad refl,
          inl (λ e. cc, refl),
          inl refl,
        )
        | inl good ↦ elim (Bool-cases settled) [
          | inr not_yet ↦ (
            db,
            proposals,
            ignored Reason.unsettled,
            rw good (rw checked (rw not_yet refl)),
            inl (λ e. cc, refl),
            inr (refl, λ e. cc (iff.1 e)),
          )
          | inl is ↦
              let n-eq : staging_epoch_id (from_db st db) ≡ next_id db.last_epoch_settled + 1 =
                rw is at staging in
              elim (stage_action_lem (next_id db.last_epoch_settled + 1) n-eq h) [
                | inl (r, refused) ↦ (
                  db,
                  popped,
                  ignored r,
                  rw good (rw checked (rw is (rw refused refl))),
                  inl (λ e. cc, refl),
                  inl refl,
                )
                | inr (done, exact, newer) ↦ (
                  staged_db,
                  popped,
                  applied,
                  rw good (rw checked (rw is (rw done refl))),
                  inr (
                    refl,
                    (good, iff.0 is, exact, newer),
                    (
                      refl,
                      get_value-insert_self law account (Proposed.staged a) db.actions_staged,
                      λ j ne.
                          get_value-insert_ne law j account (Proposed.staged a) db.actions_staged
                            ne,
                    ),
                  ),
                  inl refl,
                )
              ]
        ]
      ]
