-- ===== src/Api/Acceptance.antt =====
-- From the proposal of a client (api.rs) to the staged action (action.rs).
use stabilitypool.Base.{
  ℕ, ◌+◌, ◌^◌, ◌≤◌, ◌<◌, ◌≡◌, refl, sym, ◌∙◌, inl, inr, true, false, Option, none, some, [], ◌∷◌,
  ok, arith, ltb, leb, ◌==◌, Bool-cases, IsIn, IsIn-filter, ap, subst,
}
use stabilitypool.BTreeMap
use stabilitypool.Action.Types.{ActionStaged}
use stabilitypool.Action.Staged
use stabilitypool.Action.Proposed
use stabilitypool.Action.Proposed.{
  ActionProposed, ActionProposedDb, Schnorr, verify_signature, pop_entry, epoch_items,
}
use stabilitypool.Action.Process.{
  min_sequence, stage_action, process_consensus_item, consensus_proposal,
}
use stabilitypool.Base.U64
use stabilitypool.Epoch.Types.{applied}
use stabilitypool.Epoch.State.{next_id, staging_epoch_id}
use stabilitypool.Epoch.State.Progress.{IsInStep, expected_epoch_end_id_lem}
use stabilitypool.Epoch.Process.{from_db}
use stabilitypool.Api.{most_recent, propose_after, propose_action}
use stabilitypool.Api.Proposals.{IsStale, propose_after_lem}
use stabilitypool.Db.{Store, IsStore, Database}
use stabilitypool.Db.Laws.{get_value-insert_self}

module _ {st : Store} (law : IsStore st) (schnorr : Schnorr) (db : Database st)
    (proposed_db : ActionProposedDb schnorr) (request : ActionProposed schnorr.Signature) where
  -- What is staged for the account is not for an epoch after the next, and has a sequence with a
  -- successor.
  abbrev pub IsCurrent : Option ActionStaged → Type 0
  IsCurrent none = Unit
  IsCurrent (some prev) =
      (Staged.epoch_id prev ≤ next_id db.last_epoch_settled + 1)
      × (Staged.sequence prev + 1 < 2 ^ 64)

  min_sequence-le :
      (n : ℕ) (prev : Option ActionStaged)
      → n ≡ next_id db.last_epoch_settled + 1
      → Proposed.epoch_id request ≡ n
      → IsCurrent prev
      → ¬ IsStale schnorr db proposed_db request prev
      → min_sequence n prev ≤ Proposed.sequence request
  unfolding min_sequence U64.add
  min_sequence-le n none at e current fresh = omega arith
  min_sequence-le n (some prev) at e current fresh =
      elim (Bool-cases (leb (Proposed.sequence request) (Staged.sequence prev))) [
        | inr later ↦ ground arith
        | inl low ↦ elim (Bool-cases (ltb (Staged.epoch_id prev) n)) [
          | inl earlier ↦ rw earlier (omega arith)
          | inr same ↦ absurd (fresh (ground arith, ground arith))
        ]
      ]

  -- An inserted action is among the values, and so among those of its epoch.
  IsIn-insert :
      (actions : ActionProposedDb schnorr)
      → IsIn request
          (BTreeMap.values (BTreeMap.insert (Proposed.account_id request) request actions))
  unfolding BTreeMap.insert
  IsIn-insert [] = inl refl
  IsIn-insert ((j, a) ∷ actions) = elim (Bool-cases (ltb (Proposed.account_id request) j)) [
    | inl before ↦ rw before (inl refl)
    | inr after ↦ elim (Bool-cases (Proposed.account_id request == j)) [
      | inl same ↦ rw after (rw same (inl refl))
      | inr other ↦ rw after (rw other (inr (IsIn-insert actions)))
    ]
  ]

  stage_action-eq :
      (n : ℕ)
      → staging_epoch_id (from_db st db) ≡ n
      → Proposed.epoch_id request ≡ n
      → min_sequence n (st.get_value (Proposed.account_id request) db.actions_staged)
        ≤ Proposed.sequence request
      → stage_action st schnorr request (db, Proposed.insert schnorr request proposed_db) ≡ (
        (
          record db {
            actions_staged =
                st.insert_entry
                  (Proposed.account_id request)
                  (Proposed.staged request)
                  db.actions_staged;
          },
          pop_entry schnorr request (Proposed.insert schnorr request proposed_db),
        ),
        applied,
      )
  unfolding stage_action
  stage_action-eq n at e le =
      let same : (n == Proposed.epoch_id request) ≡ true = ground arith in
      let high : ltb (Proposed.sequence request)
            (min_sequence n (st.get_value (Proposed.account_id request) db.actions_staged))
          ≡ false =
        ground arith in
      rw at (rw same (rw high refl))

  most_recent-none :
      Proposed.get schnorr (Proposed.account_id request) proposed_db ≡ none
      → most_recent st schnorr (Proposed.account_id request) db proposed_db
        ≡ st.get_value (Proposed.account_id request) db.actions_staged
  unfolding most_recent
  most_recent-none e = rw (most_recent, e) refl

  -- What an answer without an error says of the request, and of the proposals after it.
  accepted_lem :
      (proposed_db' : ActionProposedDb schnorr)
      → propose_action st schnorr db proposed_db request ≡ inr proposed_db'
      → (verify_signature schnorr request ≡ true)
        × (Proposed.epoch_id request ≡ staging_epoch_id (from_db st db))
        × (¬ IsStale schnorr db proposed_db request
            (most_recent st schnorr (Proposed.account_id request) db proposed_db))
        × (proposed_db' ≡ Proposed.insert schnorr request proposed_db)
  unfolding propose_action
  accepted_lem proposed_db' h =
      let n = staging_epoch_id (from_db st db) in
      elim (Bool-cases (verify_signature schnorr request)) [
        | inr bad ↦ absurd (cc (rw bad at h))
        | inl good ↦ elim (Bool-cases (Proposed.epoch_id request == n)) [
          | inr other ↦ absurd (cc (rw other at (rw good at h)))
          | inl same ↦
              let recent = most_recent st schnorr (Proposed.account_id request) db proposed_db in
              let after : propose_after st schnorr recent request proposed_db ≡ inr proposed_db' =
                rw same at (rw good at h) in
              elim (propose_after_lem schnorr db proposed_db request recent) [
                | inl (e, refused, _) ↦ absurd (cc (after, refused))
                | inr (done, fresh) ↦ (good, ground arith, fresh, cc (after, done))
              ]
        ]
      ]

  -- In a state where every ended epoch is settled, let the peer have no other proposal of the account,
  -- and let what is staged for the account not be for an epoch after the next and have a sequence with
  -- a successor. Then an action that the api accepts is among those that the peer proposes to the
  -- others, and its processing in this state applies it and stages it for its account.
  pub propose_action-process_consensus_item :
      (proposed_db' : ActionProposedDb schnorr)
      → IsInStep (from_db st db)
      → db.last_epoch_ended ≡ db.last_epoch_settled
      → Proposed.get schnorr (Proposed.account_id request) proposed_db ≡ none
      → IsCurrent (st.get_value (Proposed.account_id request) db.actions_staged)
      → propose_action st schnorr db proposed_db request ≡ inr proposed_db'
      → IsIn request (consensus_proposal st schnorr (db, proposed_db'))
        × (db' : Database st) × (process_consensus_item st schnorr request (db, proposed_db')
            ≡ ok ((db', pop_entry schnorr request proposed_db'), applied))
        × (st.get_value (Proposed.account_id request) db'.actions_staged
            ≡ some (Proposed.staged request))
  unfolding process_consensus_item consensus_proposal epoch_items Proposed.insert
  propose_action-process_consensus_item proposed_db' step same alone current accepted =
      let n = next_id db.last_epoch_settled + 1 in
      let (settled, checked, iff, _, staging) = expected_epoch_end_id_lem (from_db st db) step in
      let is : settled ≡ true = iff.1 same in
      let at : staging_epoch_id (from_db st db) ≡ n = rw is at staging in
      let (good, for', fresh, added) = accepted_lem proposed_db' accepted in
      let epoch : Proposed.epoch_id request ≡ n = for' ∙ at in
      let existing = st.get_value (Proposed.account_id request) db.actions_staged in
      let newer : ¬ IsStale schnorr db proposed_db request existing =
        subst (λ (o : Option ActionStaged). ¬ IsStale schnorr db proposed_db request o)
          (most_recent-none alone) fresh in
      let staged =
        stage_action-eq n at epoch (min_sequence-le n existing refl epoch current newer) in
      (
        IsIn-filter
            (λ (a : ActionProposed schnorr.Signature).
              Proposed.epoch_id a == staging_epoch_id (from_db st db))
            request (BTreeMap.values proposed_db') (ground (arith, for'))
            (subst (λ (p : ActionProposedDb schnorr). IsIn request (BTreeMap.values p)) (sym added)
              (IsIn-insert proposed_db)),
        record db {
          actions_staged =
              st.insert_entry (Proposed.account_id request) (Proposed.staged request)
                db.actions_staged;
        },
        subst
            (λ (p : ActionProposedDb schnorr).
              process_consensus_item st schnorr request (db, p)
              ≡ ok (
                  (
                    (
                      record db {
                        actions_staged =
                            st.insert_entry (Proposed.account_id request) (Proposed.staged request)
                              db.actions_staged;
                      },
                      pop_entry schnorr request p,
                    ),
                    applied,
                  )))
            (sym added) (rw good (rw checked (rw is (ap ok staged)))),
        get_value-insert_self law (Proposed.account_id request) (Proposed.staged request)
            db.actions_staged,
      )
