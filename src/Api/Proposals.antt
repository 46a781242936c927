-- ===== src/Api/Proposals.antt =====
-- What becomes of an action that a client proposes.
use stabilitypool.Base.{
  ℕ, ◌≤◌, ◌≡◌, ◌≢◌, refl, ◌⊎◌, inl, inr, true, false, Option, none, some, [], ◌∷◌, arith, ◌==◌,
  Bool-cases,
}
use stabilitypool.BTreeMap
use stabilitypool.BTreeMap.{BTreeMap}
use stabilitypool.BTreeMap.Laws.{get-insert_self, get-insert_ne}
use stabilitypool.Action.Types.{ActionStaged}
use stabilitypool.Action.Staged
use stabilitypool.Action.Proposed
use stabilitypool.Action.Proposed.{ActionProposed, ActionProposedDb, Schnorr, verify_signature}
use stabilitypool.Epoch.State.{staging_epoch_id}
use stabilitypool.Epoch.Process.{from_db}
use stabilitypool.Db.{Store, Database}
use stabilitypool.Api.{
  ApiError, bad_signature, next_epoch_is, sequence_too_low, is_stale, most_recent, propose_after,
  propose_action,
}

module _ {st : Store} (schnorr : Schnorr) (db : Database st)
    (proposed_db : ActionProposedDb schnorr) (request : ActionProposed schnorr.Signature) where
  abbrev id : ℕ
  id = Proposed.account_id request

  -- The most recent action of the account is for the same epoch, and the sequence is not after its.
  abbrev pub IsStale : Option ActionStaged → Type 0
  IsStale none = ⊥
  IsStale (some recent) =
      (Proposed.epoch_id request ≡ Staged.epoch_id recent)
      × (Proposed.sequence request ≤ Staged.sequence recent)

  abbrev pub IsRejected : Type 0
  IsRejected =
      (verify_signature schnorr request ≡ false)
      ⊎ ((Proposed.epoch_id request ≢ staging_epoch_id (from_db st db))
          ⊎ IsStale (most_recent st schnorr (Proposed.account_id request) db proposed_db))

  -- The new proposals: the request stands for its account, the others stay, and there is an action to
  -- propose for the epoch.
  abbrev pub IsAdded : ActionProposedDb schnorr → Type 0
  IsAdded proposed_db' =
      (Proposed.get schnorr (Proposed.account_id request) proposed_db' ≡ some request)
      × ((j : ℕ)
          → j ≢ Proposed.account_id request
          → Proposed.get schnorr j proposed_db' ≡ Proposed.get schnorr j proposed_db)
      × (Proposed.has_epoch_items schnorr (staging_epoch_id (from_db st db)) proposed_db' ≡ true)

  -- An inserted action is found among those of its epoch.
  has_epoch_items-insert :
      (epoch : ℕ) (actions : ActionProposedDb schnorr)
      → Proposed.epoch_id request ≡ epoch
      → Proposed.has_epoch_items schnorr epoch
          (BTreeMap.insert (Proposed.account_id request) request actions)
        ≡ true
  unfolding Proposed.has_epoch_items BTreeMap.insert
  has_epoch_items-insert epoch [] e = ground arith
  has_epoch_items-insert epoch ((j, a) ∷ actions) e =
      ground (arith, has_epoch_items-insert epoch actions e)

  added :
      Proposed.epoch_id request ≡ staging_epoch_id (from_db st db)
      → IsAdded (Proposed.insert schnorr request proposed_db)
  unfolding Proposed.get Proposed.insert
  added e = (
    get-insert_self (Proposed.account_id request) request proposed_db,
    (λ j ne. get-insert_ne j (Proposed.account_id request) request proposed_db ne),
    has_epoch_items-insert (staging_epoch_id (from_db st db)) proposed_db e,
  )

  pub propose_after_lem :
      (recent : Option ActionStaged)
      → ((e : ApiError) × (propose_after st schnorr recent request proposed_db ≡ inl e)
          × IsStale recent)
        ⊎ ((propose_after st schnorr recent request proposed_db
              ≡ inr (Proposed.insert schnorr request proposed_db))
            × (¬ IsStale recent))
  unfolding propose_after
  propose_after_lem none = inr (refl, λ h. h)
  propose_after_lem (some recent) = elim (Bool-cases (is_stale st schnorr request recent)) [
    | inl stale ↦ inl (sequence_too_low (Staged.sequence recent), rw stale refl, ground arith)
    | inr fresh ↦ inr (rw fresh refl, λ h. ground (arith, h))
  ]

  -- A proposed action is rejected with an error exactly if its signature is wrong, it is not for the
  -- epoch that actions are staged for, or it does not come after the most recent action of its account
  -- for that epoch. Otherwise it replaces the proposal of its account, and there is something to propose.
  pub propose_action_lem :
      ((e : ApiError) × (propose_action st schnorr db proposed_db request ≡ inl e) × IsRejected)
      ⊎ ((proposed_db' : ActionProposedDb schnorr) × (propose_action st schnorr db proposed_db
              request
            ≡ inr proposed_db')
          × (¬ IsRejected)
          × IsAdded proposed_db')
  unfolding propose_action
  propose_action_lem = elim (Bool-cases (verify_signature schnorr request)) [
    | inr bad ↦ inl (bad_signature, rw bad refl, inl bad)
    | inl good ↦ elim (Bool-cases (Proposed.epoch_id request == staging_epoch_id (from_db st db))) [
      | inr other ↦ inl (
        next_epoch_is (staging_epoch_id (from_db st db)),
        rw good (rw other refl),
        inr (inl (ground arith)),
      )
      | inl same ↦ elim (propose_after_lem (most_recent st schnorr id db proposed_db)) [
        | inl (e, refused, stale) ↦ inl (e, rw good (rw same refused), inr (inr stale))
        | inr (accepted, fresh) ↦ inr (
          Proposed.insert schnorr request proposed_db,
          rw good (rw same accepted),
          (λ h. elim h [
            | inl bad ↦ cc (good, bad)
            | inr (inl other) ↦ other (ground arith)
            | inr (inr stale) ↦ fresh stale
          ]),
          added (ground arith),
        )
      ]
    ]
  ]
