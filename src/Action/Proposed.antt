-- ===== src/Action/Proposed.antt =====
-- action.rs, `ActionProposed` and `ActionProposedDb`: the signed actions that this peer proposes.
-- Signatures and their check are those of secp256k1, and so is the equality of actions.
use stabilitypool.Base.{
  ℕ, Bool, true, false, none, some, Option, List, [], ◌∷◌, filter, leb, ◌==◌, if◌then◌else◌,
}
use stabilitypool.BTreeMap
use stabilitypool.BTreeMap.{BTreeMap}
use stabilitypool.Action.Types.{Action, SeekerAction, ProviderBid, ActionStaged}

pub record SignedAction (Signature T : Type 0) : Type 0 where
  pub action : Action T
  pub signature : Signature

pub data ActionProposed (Signature : Type 0) : Type 0 where
  seeker : SignedAction Signature SeekerAction → ActionProposed Signature
  provider : SignedAction Signature ProviderBid → ActionProposed Signature

module _ {Signature : Type 0} where
  abbrev pub account_id : ActionProposed Signature → ℕ
  account_id (seeker sa) = sa.action.account_id
  account_id (provider sa) = sa.action.account_id

  abbrev pub epoch_id : ActionProposed Signature → ℕ
  epoch_id (seeker sa) = sa.action.epoch_id
  epoch_id (provider sa) = sa.action.epoch_id

  abbrev pub sequence : ActionProposed Signature → ℕ
  sequence (seeker sa) = sa.action.sequence
  sequence (provider sa) = sa.action.sequence

  -- `From<ActionProposed> for ActionStaged`
  abbrev pub staged : ActionProposed Signature → ActionStaged
  staged (seeker signed) = ActionStaged.seeker signed.action
  staged (provider signed) = ActionStaged.provider signed.action

-- What action.rs takes from secp256k1 and bitcoin: whether the signature of an action is that of its
-- account over the hash of its encoding, and whether two signatures are the same.
pub record Schnorr : Type 1 where
  pub Signature : Type 0
  pub verify_seeker : SignedAction Signature SeekerAction → Bool
  pub verify_provider : SignedAction Signature ProviderBid → Bool
  pub equals : ActionProposed Signature → ActionProposed Signature → Bool

module _ (schnorr : Schnorr) where
  -- `verify_signature().is_ok()`
  abbrev pub verify_signature : ActionProposed schnorr.Signature → Bool
  verify_signature (seeker sa) = schnorr.verify_seeker sa
  verify_signature (provider sa) = schnorr.verify_provider sa

  abbrev pub ActionProposedDb : Type 0
  ActionProposedDb = BTreeMap (ActionProposed schnorr.Signature)

  abbrev pub is_empty : ActionProposedDb → Bool
  is_empty [] = true
  is_empty (_ ∷ _) = false

  unfoldable pub get : ℕ → ActionProposedDb → Option (ActionProposed schnorr.Signature)
  get id actions = BTreeMap.get id actions

  unfoldable pub insert : ActionProposed schnorr.Signature → ActionProposedDb → ActionProposedDb
  insert action actions = BTreeMap.insert (account_id action) action actions

  unfoldable pub remove_expired : ℕ → ActionProposedDb → ActionProposedDb
  remove_expired next_epoch_id actions =
      filter (λ (e : ℕ × ActionProposed schnorr.Signature). leb next_epoch_id (epoch_id e.1))
        actions

  unfoldable pub epoch_items : ℕ → ActionProposedDb → List (ActionProposed schnorr.Signature)
  epoch_items epoch actions =
      filter (λ (a : ActionProposed schnorr.Signature). epoch_id a == epoch)
        (BTreeMap.values actions)

  unfoldable pub has_epoch_items : ℕ → ActionProposedDb → Bool
  has_epoch_items epoch [] = false
  has_epoch_items epoch ((_, a) ∷ actions) =
      if epoch_id a == epoch then true else has_epoch_items epoch actions

  unfoldable pub pop_entry : ActionProposed schnorr.Signature → ActionProposedDb → ActionProposedDb
  pop_entry action actions = elim (BTreeMap.get (account_id action) actions) [
    | none ↦ actions
    | some db_action ↦
        if schnorr.equals db_action action
        then BTreeMap.remove (account_id action) actions
        else actions
  ]
