-- ===== src/Api/Balances.antt =====
-- What the account endpoint answers, and when it panics.
use stabilitypool.Base.{
  ℕ, ◌+◌, ◌^◌, ◌<◌, ◌≡◌, refl, ap, ◌∙◌, ◌⊎◌, ◌≢◌, Option, none, some, ok, panic, outcome_must_exist,
  arith, Option-cases, inl, inr,
}
use stabilitypool.Base.U64
use stabilitypool.Account.{AccountBalance, LockedBalance}
use stabilitypool.StabilityCore.Ratio.{CollateralRatio}
use stabilitypool.Epoch.Types.{EpochOutcome}
use stabilitypool.Epoch.State.{current_epoch_id, next_id}
use stabilitypool.Epoch.State.Progress.{HasRoom}
use stabilitypool.Epoch.Settle.Funds.{locked_funds}
use stabilitypool.Epoch.Process.{from_db}
use stabilitypool.Epoch.Process.Health.{IsHistory, IsHealthy}
use stabilitypool.Pool.{or_default}
use stabilitypool.Db.{Store, IsStore, Database}
use stabilitypool.Api.{BalanceResponse, respond, account_response, account}

module _ {st : Store} (law : IsStore st) (db : Database st) where
  respond-unlocked :
      (unlocked id price : ℕ) (o : EpochOutcome) (l : LockedBalance)
      → (respond unlocked id o price l).unlocked ≡ unlocked
  respond-unlocked unlocked id price o (LockedBalance.seeker a) = refl
  respond-unlocked unlocked id price o (LockedBalance.provider a) = refl
  respond-unlocked unlocked id price o LockedBalance.none = refl

  answer_lem :
      (account_id id p : ℕ) (a : AccountBalance) (o o' : EpochOutcome)
      → st.get_value account_id db.accounts ≡ some a
      → db.last_epoch_ended ≡ some id
      → id + 3 < 2 ^ 64
      → st.get_value id db.epoch_outcomes ≡ some o
      → o.settled_price ≡ some p
      → st.get_value (id + 1) db.epoch_outcomes ≡ some o'
      → account st account_id db ≡ ok (respond a.unlocked (id + 1) o' p a.locked)
  unfolding account account_response current_epoch_id
  answer_lem account_id id p a o o' found ended room there priced next =
      let now : current_epoch_id (from_db st db) ≡ id + 1 =
        ap next_id ended ∙ U64.add_lem id 1 (omega arith) in
      let before : U64.saturating_sub (id + 1) 1 ≡ id = omega arith in
      rw (account, found) (rw now (rw next (rw before (rw there (rw priced refl)))))

  -- In a healthy database where at least one epoch is settled, every ended epoch is, and there is
  -- room for the ids of the next epochs, the account endpoint answers for every account id, with the
  -- unlocked balance of the account, or 0 if there is no such account.
  pub account-IsHealthy :
      (ratio : CollateralRatio) (account_id id : ℕ)
      → IsHealthy law ratio db
      → db.last_epoch_settled ≡ some id
      → db.last_epoch_ended ≡ some id
      → id + 3 < 2 ^ 64
      → (r : BalanceResponse) × (account st account_id db ≡ ok r)
        × (r.unlocked ≡ (or_default (st.get_value account_id db.accounts)).unlocked)
  unfolding account account_response current_epoch_id
  account-IsHealthy ratio account_id id healthy settled ended room =
      let ((o, p, there, priced, _), (o', next, _, _), _) = rw settled at healthy.history in
      elim (Option-cases (st.get_value account_id db.accounts)) [
        | inl absent ↦
            (record { unlocked = 0; locked = none }, rw (account, absent) refl, rw absent refl)
        | inr (a, found) ↦ (
          respond a.unlocked (id + 1) o' p a.locked,
          answer_lem account_id id p a o o' found ended room there priced next,
          rw found (respond-unlocked a.unlocked (id + 1) p o' a.locked),
        )
      ]

  -- Outside of the epochs that the settlement prepared there is no outcome.
  no_outcome_lem :
      (settled ended : Option ℕ) (locked : ℕ)
      → HasRoom settled
      → IsHistory law settled locked db.epoch_outcomes
      → (ended ≡ settled) ⊎ (ended ≡ some (next_id settled))
      → (settled ≡ none) ⊎ (ended ≢ settled)
      → st.get_value (next_id ended) db.epoch_outcomes ≡ none
  no_outcome_lem none ended locked room (_, absent) place open' = absent (next_id ended)
  no_outcome_lem (some id) ended locked room history (inl same) (inl never) = cc
  no_outcome_lem (some id) ended locked room history (inl same) (inr ne) = absurd (ne same)
  no_outcome_lem (some id) ended locked room (_, _, later) (inr last) open' =
      let next = U64.add_lem id 1 (omega arith) in
      let after : next_id ended ≡ id + 1 + 1 =
        ap next_id last ∙ ap (λ (k : ℕ). U64.add k 1) next ∙ U64.add_lem (id + 1) 1 (omega arith) in
      rw after (later (id + 1 + 1) (omega arith))

  -- In a healthy database with room for the ids of the next epochs the account endpoint panics for
  -- every account that exists, as long as no epoch is settled, and whenever an epoch has ended and is
  -- not settled.
  pub account_panics :
      (ratio : CollateralRatio) (account_id : ℕ) (a : AccountBalance)
      → IsHealthy law ratio db
      → HasRoom db.last_epoch_settled
      → st.get_value account_id db.accounts ≡ some a
      → (db.last_epoch_settled ≡ none) ⊎ (db.last_epoch_ended ≢ db.last_epoch_settled)
      → account st account_id db ≡ panic outcome_must_exist
  unfolding account account_response current_epoch_id
  account_panics ratio account_id a healthy room found open' =
      let absent =
        no_outcome_lem db.last_epoch_settled db.last_epoch_ended (locked_funds law db) room
          healthy.history healthy.place open' in
      rw (account, found) (rw absent refl)
