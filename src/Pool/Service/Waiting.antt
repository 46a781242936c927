-- ===== src/Pool/Service/Waiting.antt =====
-- When the waiting for a proposal ends (stabilitypool-server/src/lib.rs).
use stabilitypool.Base.{
  ℕ, zero, suc, ◌+◌, ◌≤◌, ◌<◌, ◌≡◌, refl, ◌⊎◌, inl, inr, ◌↔◌, Bool, true, false, ◌&&◌, some, ok,
  arith, ◌==◌, Bool-cases, subst,
}
use stabilitypool.Clock.{Clock}
use stabilitypool.Config.{epoch_id_for_time}
use stabilitypool.BackOff as BackOffs
use stabilitypool.Action.Proposed.{Schnorr, has_epoch_items}
use stabilitypool.Action.Process as ActionProcess
use stabilitypool.Epoch.State.{option_lt, next_id, staging_epoch_id}
use stabilitypool.Epoch.State.Progress.{IsInStep, expected_epoch_end_id_lem}
use stabilitypool.Epoch.Process.{from_db}
use stabilitypool.Epoch.Propose as EpochPropose
use stabilitypool.Pool.Service.{epoch_config, Round, can_propose, await_consensus_proposal}
use stabilitypool.Db.{Store}

module _ (schnorr : Schnorr) (Url : Type 0) (st : Store) (clock : Clock) where
  -- Every ended epoch is settled, or all but the last one, and the back-off and the clock answer.
  pub record IsAnswering (r : Round schnorr Url st clock) : Type 0 where
    pub step : IsInStep (from_db st r.db)
    pub retry : Bool
    pub tried : BackOffs.can_retry clock r.now r.pool.backoff ≡ ok retry
    pub id : ℕ
    pub dated : epoch_id_for_time clock (epoch_config schnorr Url r.pool) r.now ≡ ok id

  -- All the ended epochs are settled, and there is an action for the epoch after the current one.
  abbrev pub HasAction : Round schnorr Url st clock → Type 0
  HasAction r =
      (r.db.last_epoch_ended ≡ r.db.last_epoch_settled)
      × (has_epoch_items schnorr (next_id r.db.last_epoch_settled + 1) r.pool.proposed_db ≡ true)

  -- The back-off allows it, and the last settled epoch is before the current one.
  abbrev pub IsDue : (r : Round schnorr Url st clock) → IsAnswering r → Type 0
  IsDue r answers =
      (answers.retry ≡ true) × (option_lt r.db.last_epoch_settled (some answers.id) ≡ true)

  abbrev pub IsReady : (r : Round schnorr Url st clock) → IsAnswering r → Type 0
  IsReady r answers = HasAction r ⊎ IsDue r answers

  can_propose_epoch :
      (r : Round schnorr Url st clock) (answers : IsAnswering r)
      → EpochPropose.can_propose clock
          (epoch_config schnorr Url r.pool)
          st
          r.now
          r.pool.backoff
          r.db
        ≡ ok (answers.retry && option_lt r.db.last_epoch_settled (some answers.id))
  unfolding EpochPropose.can_propose
  can_propose_epoch r answers = elim (Bool-cases answers.retry) [
    | inl yes' ↦ rw answers.tried (rw yes' (rw answers.dated refl))
    | inr no' ↦ rw answers.tried (rw no' refl)
  ]

  can_propose_action :
      (r : Round schnorr Url st clock)
      → IsInStep (from_db st r.db)
      → (b : Bool) × (ActionProcess.can_propose st schnorr (r.db, r.pool.proposed_db) ≡ ok b)
        × ((b ≡ true) ↔ HasAction r)
  unfolding ActionProcess.can_propose
  can_propose_action r step =
      let (settled, checked, iff, _, staging) = expected_epoch_end_id_lem (from_db st r.db) step in
      elim (Bool-cases settled) [
        | inr not_yet ↦ (
          false,
          rw checked (rw not_yet refl),
          (λ e. cc, λ h. absurd (cc (iff.1 (h.0), not_yet))),
        )
        | inl is ↦
            let at : staging_epoch_id (from_db st r.db) ≡ next_id r.db.last_epoch_settled + 1 =
              rw is at staging in
            (
              has_epoch_items schnorr (next_id r.db.last_epoch_settled + 1) r.pool.proposed_db,
              rw checked (rw is (rw at refl)),
              (λ e. (iff.0 is, e), λ h. h.1),
            )
      ]

  pub and_iff : (a b : Bool) → ((a && b) ≡ true) ↔ ((a ≡ true) × (b ≡ true))
  and_iff true b = (λ e. (refl, e), λ h. h.1)
  and_iff false b = (λ e. cc, λ h. cc (h.0))

  -- The tests of a round say whether it is ready.
  can_propose_lem :
      (r : Round schnorr Url st clock) (answers : IsAnswering r)
      → (b : Bool) × (can_propose schnorr Url st clock r ≡ ok b) × ((b ≡ true) ↔ IsReady r answers)
  unfolding can_propose
  can_propose_lem r answers =
      let (action, asked, iff) = can_propose_action r answers.step in
      let due = answers.retry && option_lt r.db.last_epoch_settled (some answers.id) in
      let both = and_iff answers.retry (option_lt r.db.last_epoch_settled (some answers.id)) in
      elim (Bool-cases action) [
        | inl is ↦ (true, rw asked (rw is refl), (λ e. inl (iff.0 is), λ h. refl))
        | inr not_yet ↦ (
          due,
          rw asked (rw not_yet (can_propose_epoch r answers)),
          (
            λ e. inr (both.0 e),
            λ h. elim h [ inl has ↦ absurd (cc (iff.1 has, not_yet)) | inr is ↦ both.1 is ],
          ),
        )
      ]

  module _ (at : ℕ → Round schnorr Url st clock) (answers : (n : ℕ) → IsAnswering (at n)) where
    -- The first ready round from the n-th on.
    abbrev pub IsFirst : (n j : ℕ) → Type 0
    IsFirst n j =
        (n ≤ j)
        × IsReady (at j) (answers j)
        × ((i : ℕ) → n ≤ i → i < j → ¬ IsReady (at i) (answers i))

    await-IsFirst :
        (rounds n k : ℕ)
        → k < rounds
        → IsReady (at (n + k)) (answers (n + k))
        → (j : ℕ) × (j ≤ n + k)
          × (await_consensus_proposal schnorr Url st clock rounds n at ≡ ok (some j))
          × IsFirst n j
    unfolding await_consensus_proposal
    await-IsFirst zero n k lt ready = absurd (omega arith)
    await-IsFirst (suc rounds) n zero lt ready =
        let here : n + zero ≡ n = omega arith in
        let now = subst (λ (m : ℕ). IsReady (at m) (answers m)) here ready in
        let (b, tested, iff) = can_propose_lem (at n) (answers n) in
        (
          n,
          omega arith,
          rw tested (rw (iff.1 now) refl),
          (omega arith, now, λ i le less. absurd (omega arith)),
        )
    await-IsFirst (suc rounds) n (suc k) lt ready =
        let (b, tested, iff) = can_propose_lem (at n) (answers n) in
        elim (Bool-cases b) [
          | inl is ↦ (
            n,
            omega arith,
            rw tested (rw is refl),
            (omega arith, iff.0 is, λ i le less. absurd (omega arith)),
          )
          | inr not_yet ↦
              let next : n + suc k ≡ n + 1 + k = omega arith in
              let (j, le, done, (above, is, others)) =
                await-IsFirst rounds (n + 1) k (omega arith)
                  (subst (λ (m : ℕ). IsReady (at m) (answers m)) next ready) in
              (
                j,
                omega (arith, next),
                rw tested (rw not_yet done),
                (
                  omega arith,
                  is,
                  λ i ge less. elim (Bool-cases (n == i)) [
                    | inl same ↦ λ h.
                        let exact : i ≡ n = ground arith in
                        cc (iff.1 (subst (λ (m : ℕ). IsReady (at m) (answers m)) exact h), not_yet)
                    | inr other ↦ others i (ground arith) less
                  ],
                ),
              )
        ]

    -- In rounds where every ended epoch is settled, or all but the last one, and where the back-off
    -- and the clock answer, the waiting ends by the first round that is ready: all the ended epochs
    -- are settled and there is an action for the epoch after the current one, or the back-off allows
    -- it and the last settled epoch is before the current one.
    pub await_consensus_proposal_lem :
        (rounds k : ℕ)
        → k < rounds
        → IsReady (at k) (answers k)
        → (j : ℕ) × (j ≤ k)
          × (await_consensus_proposal schnorr Url st clock rounds 0 at ≡ ok (some j))
          × IsFirst 0 j
    await_consensus_proposal_lem rounds k lt ready =
        let zero_k : k ≡ 0 + k = omega arith in
        let (j, le, done, first) =
          await-IsFirst rounds 0 k lt
            (subst (λ (m : ℕ). IsReady (at m) (answers m)) zero_k ready) in
        (j, omega arith, done, first)
