-- ===== src/Epoch/Propose/Checks.antt =====
-- What this peer proposes (epoch.rs), against the requirements of its processing.
use stabilitypool.Base.{
  ℕ, ◌≡◌, ◌≢◌, refl, sym, subst, ◌⊎◌, inl, inr, ◌↔◌, Bool, true, false, ◌&&◌, not, Option, none,
  some, List, [], ◌∷◌, Exec, ok, arith, Bool-cases,
}
use stabilitypool.Clock.{Clock}
use stabilitypool.Config.{Oracle, epoch_id_for_time, price_at_epoch_start}
use stabilitypool.BackOff as BackOffs
use stabilitypool.BackOff.{BackOff, record_failure, reset}
use stabilitypool.Epoch.Types.{EpochEnd, EpochConfig}
use stabilitypool.Epoch.State.{option_lt, next_id, expected_epoch_end_id}
use stabilitypool.Epoch.State.Progress.{IsInStep, expected_epoch_end_id_lem}
use stabilitypool.Epoch.Process.{from_db, check_requirements}
use stabilitypool.Epoch.Propose.{can_propose, consensus_proposal, propose_now, propose_for}
use stabilitypool.Db.{Store, Database}

module _ (clock : Clock) (config : EpochConfig) (oracle : Oracle clock) (now : clock.Time)
    (st : Store) (backoff : BackOff) (db : Database st) where
  -- The end that is proposed, and that it passes `check_requirements`.
  abbrev pub IsWanted : Option ℕ → List EpochEnd → Type 0
  IsWanted price ends =
      (e : EpochEnd) × (q : ℕ × Bool) × (ends ≡ e ∷ [])
      × (e.price ≡ price)
      × (e.epoch_id ≡ next_id db.last_epoch_settled)
      × (expected_epoch_end_id (from_db st db) ≡ ok q)
      × (check_requirements q e ≡ none)

  -- A settlement for which the oracle has no price.
  abbrev pub IsPriceless : Option ℕ → BackOff → List EpochEnd → Type 0
  IsPriceless price backoff' ends =
      (price ≡ none)
      × (ends ≡ [])
      × (db.last_epoch_ended ≢ db.last_epoch_settled)
      × (backoff' ≡ record_failure clock now backoff)

  meets :
      (n : ℕ) (needs : Bool) (price : Option ℕ)
      → ((needs ≡ true) → price ≢ none)
      → check_requirements (n, needs) (record { price = price; epoch_id = n }) ≡ none
  unfolding check_requirements
  meets n false price h = ground arith
  meets n true none h = absurd (h refl refl)
  meets n true (some p) h = ground arith

  abbrev Answer : Option ℕ → Exec (BackOff × List EpochEnd) → Type 0
  Answer price result =
      (backoff' : BackOff) × (ends : List EpochEnd) × (result ≡ ok (backoff', ends))
      × (IsWanted price ends ⊎ IsPriceless price backoff' ends)

  propose_settled :
      (n : ℕ) (price : Option ℕ)
      → db.last_epoch_ended ≡ db.last_epoch_settled
      → expected_epoch_end_id (from_db st db) ≡ ok (next_id db.last_epoch_settled, false)
      → price_at_epoch_start clock oracle config (next_id db.last_epoch_settled) ≡ ok price
      → option_lt db.last_epoch_settled (some n) ≡ true
      → Answer price (propose_for clock config oracle now n (from_db st db) true backoff)
  unfolding propose_for
  propose_settled n none same wanted asked due = (
    record_failure clock now backoff,
    record { price = none; epoch_id = next_id db.last_epoch_settled } ∷ [],
    subst
        (λ (ended : Option ℕ).
          propose_for clock config oracle now n
            (record { latest_ended = ended; latest_settled = db.last_epoch_settled }) true backoff
          ≡ ok (
            record_failure clock now backoff,
            record { price = none; epoch_id = next_id db.last_epoch_settled } ∷ [],
          ))
        (sym same) (rw (propose_for, due) (rw asked refl)),
    inl (
      record { price = none; epoch_id = next_id db.last_epoch_settled },
      (next_id db.last_epoch_settled, false),
      refl,
      refl,
      refl,
      wanted,
      meets (next_id db.last_epoch_settled) false (none) (λ e. cc),
    ),
  )
  propose_settled n (some p) same wanted asked due = (
    (reset backoff).0,
    record { price = some p; epoch_id = next_id db.last_epoch_settled } ∷ [],
    subst
        (λ (ended : Option ℕ).
          propose_for clock config oracle now n
            (record { latest_ended = ended; latest_settled = db.last_epoch_settled }) true backoff
          ≡ ok (
            (reset backoff).0,
            record { price = some p; epoch_id = next_id db.last_epoch_settled } ∷ [],
          ))
        (sym same) (rw (propose_for, due) (rw asked refl)),
    inl (
      record { price = some p; epoch_id = next_id db.last_epoch_settled },
      (next_id db.last_epoch_settled, false),
      refl,
      refl,
      refl,
      wanted,
      meets (next_id db.last_epoch_settled) false (some p) (λ e. cc),
    ),
  )

  propose_unsettled :
      (n : ℕ) (price : Option ℕ)
      → db.last_epoch_ended ≢ db.last_epoch_settled
      → expected_epoch_end_id (from_db st db) ≡ ok (next_id db.last_epoch_settled, true)
      → price_at_epoch_start clock oracle config (next_id db.last_epoch_settled) ≡ ok price
      → option_lt db.last_epoch_settled (some n) ≡ true
      → Answer price (propose_for clock config oracle now n (from_db st db) false backoff)
  unfolding propose_for
  propose_unsettled n none other wanted asked due = (
    record_failure clock now backoff,
    [],
    rw (propose_for, due) (rw asked refl),
    inr (refl, refl, other, refl),
  )
  propose_unsettled n (some p) other wanted asked due = (
    (reset backoff).0,
    record { price = some p; epoch_id = next_id db.last_epoch_settled } ∷ [],
    rw (propose_for, due) (rw asked refl),
    inl (
      record { price = some p; epoch_id = next_id db.last_epoch_settled },
      (next_id db.last_epoch_settled, true),
      refl,
      refl,
      refl,
      wanted,
      meets (next_id db.last_epoch_settled) true (some p) (λ _ e. cc),
    ),
  )

  propose_idle :
      (n : ℕ) (settled : Bool)
      → ((settled ≡ true) → db.last_epoch_ended ≡ db.last_epoch_settled)
      → option_lt db.last_epoch_settled (some n) ≡ false
      → propose_for clock config oracle now n (from_db st db) settled backoff ≡ ok (backoff, [])
  unfolding propose_for
  propose_idle n true same idle =
      subst
        (λ (ended : Option ℕ).
          propose_for clock config oracle now n
            (record { latest_ended = ended; latest_settled = db.last_epoch_settled }) true backoff
          ≡ ok (backoff, []))
        (sym (same refl)) (rw (propose_for, idle) refl)
  propose_idle n false same idle = rw (propose_for, idle) refl

  propose_due :
      (n : ℕ) (price : Option ℕ) (settled : Bool)
      → ((settled ≡ true) ↔ (db.last_epoch_ended ≡ db.last_epoch_settled))
      → expected_epoch_end_id (from_db st db) ≡ ok (next_id db.last_epoch_settled, not settled)
      → price_at_epoch_start clock oracle config (next_id db.last_epoch_settled) ≡ ok price
      → option_lt db.last_epoch_settled (some n) ≡ true
      → Answer price (propose_for clock config oracle now n (from_db st db) settled backoff)
  propose_due n price true iff wanted asked due =
      propose_settled n price (iff.0 refl) wanted asked due
  propose_due n price false iff wanted asked due =
      propose_unsettled n price (λ e. cc (iff.1 e)) wanted asked due

  -- In a state where every ended epoch is settled, or all but the last one, and where the back-off, the
  -- clock and the oracle answer, this peer can propose exactly if the back-off allows it and the last
  -- settled epoch is before the current one. Then the proposal is one end of the epoch after the last
  -- settled one, with what the oracle answers as its price, that passes `check_requirements`; or no
  -- end, if there is no price and the epoch has ended already, and the failure is recorded. If it
  -- cannot propose, the proposal is empty and the back-off stays. Nothing is said of the comparison
  -- with an end that the peer made before.
  pub consensus_proposal-check_requirements :
      (retry : Bool) (n : ℕ) (price : Option ℕ)
      → IsInStep (from_db st db)
      → BackOffs.can_retry clock now backoff ≡ ok retry
      → epoch_id_for_time clock config now ≡ ok n
      → price_at_epoch_start clock oracle config (next_id db.last_epoch_settled) ≡ ok price
      → let due = retry && option_lt db.last_epoch_settled (some n) in
        (backoff' : BackOff) × (ends : List EpochEnd) × (can_propose clock config st now backoff db
          ≡ ok due)
        × (consensus_proposal clock config oracle now st backoff db ≡ ok (backoff', ends))
        × (((due ≡ false) × (ends ≡ []) × (backoff' ≡ backoff))
            ⊎ ((due ≡ true) × (IsWanted price ends ⊎ IsPriceless price backoff' ends)))
  unfolding consensus_proposal can_propose propose_now
  consensus_proposal-check_requirements false n price step tried dated asked = (
    backoff,
    [],
    rw (can_propose, tried) refl,
    rw (consensus_proposal, tried) refl,
    inl (refl, refl, refl),
  )
  consensus_proposal-check_requirements true n price step tried dated asked =
      let (settled, checked, iff, wanted, _) = expected_epoch_end_id_lem (from_db st db) step in
      let allowed : can_propose clock config st now backoff db
          ≡ ok (option_lt db.last_epoch_settled (some n)) =
        rw (can_propose, tried) (rw dated refl) in
      elim (Bool-cases (option_lt db.last_epoch_settled (some n))) [
        | inr idle ↦ (
          backoff,
          [],
          allowed,
          rw (consensus_proposal, tried)
              (rw (propose_now, dated) (rw checked (propose_idle n settled iff.0 idle))),
          inl (idle, refl, refl),
        )
        | inl due ↦
            let (backoff', ends, done, good) = propose_due n price settled iff wanted asked due in
            (
              backoff',
              ends,
              allowed,
              rw (consensus_proposal, tried) (rw (propose_now, dated) (rw checked done)),
              inr (due, good),
            )
      ]
