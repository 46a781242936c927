-- ===== src/Epoch/Process/Phases.antt =====
-- The epochs as the peers see them: two phases for each epoch, which the items of epoch.rs move through.
use stabilitypool.Base.{
  ℕ, ◌+◌, ◌≡◌, ◌≢◌, refl, sym, ap, ◌∙◌, ◌⊎◌, inl, inr, Option, none, some, ok, arith,
}
use stabilitypool.Base.U64
use stabilitypool.Epoch.Types.{EpochEnd, EpochConfig, ConsensusItemOutcome}
use stabilitypool.Epoch.State.{next_id}
use stabilitypool.Epoch.State.Progress.{HasRoom}
use stabilitypool.Epoch.Process.{process_consensus_item}
use stabilitypool.Epoch.Process.Health.{IsFair, IsPool, IsHealthy}
use stabilitypool.Epoch.Process.Items.{next_id-HasRoom, process_consensus_item-IsHealthy}
use stabilitypool.Db.{Store, IsStore, Database}

-- The number of settled epochs, and whether the next epoch goes on or has ended and waits for its price.
pub data Phase : Type 0 where
  underway : (settled : ℕ) → Phase
  awaiting : (settled : ℕ) → Phase

-- What one item does to the phase.
pub data Moves : Phase → Phase → Type 0 where
  stay : (p : Phase) → Moves p p
  finish : (n : ℕ) → Moves (underway n) (awaiting n)
  settle : (n m : ℕ) → m ≡ n + 1 → Moves (awaiting n) (underway m)
  finish_and_settle : (n m : ℕ) → m ≡ n + 1 → Moves (underway n) (underway m)

-- The phase of the two records of a database: the last ended and the last settled epoch.
abbrev pub IsPhase : (ended settled : Option ℕ) → Phase → Type 0
IsPhase ended settled (underway n) = (next_id settled ≡ n) × (ended ≡ settled)
IsPhase ended settled (awaiting n) = (next_id settled ≡ n) × (ended ≡ some n)

some_eq : {a b : ℕ} → some a ≡ some b → a ≡ b
some_eq e = cc

-- The last settled epoch is neither the next one nor the one after it.
next_id-ne : (settled : Option ℕ) → HasRoom settled → settled ≢ some (next_id settled)
next_id-ne none room e = cc
next_id-ne (some id) room e =
    let same : id ≡ U64.add id 1 = some_eq e in omega (arith, U64.add_lem id 1 (omega arith))

next_id-ne_after : (settled : Option ℕ) → HasRoom settled → settled ≢ some (next_id settled + 1)
next_id-ne_after none room e = cc
next_id-ne_after (some id) room e =
    let same : id ≡ U64.add id 1 + 1 = some_eq e in omega (arith, U64.add_lem id 1 (omega arith))

module _ (ended settled ended' settled' : Option ℕ) (room : HasRoom settled)
    (ending : (ended' ≡ ended) ⊎ (ended' ≡ some (next_id settled))) where
  -- The phase after an item that settled nothing.
  unsettled_lem :
      (p : Phase)
      → IsPhase ended settled p
      → (ended' ≡ settled') ⊎ (ended' ≡ some (next_id settled'))
      → settled' ≡ settled
      → (p' : Phase) × IsPhase ended' settled' p' × Moves p p'
  unsettled_lem (underway n) (e, same) (inl place) kept =
      (underway n, (ap next_id kept ∙ e, place), Moves.stay (underway n))
  unsettled_lem (underway n) (e, same) (inr place) kept =
      (awaiting n, (ap next_id kept ∙ e, cc (place, kept, e)), Moves.finish n)
  unsettled_lem (awaiting n) (e, last) (inr place) kept =
      (awaiting n, (ap next_id kept ∙ e, cc (place, kept, e)), Moves.stay (awaiting n))
  unsettled_lem (awaiting n) (e, last) (inl place) kept =
      let back : settled ≡ some (next_id settled) = elim ending [
        | inl same ↦ cc (same, place, kept, last, e)
        | inr next ↦ cc (next, place, kept)
      ] in
      absurd (next_id-ne settled room back)

  after : settled' ≡ some (next_id settled) → next_id settled' ≡ next_id settled + 1
  after done = ap next_id done ∙ U64.add_lem (next_id settled) 1 (next_id-HasRoom settled room)

  next_ne : some (next_id settled) ≢ some (next_id settled + 1)
  next_ne e = let same : next_id settled ≡ next_id settled + 1 = some_eq e in omega arith

  -- The phase after a settlement.
  settled_lem :
      (p : Phase)
      → IsPhase ended settled p
      → (ended' ≡ settled') ⊎ (ended' ≡ some (next_id settled'))
      → settled' ≡ some (next_id settled)
      → (p' : Phase) × IsPhase ended' settled' p' × Moves p p'
  settled_lem (underway n) (e, same) (inl place) done = (
    underway (n + 1),
    (after done ∙ ap (λ k. k + 1) e, place),
    Moves.finish_and_settle n (n + 1) refl,
  )
  settled_lem (awaiting n) (e, last) (inl place) done =
      (underway (n + 1), (after done ∙ ap (λ k. k + 1) e, place), Moves.settle n (n + 1) refl)
  settled_lem (underway n) (e, same) (inr place) done =
      let far : ended' ≡ some (next_id settled + 1) = place ∙ ap some (after done) in
      absurd (elim ending [
        | inl kept ↦ next_id-ne_after settled room (sym same ∙ sym kept ∙ far)
        | inr next ↦ next_ne (sym next ∙ far)
      ])
  settled_lem (awaiting n) (e, last) (inr place) done =
      let far : ended' ≡ some (next_id settled + 1) = place ∙ ap some (after done) in
      absurd (elim ending [
        | inl kept ↦ next_ne (ap some e ∙ sym last ∙ sym kept ∙ far)
        | inr next ↦ next_ne (sym next ∙ far)
      ])

-- For a pool whose ratio has no 0 and at most 87 on the provider side, whose maximal feerate is at
-- most 100 % and whose threshold is not 0, in a healthy database with room for the ids of the next
-- epochs, an item with a `u64` price that is not 0, or with none, is processed with no panic, and it
-- moves the phase of the database by one move: the phase stays, the epoch underway ends, the ended
-- epoch is settled and the next one is underway, or both at once. The database stays healthy.
pub process_consensus_item-Moves :
    {st : Store} (law : IsStore st) (config : EpochConfig) (peer : ℕ) (e : EpochEnd)
    (db : Database st) (p : Phase)
    → IsPool config
    → IsHealthy law config.collateral_ratio db
    → HasRoom db.last_epoch_settled
    → IsFair e.price
    → IsPhase db.last_epoch_ended db.last_epoch_settled p
    → (db' : Database st) × (outcome : ConsensusItemOutcome) × (p' : Phase)
      × (process_consensus_item st config peer e db ≡ ok (db', outcome))
      × IsPhase db'.last_epoch_ended db'.last_epoch_settled p'
      × Moves p p'
      × IsHealthy law config.collateral_ratio db'
process_consensus_item-Moves law config peer e db p pool healthy room fair phase =
    let (db', outcome, done, (healthy', _, _, (ending, settling))) =
      process_consensus_item-IsHealthy law config peer e db pool healthy room fair in
    let ended = db.last_epoch_ended in
    let settled = db.last_epoch_settled in
    let ended' = db'.last_epoch_ended in
    let settled' = db'.last_epoch_settled in
    let (p', phase', moves) : (p' : Phase) × IsPhase ended' settled' p' × Moves p p' =
      elim settling [
        | inl kept ↦
            unsettled_lem ended settled ended' settled' room ending p phase healthy'.place kept
        | inr next ↦
            settled_lem ended settled ended' settled' room ending p phase healthy'.place next.0
      ] in
    (db', outcome, p', done, phase', moves, healthy')
