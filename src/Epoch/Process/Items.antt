-- ===== src/Epoch/Process/Items.antt =====
-- `process_consensus_item` of epoch.rs as a whole, the settlement and the start of the next epoch
-- included.
use stabilitypool.Base.{
  ℕ, ◌+◌, ◌^◌, ◌≤◌, ◌<◌, ◌≡◌, refl, sym, subst, ◌∙◌, ◌⊎◌, inl, inr, Option, none, some, List, [],
  ◌∷◌, true, ◌*◌, All, ok, arith, ◌==◌, Bool-cases, Option-cases,
}
use stabilitypool.Base.U64
use stabilitypool.BTreeMap.Order.{All-insert}
use stabilitypool.Epoch.Types.{EpochOutcome, EpochConfig, EpochEnd, ConsensusItemOutcome, applied}
use stabilitypool.Epoch.State.{option_eq, next_id}
use stabilitypool.Epoch.State.Progress.{HasRoom, IsInStep}
use stabilitypool.Epoch.Settle.Funds.{locked_funds}
use stabilitypool.Epoch.Process.{from_db, process_consensus_item}
use stabilitypool.Epoch.Process.Tally.{votes}
use stabilitypool.Epoch.Process.Steps.{
  HasEnded, IsEndedBy, expected, ends, recorded, process_consensus_item_lem,
}
use stabilitypool.Epoch.Process.Health.{
  IsFair, IsPool, IsHistory, IsHealthy, IsSettledAt, history_lem, settle_epoch-IsSettledAt,
}
use stabilitypool.Pool.Funds.{funds}
use stabilitypool.Db.{Store, IsStore, Database}

-- A price that someone named is a fair one.
votes-IsFair :
    (p : ℕ) (es : List (ℕ × EpochEnd))
    → All (λ e. IsFair e.1.price) es
    → 0 < votes p es
    → IsFair (some p)
votes-IsFair p [] h pos = absurd (omega arith)
votes-IsFair p ((k, e) ∷ es) h pos = elim (Bool-cases (option_eq (some p) e.price)) [
  | inr other ↦ votes-IsFair p es h.1 (rw other at pos)
  | inl same ↦ elim (Option-cases e.price) [
    | inl absent ↦ absurd (cc (rw absent at same))
    | inr (q, there) ↦
        let fair : IsFair (some q) = subst IsFair there h.0 in
        let named : (p == q) ≡ true = rw there at same in ground (arith, fair, named)
  ]
]

pub next_id-HasRoom : (settled : Option ℕ) → HasRoom settled → next_id settled + 1 < 2 ^ 64
next_id-HasRoom none room = omega arith
next_id-HasRoom (some id) room = omega (arith, U64.add_lem id 1 (omega arith))

module _ {st : Store} (law : IsStore st) (config : EpochConfig) (peer : ℕ) (e : EpochEnd)
    (db : Database st) where
  -- The last ended epoch stays, or it is the one after the last settled epoch.
  abbrev pub IsEnding : Database st → Type 0
  IsEnding db' =
      (db'.last_epoch_ended ≡ db.last_epoch_ended)
      ⊎ (db'.last_epoch_ended ≡ some (next_id db.last_epoch_settled))

  -- Nothing is settled, or the next epoch is, at a price that enough of the stored ends name.
  abbrev pub HasSettled : Database st → Type 0
  HasSettled db' =
      (db'.last_epoch_settled ≡ db.last_epoch_settled)
      ⊎ ((db'.last_epoch_settled ≡ some (next_id db.last_epoch_settled))
          × (price : ℕ) × (o : EpochOutcome) × (config.price_threshold
              ≤ votes price (st.find_by_prefix db'.epoch_ends))
          × (st.get_value (next_id db.last_epoch_settled) db'.epoch_outcomes ≡ some o)
          × (o.settled_price ≡ some price))

  abbrev pub HasProgress : Database st → Type 0
  HasProgress db' = IsEnding db' × HasSettled db'

  -- A new database with the funds of the old one.
  abbrev pub IsNext : Database st → Type 0
  IsNext db' =
      IsHealthy law config.collateral_ratio db'
      × (funds law db' ≡ funds law db)
      × (db'.deposit_outcomes ≡ db.deposit_outcomes)
      × HasProgress db'

  recorded-IsHealthy :
      (ended : Option ℕ)
      → IsHealthy law config.collateral_ratio db
      → IsInStep (from_db st (recorded st config peer e db ended))
      → IsFair e.price
      → IsHealthy law config.collateral_ratio (recorded st config peer e db ended)
  recorded-IsHealthy ended healthy step fair = record {
    place = step.1;
    fits = healthy.fits;
    backed_up = healthy.backed_up;
    keyed = healthy.keyed;
    fair = rw (law.find-insert peer e db.epoch_ends) (
        All-insert (λ x. IsFair x.1.price) peer e (st.find_by_prefix db.epoch_ends) fair
          healthy.fair);
    history = healthy.history;
  }

  ending :
      (ended : Option ℕ)
      → IsEndedBy st config peer e db ended
      → IsEnding (recorded st config peer e db ended)
  ending ended (inl (_, same)) = inl same
  ending ended (inr (_, next)) = inr next

  -- An epoch that has ended is the last ended one.
  last_ended :
      (ended : Option ℕ)
      → HasEnded st config peer e db
      → IsEndedBy st config peer e db ended
      → ended ≡ some (expected st config peer e db)
  last_ended ended has (inr (_, last)) = last
  last_ended ended (inl open') (inl ((same, _), _)) = absurd (open' same)
  last_ended ended (inr many) (inl ((_, few), _)) = absurd (omega arith)

  -- The settled database is healthy.
  settled-IsNext :
      (p : ℕ) (ended : Option ℕ) (db' : Database st)
      → IsHealthy law config.collateral_ratio (recorded st config peer e db ended)
      → HasRoom db.last_epoch_settled
      → ended ≡ some (next_id db.last_epoch_settled)
      → p < 2 ^ 64
      → config.price_threshold ≤ votes p (ends st config peer e db)
      → IsSettledAt law (next_id db.last_epoch_settled) p (recorded st config peer e db ended) db'
      → IsNext db'
  settled-IsNext p ended db' healthy room last lt enough done =
      let id = next_id db.last_epoch_settled in
      let (o, old, priced) = done.old in
      (
        record {
          place = inl (done.ended ∙ last ∙ sym done.settled);
          fits =
              subst (λ (n : ℕ). n * config.collateral_ratio.seeker < 2 ^ 63) (sym done.same_funds)
                healthy.fits;
          backed_up = done.backed_up;
          keyed = done.keyed;
          fair =
              subst (λ (t : st.Table EpochEnd). All (λ x. IsFair x.1.price) (st.find_by_prefix t))
                (sym done.ends) healthy.fair;
          history =
              subst (λ (s : Option ℕ). IsHistory law s (locked_funds law db') db'.epoch_outcomes)
                (sym done.settled) ((o, p, old, priced, lt), done.new, done.later);
        },
        done.same_funds,
        done.deposits,
        (
          inr (done.ended ∙ last),
          inr (
            done.settled,
            p,
            o,
            subst
                (λ (t : st.Table EpochEnd). config.price_threshold ≤ votes p (st.find_by_prefix t))
                (sym done.ends) enough,
            old,
            priced,
          ),
        ),
      )

  -- For a pool whose ratio has no 0 and at most 87 on the provider side, whose maximal feerate is at
  -- most 100 % and whose threshold is not 0, in a healthy database with room for the ids of the next
  -- epochs, an item with a `u64` price that is not 0, or with none, is processed with no panic. The
  -- database stays healthy, the funds of the pool and the deposits stay the same, the last ended epoch
  -- stays or is the one after the last settled epoch, and either no epoch
  -- is settled or exactly the next one is, at a price that at least the threshold of the stored ends name.
  pub process_consensus_item-IsHealthy :
      IsPool config
      → IsHealthy law config.collateral_ratio db
      → HasRoom db.last_epoch_settled
      → IsFair e.price
      → (db' : Database st) × (outcome : ConsensusItemOutcome) × (process_consensus_item st config
            peer e db
          ≡ ok (db', outcome))
        × IsNext db'
  process_consensus_item-IsHealthy pool healthy room fair =
      elim (process_consensus_item_lem st config peer e db (room, healthy.place)
        pool.threshold_pos) [
          | inl (outcome, _, refused) ↦
              (db, outcome, refused, (healthy, refl, refl, (inl refl, inl refl)))
          | inr (_, _, (ended, step, by, inl (waits, _))) ↦ (
            recorded st config peer e db ended,
            applied,
            waits,
            (recorded-IsHealthy ended healthy step fair, refl, refl, (ending ended by, inl refl)),
          )
          | inr (_, _, (ended, step, by, inr (has, p, enough, settles))) ↦
              let last = last_ended ended has by in
              let next : Database st = recorded st config peer e db ended in
              let healthy' = recorded-IsHealthy ended healthy step fair in
              let (open', priced) =
                history_lem law db.last_epoch_settled next room healthy'.history in
              let (pos, lt) : IsFair (some p) =
                votes-IsFair p (ends st config peer e db) healthy'.fair
                  (omega (arith, enough, pool.threshold_pos)) in
              let (db', settled, done) =
                settle_epoch-IsSettledAt law config (next_id db.last_epoch_settled) p next pool
                  healthy' pos lt (next_id-HasRoom db.last_epoch_settled room) open' priced in
              (
                db',
                applied,
                settles ∙ rw settled refl,
                settled-IsNext p ended db' healthy' room last lt enough done,
              )
        ]
