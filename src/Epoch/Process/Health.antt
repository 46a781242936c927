-- ===== src/Epoch/Process/Health.antt =====
-- What the database of the module satisfies between the consensus items, and the settlement of an
-- epoch (epoch.rs) in these terms.
use stabilitypool.Base.{
  ℕ, ◌+◌, ◌*◌, ◌^◌, ◌≤◌, ◌<◌, ◌≡◌, refl, sym, ap, subst, ◌∙◌, ◌⊎◌, inl, inr, Option, none, some,
  All, ok, arith,
}
use stabilitypool.Base.U64
use stabilitypool.Action.Types.{ActionStaged}
use stabilitypool.StabilityCore.Ratio.{CollateralRatio}
use stabilitypool.StabilityCore.Feerate.{from_ppm_feerate}
use stabilitypool.StabilityCore.Matching.Step.{IsPoolRatio}
use stabilitypool.Epoch.Types.{EpochOutcome, EpochConfig}
use stabilitypool.Epoch.State.{next_id}
use stabilitypool.Epoch.State.Progress.{HasRoom}
use stabilitypool.Epoch.Settle.Funds.{locked_funds, OnlyAccounts}
use stabilitypool.Epoch.Settle.Conservation.{IsBackedUp, IsPriced, settle_locked_balances_conserves}
use stabilitypool.Epoch.Process.{or_dummy, settle_epoch}
use stabilitypool.Epoch.Process.Matched.{AreKeyed}
use stabilitypool.Epoch.Process.Starting.{IsStarted, start_epoch-IsStarted}
use stabilitypool.Pool.Funds.{funds}
use stabilitypool.Db.{Store, IsStore, Database}
use stabilitypool.Db.Laws.{get_value-insert_self, get_value-insert_ne}

-- A price, if there is one, is a `u64` and not 0.
abbrev pub IsFair : Option ℕ → Type 0
IsFair none = Unit
IsFair (some p) = (0 < p) × (p < 2 ^ 64)

-- The configuration of a pool that the theorems are about.
pub record IsPool (config : EpochConfig) : Type 0 where
  pub ratio : IsPoolRatio config.collateral_ratio
  pub feerate_le : config.max_feerate_ppm ≤ 1_000_000
  pub threshold_pos : 0 < config.price_threshold

module _ {st : Store} (law : IsStore st) where
  -- Before the first settlement nothing is locked in, and there is no outcome. After one the settled
  -- epoch has its price, the next one an outcome without a price, and the later ones none.
  abbrev pub IsHistory : (settled : Option ℕ) (locked : ℕ) → st.Table EpochOutcome → Type 0
  IsHistory none locked outcomes = (locked ≡ 0) × ((k : ℕ) → st.get_value k outcomes ≡ none)
  IsHistory (some id) locked outcomes =
      ((o : EpochOutcome) × (p : ℕ) × (st.get_value id outcomes ≡ some o)
        × (o.settled_price ≡ some p)
        × (p < 2 ^ 64))
      × ((o : EpochOutcome) × (st.get_value (id + 1) outcomes ≡ some o)
          × (o.settled_price ≡ none)
          × (o.feerate < 2 ^ 64))
      × ((k : ℕ) → id + 1 < k → st.get_value k outcomes ≡ none)

  pub record IsHealthy (ratio : CollateralRatio) (db : Database st) : Type 0 where
    pub place :
        (db.last_epoch_ended ≡ db.last_epoch_settled)
        ⊎ (db.last_epoch_ended ≡ some (next_id db.last_epoch_settled))
    pub fits : funds law db * ratio.seeker < 2 ^ 63
    pub backed_up : IsBackedUp law db
    pub keyed : AreKeyed (st.find_by_prefix db.actions_staged)
    pub fair : All (λ e. IsFair e.1.price) (st.find_by_prefix db.epoch_ends)
    pub history : IsHistory db.last_epoch_settled (locked_funds law db) db.epoch_outcomes

  -- The outcome of the epoch that is settled next, as the settlement finds it.
  abbrev pub IsOpen : ℕ → Database st → Type 0
  IsOpen id db =
      let old = or_dummy (st.get_value id db.epoch_outcomes) in
      (old.settled_price ≡ none)
      × (old.feerate < 2 ^ 64)
      × ((k : ℕ) → id < k → st.get_value k db.epoch_outcomes ≡ none)

  pub history_lem :
      (settled : Option ℕ) (db : Database st)
      → HasRoom settled
      → IsHistory settled (locked_funds law db) db.epoch_outcomes
      → IsOpen (next_id settled) db × IsPriced law (next_id settled) db
  unfolding from_ppm_feerate U64.mul
  history_lem none db room (unlocked, absent) =
      ((rw (absent 0) refl, rw (absent 0) (omega arith), λ k _. absent k), inl (refl, unlocked))
  history_lem (some id) db room ((o, p, there, priced, lt), (o', next, unpriced, fee), later) =
      rw (U64.add_lem id 1 (omega arith))
        ((rw next unpriced, rw next fee, later), inr (id, o, p, refl, there, priced, lt))

  -- The settlement of an epoch at a price, in terms of the database before and after.
  pub record IsSettledAt (id price : ℕ) (db db' : Database st) : Type 0 where
    pub settled : db'.last_epoch_settled ≡ some id
    pub ended : db'.last_epoch_ended ≡ db.last_epoch_ended
    pub ends : db'.epoch_ends ≡ db.epoch_ends
    pub deposits : db'.deposit_outcomes ≡ db.deposit_outcomes
    pub same_funds : funds law db' ≡ funds law db
    pub backed_up : IsBackedUp law db'
    pub keyed : AreKeyed (st.find_by_prefix db'.actions_staged)
    pub old :
        (o : EpochOutcome) × (st.get_value id db'.epoch_outcomes ≡ some o)
        × (o.settled_price ≡ some price)
    pub new :
        (o : EpochOutcome) × (st.get_value (id + 1) db'.epoch_outcomes ≡ some o)
        × (o.settled_price ≡ none)
        × (o.feerate < 2 ^ 64)
    pub later : (k : ℕ) → id + 1 < k → st.get_value k db'.epoch_outcomes ≡ none

  IsPriced-insert :
      (id : ℕ) (o : EpochOutcome) (db : Database st)
      → IsPriced law id db
      → IsPriced law id (record db {
        last_epoch_settled = some id;
        epoch_outcomes = st.insert_entry id o db.epoch_outcomes;
      })
  IsPriced-insert id o db (inl first) = inl first
  IsPriced-insert id o db (inr (prev, before, p, next, there, rest, lt)) = inr (
    prev,
    before,
    p,
    next,
    get_value-insert_ne law prev id o db.epoch_outcomes (omega (arith, next)) ∙ there,
    rest,
    lt,
  )

  outcomes_lem :
      (id : ℕ) (old new : EpochOutcome) (t t' t'' : st.Table EpochOutcome)
      → id + 1 < 2 ^ 64
      → t' ≡ st.insert_entry id old t
      → t'' ≡ st.insert_entry (U64.add id 1) new t'
      → ((k : ℕ) → id < k → st.get_value k t ≡ none)
      → (st.get_value id t'' ≡ some old)
        × (st.get_value (id + 1) t'' ≡ some new)
        × ((k : ℕ) → id + 1 < k → st.get_value k t'' ≡ none)
  outcomes_lem id old new t t' t'' room e e' later =
      let next = U64.add_lem id 1 room in
      rw e' (
        rw next (
          get_value-insert_ne law id (id + 1) new t' (omega arith)
              ∙ rw e (get_value-insert_self law id old t),
          get_value-insert_self law (id + 1) new t',
          λ k lt.
              get_value-insert_ne law k (id + 1) new t' (omega arith)
              ∙ rw e (get_value-insert_ne law k id old t (omega arith) ∙ later k (omega arith)),
        ))

  IsStarted-IsSettledAt :
      (id price : ℕ) (outcome : EpochOutcome) (db db2 db' : Database st)
      → id + 1 < 2 ^ 64
      → outcome.settled_price ≡ some price
      → OnlyAccounts law
          (record db {
            last_epoch_settled = some id;
            epoch_outcomes = st.insert_entry id outcome db.epoch_outcomes;
          })
          db2
      → funds law db2 ≡ funds law db
      → IsStarted law (U64.add id 1) db2 db'
      → ((k : ℕ) → id < k → st.get_value k db.epoch_outcomes ≡ none)
      → IsSettledAt id price db db'
  IsStarted-IsSettledAt id price outcome db db2 db' room priced only same
        (o, shape, unpriced, fee', same', backed, keyed') later =
      let outcomes =
        outcomes_lem id outcome o db.epoch_outcomes db2.epoch_outcomes db'.epoch_outcomes room
          (ap (λ (d : Database st). d.epoch_outcomes) only)
          (ap (λ (d : Database st). d.epoch_outcomes) shape) later in
      record {
        settled =
            ap (λ (d : Database st). d.last_epoch_settled) shape
            ∙ ap (λ (d : Database st). d.last_epoch_settled) only;
        ended =
            ap (λ (d : Database st). d.last_epoch_ended) shape
            ∙ ap (λ (d : Database st). d.last_epoch_ended) only;
        ends =
            ap (λ (d : Database st). d.epoch_ends) shape
            ∙ ap (λ (d : Database st). d.epoch_ends) only;
        deposits =
            ap (λ (d : Database st). d.deposit_outcomes) shape
            ∙ ap (λ (d : Database st). d.deposit_outcomes) only;
        same_funds = same' ∙ same;
        backed_up = backed;
        keyed = keyed';
        later = outcomes.2;
        old = (outcome, outcomes.0, priced);
        new = (o, outcomes.1, unpriced, fee');
      }

  pub settle_epoch-IsSettledAt :
      (config : EpochConfig) (id price : ℕ) (db : Database st)
      → IsPool config
      → IsHealthy config.collateral_ratio db
      → 0 < price
      → price < 2 ^ 64
      → id + 1 < 2 ^ 64
      → IsOpen id db
      → IsPriced law id db
      → (db' : Database st) × (settle_epoch st config id price db ≡ ok db')
        × IsSettledAt id price db db'
  unfolding settle_epoch
  settle_epoch-IsSettledAt config id price db pool healthy pos lt room (open', fee, later) priced =
      let old = or_dummy (st.get_value id db.epoch_outcomes) in
      let outcome : EpochOutcome = record old { settled_price = some price } in
      let db1 : Database st = record db {
        last_epoch_settled = some id;
        epoch_outcomes = st.insert_entry id outcome db.epoch_outcomes;
      } in
      let small : funds law db ≤ funds law db * config.collateral_ratio.seeker =
        grind (arith, pool.ratio.valid.seeker_pos) in
      let (db2, payouts, settled, only, same, unlocked, sorted) =
        settle_locked_balances_conserves law db1 id price outcome refl pos lt fee
          (IsPriced-insert id outcome db priced) healthy.backed_up
          (omega (arith, small, healthy.fits)) in
      let keyed : AreKeyed (st.find_by_prefix db2.actions_staged) =
        subst (λ (t : st.Table ActionStaged). AreKeyed (st.find_by_prefix t))
          (sym (ap (λ (d : Database st). d.actions_staged) only)) healthy.keyed in
      let (db', started, begun) =
        start_epoch-IsStarted law config id payouts db2 pool.ratio pool.feerate_le sorted unlocked
          keyed
          (subst (λ (n : ℕ). n * config.collateral_ratio.seeker < 2 ^ 63) (sym same)
            healthy.fits) in
      (
        db',
        rw open' (rw settled started),
        IsStarted-IsSettledAt id price outcome db db2 db' room refl only same begun later,
      )
