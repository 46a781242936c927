-- ===== src/Epoch/Settle/Conservation.antt =====
-- The funds of the pool across `settle_locked_balances` of epoch.rs.
use stabilitypool.Base.{
  ℕ, ◌+◌, ◌^◌, ◌<◌, ◌≡◌, refl, ap, ◌∙◌, ◌⊎◌, inl, inr, some, [], ◌∷◌, ◌++◌, All, All-append,
  sum_of-append, ok, arith,
}
use stabilitypool.Base.U64
use stabilitypool.BTreeMap.{BTreeMap, IsSorted}
use stabilitypool.BTreeMap.Totals.{total}
use stabilitypool.Account.{AccountBalance, LockedBalance, locked_amount}
use stabilitypool.StabilityCore.Payouts.Sides.{AreEntries, IsPaidTo, calculate_payouts_returns}
use stabilitypool.Epoch.Types.{EpochOutcome}
use stabilitypool.Epoch.Settle.{or_default, withdraw_payouts, settle_locked_balances}
use stabilitypool.Epoch.Settle.Entries.{
  seeker_amount, provider_amount, side_of, side_of-IsSorted, side_of-filled, total-side_of,
  side_of-get, collect_entries_lem,
}
use stabilitypool.Epoch.Settle.Funds.{
  sum_up, unlocked_funds, locked_funds, balance_at, OnlyAccounts, AreLocked, withdraw_payouts_lem,
}
use stabilitypool.Pool.Funds.{funds}
use stabilitypool.Epoch.Settle.Sides.{
  IsPaidTo-append, IsPaidTo-IsSorted, IsSorted-Distinct, append-Distinct, total_of-whole, sides_lem,
  seeker_amount-locked, provider_amount-locked, IsOf, apart,
}
use stabilitypool.Db.{Store, IsStore, Database}

module _ {st : Store} (law : IsStore st) where
  abbrev pub seekers_locked : Database st → ℕ
  seekers_locked = sum_up law λ a. seeker_amount a.locked

  abbrev pub providers_locked : Database st → ℕ
  providers_locked = sum_up law λ a. provider_amount a.locked

  -- No seeker is locked in without a provider.
  abbrev pub IsBackedUp : Database st → Type 0
  IsBackedUp db = (seekers_locked db ≡ 0) ⊎ (0 < providers_locked db)

  -- The first epoch has nothing locked in; a later one has the price of the epoch before.
  abbrev pub IsPriced : ℕ → Database st → Type 0
  IsPriced epoch_id db =
      ((epoch_id ≡ 0) × (locked_funds law db ≡ 0))
      ⊎ ((prev : ℕ) × (o : EpochOutcome) × (p : ℕ) × (epoch_id ≡ prev + 1)
          × (st.get_value prev db.epoch_outcomes ≡ some o)
          × (o.settled_price ≡ some p)
          × (p < 2 ^ 64))

  pub funds_parts : (db : Database st) → funds law db ≡ unlocked_funds law db + locked_funds law db
  funds_parts db = total_of-whole (st.find_by_prefix db.accounts)

  -- Entries of one side are what their accounts have locked.
  AreLocked-side_of :
      (amount : LockedBalance → ℕ)
      → ((l : LockedBalance) → 0 < amount l → locked_amount l ≡ amount l)
      → (db : Database st) (es : BTreeMap ℕ) → All (IsOf amount (st.find_by_prefix db.accounts)) es
      → All (λ e. 0 < e.1) es
      → AreLocked law db es
  AreLocked-side_of amount fits db [] h f = tt
  AreLocked-side_of amount fits db ((k, x) ∷ es) ((a, there, same), h) f =
      let at_k : balance_at law k db ≡ a = ap or_default (law.get_value-eq k db.accounts ∙ there) in
      (
        rw at_k (fits a.locked (omega (arith, same, f.0)) ∙ same),
        AreLocked-side_of amount fits db es h f.1,
      )

  module _ (db : Database st) where
    abbrev accounts : BTreeMap AccountBalance
    accounts = st.find_by_prefix db.accounts

    abbrev se : BTreeMap ℕ
    se = side_of seeker_amount accounts

    abbrev pe : BTreeMap ℕ
    pe = side_of provider_amount accounts

    sums_lem :
        (total se ≡ seekers_locked db)
        × (total pe ≡ providers_locked db)
        × (locked_funds law db ≡ seekers_locked db + providers_locked db)
    sums_lem = (
      total-side_of seeker_amount accounts,
      total-side_of provider_amount accounts,
      sides_lem accounts,
    )

    AreEntries-sides :
        (f : ℕ) → f < 2 ^ 64 → IsBackedUp db → funds law db < 2 ^ 63 → AreEntries f se pe
    AreEntries-sides f hf backed lt =
        let s = law.find-IsSorted db.accounts in
        let (seekers, providers, locked) = sums_lem in
        record {
          feerate_lt = hf;
          seekers_sorted = side_of-IsSorted seeker_amount accounts s;
          providers_sorted = side_of-IsSorted provider_amount accounts s;
          seekers_filled = side_of-filled seeker_amount accounts;
          providers_filled = side_of-filled provider_amount accounts;
          pool_lt = omega (arith, seekers, providers, locked, funds_parts db);
          backed_up = ground (arith, seekers, providers, backed);
        }

    -- The withdrawals of both sides' payouts unlock everything.
    withdraw_sides_lem :
        (sp pp : BTreeMap ℕ)
        → IsPaidTo se sp
        → IsPaidTo pe pp
        → total sp + total pp ≡ total se + total pe
        → funds law db < 2 ^ 63
        → let db' = withdraw_payouts st (sp ++ pp) db in
          OnlyAccounts law db db' × (funds law db' ≡ funds law db) × (locked_funds law db' ≡ 0)
    withdraw_sides_lem sp pp to to' all lt =
        let s = law.find-IsSorted db.accounts in
        let (seekers, providers, locked) = sums_lem in
        let filled = side_of-filled seeker_amount accounts in
        let filled' = side_of-filled provider_amount accounts in
        let seek = side_of-get seeker_amount accounts s in
        let provide = side_of-get provider_amount accounts s in
        let distinct =
          append-Distinct se pe (IsSorted-Distinct se (side_of-IsSorted seeker_amount accounts s))
            (IsSorted-Distinct pe (side_of-IsSorted provider_amount accounts s))
            (apart accounts se pe seek provide filled filled') in
        let are =
          All-append (λ e. locked_amount (balance_at law e.0 db).locked ≡ e.1) se pe
            (AreLocked-side_of seeker_amount seeker_amount-locked db se seek filled)
            (AreLocked-side_of provider_amount (λ l h. (provider_amount-locked l h).0) db pe provide
              filled') in
        let paid = sum_of-append (λ (e : ℕ × ℕ). e.1) sp pp in
        let entered = sum_of-append (λ (e : ℕ × ℕ). e.1) se pe in
        let parts = funds_parts db in
        let (only, more, less) =
          withdraw_payouts_lem law (se ++ pe) (sp ++ pp) db (IsPaidTo-append se pe sp pp to to')
            distinct are (omega (arith, paid, all, seekers, providers, locked, parts)) in
        (
          only,
          omega (
            arith,
            funds_parts (withdraw_payouts st (sp ++ pp) db),
            more,
            less,
            paid,
            entered,
            all,
            parts,
          ),
          omega (arith, less, entered, seekers, providers, locked),
        )

  -- In an epoch with a `u64` price that is not 0 and a `u64` feerate, with a `u64` price of the epoch
  -- before, or in epoch 0 with nothing locked in, with no seeker locked in without a provider, and
  -- with less than 2 ^ 63 in the pool, the settlement returns. The funds of the pool stay what they are, nothing is locked any
  -- more, no record but the accounts changes, and the seekers' payouts are in the order of the accounts.
  pub settle_locked_balances_conserves :
      (db : Database st) (epoch_id price : ℕ) (outcome : EpochOutcome)
      → outcome.settled_price ≡ some price
      → 0 < price
      → price < 2 ^ 64
      → outcome.feerate < 2 ^ 64
      → IsPriced epoch_id db
      → IsBackedUp db
      → funds law db < 2 ^ 63
      → (db' : Database st) × (payouts : BTreeMap ℕ) × (settle_locked_balances st db epoch_id
            outcome
          ≡ ok (db', payouts))
        × OnlyAccounts law db db'
        × (funds law db' ≡ funds law db)
        × (locked_funds law db' ≡ 0)
        × IsSorted payouts
  unfolding settle_locked_balances
  settle_locked_balances_conserves db epoch_id price outcome priced pos lt feerate start backed
        small =
      elim start [
        | inl (first, unlocked) ↦ (db, [], rw first refl, refl, refl, unlocked, tt)
        | inr (prev, o, p, later, there, settled, p-lt) ↦
            let before : U64.checked_sub epoch_id 1 ≡ some prev = rw later (ground arith) in
            let (sp, pp, done, all, to, to') =
              calculate_payouts_returns (AreEntries-sides db outcome.feerate feerate backed small) p
                price p-lt pos lt in
            let collected = collect_entries_lem (accounts db) (law.find-IsSorted db.accounts) in
            let (only, same, unlocked) = withdraw_sides_lem db sp pp to to' all small in
            (
              withdraw_payouts st (sp ++ pp) db,
              sp,
              rw (settle_locked_balances, before)
                  (rw there (rw settled (rw priced (rw collected (rw done refl))))),
              only,
              same,
              unlocked,
              IsPaidTo-IsSorted (se db) sp to
                  (side_of-IsSorted seeker_amount (accounts db) (law.find-IsSorted db.accounts)),
            )
      ]
