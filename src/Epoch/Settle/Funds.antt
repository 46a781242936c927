-- ===== src/Epoch/Settle/Funds.antt =====
-- The funds of the pool under the settlement of epoch.rs.
use stabilitypool.Base.{
  ℕ, ◌+◌, ◌^◌, ◌≤◌, ◌<◌, ◌≡◌, ◌≢◌, refl, sym, ap, ◌∙◌, Option, none, some, [], ◌∷◌, All, arith,
}
use stabilitypool.Base.U64
use stabilitypool.BTreeMap.{BTreeMap}
use stabilitypool.BTreeMap.Totals.{total}
use stabilitypool.BTreeMap.Measures.{total_of, measure_or_zero, total_of-insert, measure_or_zero-le}
use stabilitypool.Account.{AccountBalance, LockedBalance, locked_amount, default_balance}
use stabilitypool.StabilityCore.Matching.Sorting.{Distinct}
use stabilitypool.StabilityCore.Payouts.Sides.{IsPaidTo}
use stabilitypool.Epoch.Settle.{or_default, withdraw_payout, withdraw_payouts}
use stabilitypool.Db.{Store, IsStore, Database}
use stabilitypool.Db.Laws.{get_value-insert_self, get_value-insert_ne}

module _ {st : Store} (law : IsStore st) where
  -- A measure of the balances, summed up over the accounts.
  abbrev pub sum_up : (AccountBalance → ℕ) → Database st → ℕ
  sum_up μ db = total_of μ (st.find_by_prefix db.accounts)

  abbrev pub unlocked_funds : Database st → ℕ
  unlocked_funds = sum_up λ a. a.unlocked

  abbrev pub locked_funds : Database st → ℕ
  locked_funds = sum_up λ a. locked_amount a.locked

  abbrev pub balance_at : ℕ → Database st → AccountBalance
  balance_at k db = or_default (st.get_value k db.accounts)

  -- The database with another balance of an account.
  abbrev pub with_balance : ℕ → AccountBalance → Database st → Database st
  with_balance k a db = record db { accounts = st.insert_entry k a db.accounts }

  or_default_lem :
      (μ : AccountBalance → ℕ) (o : Option AccountBalance)
      → μ default_balance ≡ 0
      → measure_or_zero μ o ≡ μ (or_default o)
  or_default_lem μ none e = sym e
  or_default_lem μ (some a) e = refl

  -- What an account counts is what it counts in the table.
  pub balance_at-le :
      (μ : AccountBalance → ℕ) (k : ℕ) (db : Database st)
      → μ default_balance ≡ 0
      → μ (balance_at k db) ≤ sum_up μ db
  balance_at-le μ k db e =
      let m = st.find_by_prefix db.accounts in
      omega (
        arith,
        or_default_lem μ (st.get_value k db.accounts) e,
        ap (measure_or_zero μ) (law.get_value-eq k db.accounts),
        measure_or_zero-le μ k m,
      )

  pub sum_up-with_balance :
      (μ : AccountBalance → ℕ) (k : ℕ) (a : AccountBalance) (db : Database st)
      → μ default_balance ≡ 0
      → sum_up μ (with_balance k a db) + μ (balance_at k db) ≡ sum_up μ db + μ a
  sum_up-with_balance μ k a db e =
      let m = st.find_by_prefix db.accounts in
      omega (
        arith,
        ap (total_of μ) (law.find-insert k a db.accounts),
        or_default_lem μ (st.get_value k db.accounts) e,
        ap (measure_or_zero μ) (law.get_value-eq k db.accounts),
        total_of-insert μ k a m (law.find-IsSorted db.accounts),
      )

  pub balance_at-with_balance :
      (k : ℕ) (a : AccountBalance) (db : Database st) → balance_at k (with_balance k a db) ≡ a
  balance_at-with_balance k a db = ap or_default (get_value-insert_self law k a db.accounts)

  pub balance_at-with_balance_ne :
      (j k : ℕ) (a : AccountBalance) (db : Database st)
      → j ≢ k
      → balance_at j (with_balance k a db) ≡ balance_at j db
  balance_at-with_balance_ne j k a db ne =
      ap or_default (get_value-insert_ne law j k a db.accounts ne)

  -- Nothing but the accounts changes.
  abbrev pub OnlyAccounts : Database st → Database st → Type 0
  OnlyAccounts db db' = db' ≡ record db { accounts = db'.accounts }

  -- The entries are what their accounts have locked.
  abbrev pub AreLocked : Database st → BTreeMap ℕ → Type 0
  AreLocked db = All λ e. locked_amount (balance_at e.0 db).locked ≡ e.1

  with_balance-AreLocked :
      (k : ℕ) (a : AccountBalance) (db : Database st) (es : BTreeMap ℕ)
      → All (λ e. e.0 ≢ k) es
      → AreLocked db es
      → AreLocked (with_balance k a db) es
  with_balance-AreLocked k a db [] new h = tt
  with_balance-AreLocked k a db ((j, x) ∷ es) new h = (
    ap (λ (b : AccountBalance). locked_amount b.locked) (balance_at-with_balance_ne j k a db new.0)
        ∙ h.0,
    with_balance-AreLocked k a db es new.1 h.1,
  )

  -- What a payout makes of the balance of its account.
  abbrev paid : ℕ → ℕ → Database st → AccountBalance
  paid k p db = record { unlocked = (balance_at k db).unlocked + p; locked = LockedBalance.none }

  withdraw_payout_lem :
      (k p : ℕ) (db : Database st)
      → (balance_at k db).unlocked + p < 2 ^ 64
      → withdraw_payout st k p db ≡ with_balance k (paid k p db) db
  unfolding withdraw_payout
  withdraw_payout_lem k p db h = rw (U64.add_lem (balance_at k db).unlocked p h) refl

  -- Payouts to the accounts of the entries unlock the entries and are added to the unlocked balances.
  pub withdraw_payouts_lem :
      (es ps : BTreeMap ℕ) (db : Database st)
      → IsPaidTo es ps
      → Distinct (λ (e : ℕ × ℕ). e.0) es
      → AreLocked db es
      → unlocked_funds db + total ps < 2 ^ 64
      → let db' = withdraw_payouts st ps db in
        OnlyAccounts db db'
        × (unlocked_funds db' ≡ unlocked_funds db + total ps)
        × (locked_funds db' + total es ≡ locked_funds db)
  unfolding withdraw_payouts
  withdraw_payouts_lem [] [] db to d h fits = (refl, omega arith, omega arith)
  withdraw_payouts_lem [] (p ∷ ps) db to d h fits = absurd to
  withdraw_payouts_lem (e ∷ es) [] db to d h fits = absurd to
  withdraw_payouts_lem ((k, x) ∷ es) ((j, p) ∷ ps) db (same, to) (new, d) h fits =
      let old = balance_at k db in
      let a = paid k p db in
      let unlocked : old.unlocked ≤ unlocked_funds db = balance_at-le (λ b. b.unlocked) k db refl in
      let step : withdraw_payouts st ((j, p) ∷ ps) db
          ≡ withdraw_payouts st ps (with_balance k a db) =
        rw same (ap (withdraw_payouts st ps) (withdraw_payout_lem k p db (omega arith))) in
      let one = sum_up-with_balance (λ b. b.unlocked) k a db refl in
      let two = sum_up-with_balance (λ b. locked_amount b.locked) k a db refl in
      let (only, more, less) =
        withdraw_payouts_lem es ps (with_balance k a db) to d
          (with_balance-AreLocked k a db es new h.1) (omega arith) in
      rw step (only, omega (arith, more, one), omega (arith, less, two, h.0))
