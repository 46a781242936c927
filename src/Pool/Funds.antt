-- ===== src/Pool/Funds.antt =====
-- The funds in the accounts of the pool, and what a withdrawal takes from them.
use stabilitypool.Base.{
  ℕ, ◌+◌, ◌-◌, ◌≤◌, ◌<◌, ◌≡◌, ◌≢◌, refl, sym, ap, ◌∙◌, ◌⊎◌, inl, inr, Option, none, some, [], ◌∷◌,
  ok, arith, ltb, Bool-cases, le→leb,
}
use stabilitypool.Account.{AccountBalance, AccountWithdrawal, locked_amount}
use stabilitypool.BTreeMap
use stabilitypool.BTreeMap.Measures.{total_of, measure_or_zero, total_of-insert}
use stabilitypool.Db.{Store, IsStore, Database}
use stabilitypool.Db.Laws.{get_value-insert_self, get_value-insert_ne}
use stabilitypool.Pool.{
  unavaliable_funds, InputMeta, or_default, unlocked_or_zero, validate_input, apply_input, withdraw,
}

abbrev pub whole : AccountBalance → ℕ
whole a = a.unlocked + locked_amount a.locked

unlocked_or_zero_lem : (o : Option AccountBalance) → unlocked_or_zero o ≡ (or_default o).unlocked
unlocked_or_zero_lem none = refl
unlocked_or_zero_lem (some a) = refl

or_default_lem : (o : Option AccountBalance) → measure_or_zero whole o ≡ whole (or_default o)
or_default_lem none = omega arith
or_default_lem (some a) = refl

module _ {st : Store} (law : IsStore st) where
  -- All the funds in the accounts, unlocked and locked.
  abbrev pub funds : Database st → ℕ
  funds db = total_of whole (st.find_by_prefix db.accounts)

  -- An account that is written changes the funds by the difference.
  pub funds-insert :
      (k : ℕ) (a : AccountBalance) (db : Database st)
      → funds (record db { accounts = st.insert_entry k a db.accounts })
          + whole (or_default (st.get_value k db.accounts))
        ≡ funds db + whole a
  funds-insert k a db =
      let m = st.find_by_prefix db.accounts in
      let written : funds (record db { accounts = st.insert_entry k a db.accounts })
          ≡ total_of whole (BTreeMap.insert k a m) =
        ap (total_of whole) (law.find-insert k a db.accounts) in
      let old : measure_or_zero whole (BTreeMap.get k m)
          ≡ whole (or_default (st.get_value k db.accounts)) =
        ap (measure_or_zero whole) (sym (law.get_value-eq k db.accounts))
        ∙ or_default_lem (st.get_value k db.accounts) in
      omega (arith, written, old, total_of-insert whole k a m (law.find-IsSorted db.accounts))

  -- Every other account is the same in both databases.
  abbrev pub IsUntouched : ℕ → (db db' : Database st) → Type 0
  IsUntouched account db db' =
      (j : ℕ) → j ≢ account → st.get_value j db'.accounts ≡ st.get_value j db.accounts

  -- The check of a withdrawal asks whether the unlocked balance covers it.
  pub validate_input_lem :
      (w : AccountWithdrawal) (db : Database st)
      → let old = or_default (st.get_value w.account db.accounts) in
        ((old.unlocked < w.amount)
          × (validate_input st w db ≡ inl (unavaliable_funds w.amount old.unlocked)))
        ⊎ ((w.amount ≤ old.unlocked)
            × (validate_input st w db
                ≡ inr (record {
                  amount = record { amount = w.amount; fee = 0 };
                  puk_keys = w.account ∷ [];
                })))
  unfolding validate_input
  validate_input_lem w db =
      let o = st.get_value w.account db.accounts in
      let same = unlocked_or_zero_lem o in
      elim (Bool-cases (ltb (unlocked_or_zero o) w.amount)) [
        | inl less ↦ inl (
          ground arith,
          rw (validate_input, less) (ap (λ n. inl (unavaliable_funds w.amount n)) same),
        )
        | inr covered ↦ inr (ground arith, rw (validate_input, covered) refl)
      ]

  -- A withdrawal returns. It is refused if the unlocked balance is less than the amount, and
  -- otherwise takes exactly the amount from the unlocked balance of its account and from the funds
  -- of the pool, and changes no other account.
  pub apply_input_lem :
      (w : AccountWithdrawal) (db : Database st)
      → let old = or_default (st.get_value w.account db.accounts) in
        ((old.unlocked < w.amount)
          × (apply_input st w db ≡ ok (inl (unavaliable_funds w.amount old.unlocked))))
        ⊎ ((w.amount ≤ old.unlocked)
            × (meta : InputMeta) × (db' : Database st) × (apply_input st w db
                ≡ ok (inr (meta, db')))
            × (meta.amount.amount ≡ w.amount)
            × (meta.amount.fee ≡ 0)
            × (db' ≡ record db { accounts = db'.accounts })
            × (st.get_value w.account db'.accounts
                ≡ some (record old { unlocked = old.unlocked - w.amount }))
            × IsUntouched w.account db db'
            × (funds db' + w.amount ≡ funds db))
  unfolding apply_input withdraw
  apply_input_lem w db =
      let old = or_default (st.get_value w.account db.accounts) in
      elim (validate_input_lem w db) [
        | inl (less, refused) ↦ inl (less, rw (apply_input, refused) refl)
        | inr (le, valid) ↦
            let a : AccountBalance = record old { unlocked = old.unlocked - w.amount } in
            inr (
              le,
              record { amount = record { amount = w.amount; fee = 0 }; puk_keys = w.account ∷ [] },
              record db { accounts = st.insert_entry w.account a db.accounts },
              rw (apply_input, valid) (rw (withdraw, le→leb w.amount old.unlocked le) refl),
              refl,
              refl,
              refl,
              get_value-insert_self law w.account a db.accounts,
              (λ j ne. get_value-insert_ne law j w.account a db.accounts ne),
              omega (arith, funds-insert w.account a db),
            )
      ]
