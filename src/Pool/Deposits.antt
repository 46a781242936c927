-- ===== src/Pool/Deposits.antt =====
-- What a deposit adds to the funds of the pool, and that it can be withdrawn.
use stabilitypool.Base.{
  ℕ, ◌+◌, ◌-◌, ◌^◌, ◌≤◌, ◌<◌, ◌≡◌, refl, sym, ap, ◌∙◌, ◌⊎◌, inl, inr, Option, none, some, ok, arith,
  ltb, Bool-cases, lt→ltb,
}
use stabilitypool.Account.{AccountBalance, AccountDeposit, AccountWithdrawal, can_add_amount}
use stabilitypool.Account.Bounds.{can_add_amount_iff}
use stabilitypool.BTreeMap
use stabilitypool.BTreeMap.Laws.{get-insert_self}
use stabilitypool.Db.{Store, IsStore, Database}
use stabilitypool.Db.Laws.{get_value-insert_self, get_value-insert_ne}
use stabilitypool.Pool.{
  deposit_too_large, TransactionItemAmount, InputMeta, or_default, apply_input, validate_output,
  apply_output, put_deposit, output_status,
}
use stabilitypool.Pool.Funds.{whole, funds, funds-insert, IsUntouched, apply_input_lem}

undone : (a : AccountBalance) (n : ℕ) → record a { unlocked = a.unlocked + n - n } ≡ a
undone a n = ap (λ (u : ℕ). record a { unlocked = u }) (omega arith)

module _ {st : Store} (law : IsStore st) where
  -- The check of a deposit asks whether the whole balance with it fits.
  pub validate_output_lem :
      (d : AccountDeposit) (db : Database st)
      → d.amount < 2 ^ 64
      → let old = or_default (st.get_value d.account db.accounts) in
        ((2 ^ 64 ≤ whole old + d.amount) × (validate_output st d db ≡ inl deposit_too_large))
        ⊎ ((whole old + d.amount < 2 ^ 64)
            × (validate_output st d db ≡ inr (record { amount = d.amount; fee = 0 })))
  unfolding validate_output
  validate_output_lem d db h = go (st.get_value d.account db.accounts) refl
    where
      go :
          (o : Option AccountBalance)
          → st.get_value d.account db.accounts ≡ o
          → ((2 ^ 64 ≤ whole (or_default o) + d.amount)
              × (validate_output st d db ≡ inl deposit_too_large))
            ⊎ ((whole (or_default o) + d.amount < 2 ^ 64)
                × (validate_output st d db ≡ inr (record { amount = d.amount; fee = 0 })))
      go none e = inr (omega arith, rw (validate_output, e) refl)
      go (some a) e = elim (Bool-cases (can_add_amount a d.amount)) [
        | inl fits ↦
            inr ((can_add_amount_iff a d.amount).0 fits, rw (validate_output, e) (rw fits refl))
        | inr not_fits ↦ inl (
          elim (Bool-cases (ltb (whole a + d.amount) (2 ^ 64))) [
            | inl lt ↦ absurd (cc ((can_add_amount_iff a d.amount).1 (ground arith)))
            | inr ge ↦ ground arith
          ],
          rw (validate_output, e) (rw not_fits refl),
        )
      ]

  -- A deposit with a new outpoint returns. It is refused if the whole balance of the account with it
  -- reaches 2 ^ 64, and otherwise adds exactly its amount to the unlocked balance of its account and
  -- to the funds of the pool, changes no other account, and its outcome names the account.
  pub apply_output_lem :
      (d : AccountDeposit) (outpoint : ℕ) (db : Database st)
      → d.amount < 2 ^ 64
      → st.get_value outpoint db.deposit_outcomes ≡ none
      → let old = or_default (st.get_value d.account db.accounts) in
        ((2 ^ 64 ≤ whole old + d.amount)
          × (apply_output st d outpoint db ≡ ok (inl deposit_too_large)))
        ⊎ ((whole old + d.amount < 2 ^ 64)
            × (paid : TransactionItemAmount) × (db' : Database st) × (apply_output st d outpoint db
                ≡ ok (inr (paid, db')))
            × (paid.amount ≡ d.amount)
            × (paid.fee ≡ 0)
            × (st.get_value d.account db'.accounts
                ≡ some (record old { unlocked = old.unlocked + d.amount }))
            × IsUntouched law d.account db db'
            × (output_status st outpoint db' ≡ some d.account)
            × (funds law db' ≡ funds law db + d.amount))
  unfolding apply_output output_status
  apply_output_lem d outpoint db h new =
      let old = or_default (st.get_value d.account db.accounts) in
      elim (validate_output_lem d db h) [
        | inl (much, refused) ↦ inl (much, rw (apply_output, refused) refl)
        | inr (fits, valid) ↦
            let a : AccountBalance = record old { unlocked = old.unlocked + d.amount } in
            let stored = st.insert_new_entry outpoint d.account db.deposit_outcomes in
            let status : st.get_value outpoint stored ≡ some d.account =
              law.get_value-eq outpoint stored
              ∙ ap (BTreeMap.get outpoint)
                  (law.find-insert_new outpoint d.account db.deposit_outcomes new)
              ∙ get-insert_self outpoint d.account (st.find_by_prefix db.deposit_outcomes) in
            inr (
              fits,
              record { amount = d.amount; fee = 0 },
              record db {
                accounts = st.insert_entry d.account a db.accounts;
                deposit_outcomes = stored;
              },
              rw (apply_output, valid)
                  (rw (put_deposit, lt→ltb (old.unlocked + d.amount) (2 ^ 64) (omega arith)) refl),
              refl,
              refl,
              get_value-insert_self law d.account a db.accounts,
              (λ j ne. get_value-insert_ne law j d.account a db.accounts ne),
              status,
              omega (arith, funds-insert law d.account a db),
            )
      ]

  -- A deposit that is taken can be withdrawn at once, and leaves the balance of its account as it
  -- was before.
  pub apply_input-apply_output :
      (d : AccountDeposit) (outpoint : ℕ) (db : Database st)
      → d.amount < 2 ^ 64
      → st.get_value outpoint db.deposit_outcomes ≡ none
      → whole (or_default (st.get_value d.account db.accounts)) + d.amount < 2 ^ 64
      → (paid : TransactionItemAmount) × (meta : InputMeta) × (db' db'' : Database st)
        × (apply_output st d outpoint db ≡ ok (inr (paid, db')))
        × (apply_input st (record { account = d.account; amount = d.amount }) db'
            ≡ ok (inr (meta, db'')))
        × (meta.amount.amount ≡ paid.amount)
        × (or_default (st.get_value d.account db''.accounts)
            ≡ or_default (st.get_value d.account db.accounts))
        × (funds law db'' ≡ funds law db)
  apply_input-apply_output d outpoint db h new fits =
      let old = or_default (st.get_value d.account db.accounts) in
      let w : AccountWithdrawal = record { account = d.account; amount = d.amount } in
      elim (apply_output_lem d outpoint db h new) [
        | inl (much, _) ↦ absurd (omega arith)
        | inr (_, paid, db', put, pays, _, read, _, _, more) ↦
            let now : or_default (st.get_value d.account db'.accounts)
                ≡ record old { unlocked = old.unlocked + d.amount } =
              ap or_default read in
            let now_unlocked = ap (λ (a : AccountBalance). a.unlocked) now in
            elim (apply_input_lem law w db') [
              | inl (less, _) ↦ absurd (omega arith)
              | inr (_, meta, db'', taken, takes, _, _, read', _, fewer) ↦ (
                paid,
                meta,
                db',
                db'',
                put,
                taken,
                takes ∙ sym pays,
                ap or_default read'
                    ∙ ap (λ (a : AccountBalance). record a { unlocked = a.unlocked - d.amount }) now
                    ∙ undone old d.amount,
                omega arith,
              )
            ]
      ]
