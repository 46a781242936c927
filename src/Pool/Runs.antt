-- ===== src/Pool/Runs.antt =====
-- The pool from its empty database on: deposits, withdrawals and consensus items in any order.
use stabilitypool.Base.{
  ℕ, ◌+◌, ◌-◌, ◌*◌, ◌^◌, ◌≤◌, ◌<◌, ◌≡◌, refl, sym, ap, subst, ◌∙◌, inl, inr, none, [], ◌∷◌, ok,
  arith, lt→ltb, le→leb,
}
use stabilitypool.BTreeMap
use stabilitypool.BTreeMap.Measures.{total_of}
use stabilitypool.Epoch.Settle.Entries.{seeker_amount}
use native.Mathlib.Nat.{mul-le-mul_right}
use stabilitypool.Account.{AccountBalance, AccountDeposit, AccountWithdrawal, locked_amount}
use stabilitypool.Action.Proposed.{ActionProposedDb, Schnorr}
use stabilitypool.Epoch.Types.{EpochConfig, ConsensusItemOutcome}
use stabilitypool.Epoch.State.Progress.{HasRoom}
use stabilitypool.Epoch.Settle.Funds.{balance_at, with_balance, sum_up-with_balance}
use stabilitypool.Epoch.Process.Health.{IsPool, IsHealthy}
use stabilitypool.Pool.{
  PoolConsensusItem, TransactionItemAmount, InputMeta, apply_input, apply_output, put_deposit,
  withdraw, unavaliable_funds, deposit_too_large, process_item,
}
use stabilitypool.Pool.Funds.{whole, funds, validate_input_lem}
use stabilitypool.Pool.Deposits.{validate_output_lem}
use stabilitypool.Pool.Items.{with_balance-IsHealthy, IsSound, process_item-IsKept}
use stabilitypool.Db.{Store, IsStore, Database}

less_lem : (a b c : ℕ) → a + b ≡ c → a ≤ c
less_lem a b c e = omega arith

module _ {st : Store} (law : IsStore st) where
  -- What an accepted deposit makes of the database.
  accepted_deposit :
      (d : AccountDeposit) (outpoint : ℕ) (paid : TransactionItemAmount) (db db' : Database st)
      → d.amount < 2 ^ 64
      → apply_output st d outpoint db ≡ ok (inr (paid, db'))
      → let old = balance_at law d.account db in
        db'
        ≡ record (with_balance law d.account
            (record old { unlocked = old.unlocked + d.amount })
            db) { deposit_outcomes = st.insert_new_entry outpoint d.account db.deposit_outcomes }
  unfolding apply_output put_deposit
  accepted_deposit d outpoint paid db db' lt h =
      let old = balance_at law d.account db in
      elim (validate_output_lem law d db lt) [
        | inl (_, refused) ↦
            let computed : apply_output st d outpoint db ≡ ok (inl deposit_too_large) =
              rw (apply_output, refused) refl in
            absurd (cc (h, computed))
        | inr (fits, valid) ↦
            let next : Database st =
              record (with_balance law d.account (record old { unlocked = old.unlocked + d.amount })
                db) {
                  deposit_outcomes = st.insert_new_entry outpoint d.account db.deposit_outcomes;
                } in
            let computed : apply_output st d outpoint db
                ≡ ok (inr (record { amount = d.amount; fee = 0 }, next)) =
              rw (apply_output, valid)
                (rw (put_deposit, lt→ltb (old.unlocked + d.amount) (2 ^ 64) (omega arith)) refl) in
            cc (h, computed)
      ]

  -- What an accepted withdrawal makes of the database.
  accepted_withdrawal :
      (w : AccountWithdrawal) (meta : InputMeta) (db db' : Database st)
      → apply_input st w db ≡ ok (inr (meta, db'))
      → let old = balance_at law w.account db in
        (w.amount ≤ old.unlocked)
        × (db' ≡ with_balance law w.account (record old { unlocked = old.unlocked - w.amount }) db)
  unfolding apply_input withdraw
  accepted_withdrawal w meta db db' h =
      let old = balance_at law w.account db in
      elim (validate_input_lem law w db) [
        | inl (_, refused) ↦
            let computed : apply_input st w db
                ≡ ok (inl (unavaliable_funds w.amount old.unlocked)) =
              rw (apply_input, refused) refl in
            absurd (cc (h, computed))
        | inr (le, valid) ↦
            let meta' : InputMeta = record {
              amount = record { amount = w.amount; fee = 0 };
              puk_keys = w.account ∷ [];
            } in
            let computed : apply_input st w db
                ≡ ok (
                    inr (
                      meta',
                      with_balance law w.account (record old { unlocked = old.unlocked - w.amount })
                          db,
                    )) =
              rw (apply_input, valid) (rw (withdraw, le→leb w.amount old.unlocked le) refl) in
            (le, cc (h, computed))
      ]

  -- No account, no action and no epoch.
  pub record IsFresh (db : Database st) : Type 0 where
    pub no_accounts : st.find_by_prefix db.accounts ≡ []
    pub no_actions : st.find_by_prefix db.actions_staged ≡ []
    pub no_ends : st.find_by_prefix db.epoch_ends ≡ []
    pub no_outcomes : st.find_by_prefix db.epoch_outcomes ≡ []
    pub none_ended : db.last_epoch_ended ≡ none
    pub none_settled : db.last_epoch_settled ≡ none

  module _ (schnorr : Schnorr) (config : EpochConfig) where
    -- A database that the pool can reach, with all that was paid in and out. The deposits keep the
    -- pool within the amounts that it can compute with, the ids of the epochs are within `u64`, no
    -- price is 0 and no sequence the largest `u64`.
    pub data Run : Database st → ActionProposedDb schnorr → (deposited withdrawn : ℕ) → Type 0 where
      start :
          (proposals : ActionProposedDb schnorr) (db : Database st)
          → IsFresh db
          → Run db proposals 0 0
      deposit :
          {db : Database st} {proposals : ActionProposedDb schnorr} {i o : ℕ}
          → Run db proposals i o
          → (d : AccountDeposit) (outpoint : ℕ) (paid : TransactionItemAmount) (db' : Database st)
          → d.amount < 2 ^ 64
          → (funds law db + d.amount) * config.collateral_ratio.seeker < 2 ^ 63
          → apply_output st d outpoint db ≡ ok (inr (paid, db'))
          → Run db' proposals (i + d.amount) o
      withdrawal :
          {db : Database st} {proposals : ActionProposedDb schnorr} {i o : ℕ}
          → Run db proposals i o
          → (w : AccountWithdrawal) (meta : InputMeta) (db' : Database st)
          → apply_input st w db ≡ ok (inr (meta, db'))
          → Run db' proposals i (o + w.amount)
      item :
          {db : Database st} {proposals : ActionProposedDb schnorr} {i o : ℕ}
          → Run db proposals i o
          → (peer : ℕ) (x : PoolConsensusItem schnorr.Signature) (db' : Database st)
            (proposals' : ActionProposedDb schnorr) (outcome : ConsensusItemOutcome)
          → HasRoom db.last_epoch_settled
          → IsSound x
          → process_item st schnorr config peer x (db, proposals) ≡ ok ((db', proposals'), outcome)
          → Run db' proposals' i o

    -- A healthy database in which the accounts hold what came in less what went out.
    abbrev pub IsBalanced : (deposited withdrawn : ℕ) → Database st → Type 0
    IsBalanced i o db = IsHealthy law config.collateral_ratio db × (funds law db + o ≡ i)

    fresh_lem : (db : Database st) → IsFresh db → IsBalanced 0 0 db
    unfolding BTreeMap.get
    fresh_lem db fresh =
        let empty : funds law db ≡ 0 = ap (total_of whole) fresh.no_accounts in
        (
          record {
            place = inl (fresh.none_ended ∙ sym fresh.none_settled);
            fits = rw empty (omega arith);
            backed_up = inl (ap (total_of (λ a. seeker_amount a.locked)) fresh.no_accounts);
            keyed = rw fresh.no_actions tt;
            fair = rw fresh.no_ends tt;
            history = rw fresh.none_settled (
              ap (total_of (λ a. locked_amount a.locked)) fresh.no_accounts,
              λ k. law.get_value-eq k db.epoch_outcomes ∙ ap (BTreeMap.get k) fresh.no_outcomes,
            );
          },
          omega (arith, empty),
        )

    -- For a pool whose ratio has no 0 and at most 87 on the provider side, whose maximal feerate is
    -- at most 100 % and whose threshold is not 0, let the pool have gone from its empty database
    -- through accepted `u64` deposits, each of which leaves the funds times the seeker side of the ratio
    -- below 2 ^ 63, accepted withdrawals, and consensus items in a state with room for the ids of the
    -- next epochs, of which no end has a price of 0 or beyond `u64` and no action has the largest
    -- `u64` as its sequence, in any order. Then the database is healthy, and the funds in the
    -- accounts are exactly what was deposited less what was withdrawn.
    pub Run-IsHealthy :
        IsPool config
        → {db : Database st} {proposals : ActionProposedDb schnorr} {i o : ℕ} → Run db proposals i o
        → IsBalanced i o db
    Run-IsHealthy pool (start proposals db fresh) = fresh_lem db fresh
    Run-IsHealthy pool {proposals = proposals} {o = o}
          (deposit {db} {i = i} run d outpoint paid db' lt fits done) =
        let (healthy, balanced) = Run-IsHealthy pool run in
        let shape = accepted_deposit d outpoint paid db db' lt done in
        let k = d.account in
        let old = balance_at law k db in
        let a : AccountBalance = record old { unlocked = old.unlocked + d.amount } in
        let more : funds law (with_balance law k a db) ≡ funds law db + d.amount =
          omega (arith, sum_up-with_balance law whole k a db refl) in
        subst (IsBalanced (i + d.amount) o) (sym shape) (
          with_balance-IsHealthy law config.collateral_ratio k a
              (st.insert_new_entry outpoint k db.deposit_outcomes) db refl healthy (rw more fits),
          omega (arith, more, balanced),
        )
    Run-IsHealthy pool {proposals = proposals} {i = i}
          (withdrawal {db} {o = o} run w meta db' done) =
        let (healthy, balanced) = Run-IsHealthy pool run in
        let (le, shape) = accepted_withdrawal w meta db db' done in
        let k = w.account in
        let old = balance_at law k db in
        let a : AccountBalance = record old { unlocked = old.unlocked - w.amount } in
        let less : funds law (with_balance law k a db) + w.amount ≡ funds law db =
          omega (arith, sum_up-with_balance law whole k a db refl) in
        let fewer = mul-le-mul_right config.collateral_ratio.seeker (less_lem _ _ _ less) in
        subst (IsBalanced i (o + w.amount)) (sym shape) (
          with_balance-IsHealthy law config.collateral_ratio k a db.deposit_outcomes db refl healthy
              (omega (arith, fewer, healthy.fits)),
          omega (arith, less, balanced),
        )
    Run-IsHealthy pool {i = i} {o = o}
          (item {db} {proposals} run peer x db' proposals' outcome room sound done) =
        let (healthy, balanced) = Run-IsHealthy pool run in
        let (db'', proposals'', outcome', done', (healthy', same, _, _)) =
          process_item-IsKept law schnorr config db proposals peer x pool healthy room sound in
        let exact : db'' ≡ db' = cc (done, done') in
        subst (IsBalanced i o) exact (healthy', omega (arith, same, balanced))
