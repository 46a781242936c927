-- ===== src/Epoch/Process/Locking.antt =====
-- The loop of epoch.rs that writes the matched positions into the accounts.
use stabilitypool.Base.{
  ℕ, ◌-◌, ◌^◌, ◌≤◌, ◌<◌, ◌≡◌, ◌≢◌, refl, ap, ◌∙◌, ◌⊎◌, inl, inr, some, List, [], ◌∷◌, All, ok,
  arith, ◌==◌, Bool-cases, Option-cases, le→leb,
}
use stabilitypool.Base.U64
use stabilitypool.BTreeMap
use stabilitypool.BTreeMap.{BTreeMap, IsSorted}
use stabilitypool.Account.{AccountBalance, LockedBalance, locked_amount}
use stabilitypool.StabilityCore.Desired.Limits.{balance_of}
use stabilitypool.StabilityCore.Matching.Loop.{IsWithin}
use stabilitypool.Epoch.Settle.{or_default}
use stabilitypool.Epoch.Settle.Funds.{
  balance_at, with_balance, OnlyAccounts, balance_at-le, balance_at-with_balance,
  balance_at-with_balance_ne, sum_up-with_balance,
}
use stabilitypool.Epoch.Process.{unlocked_balances, locked_sides, add_position, lock_positions}
use stabilitypool.Pool.Funds.{whole, funds}
use stabilitypool.Db.{Store, IsStore, Database}

-- The unlocked balance of an account in the table.
pub unlocked_balances_lem :
    (k : ℕ) (m : BTreeMap AccountBalance)
    → balance_of (unlocked_balances m) k ≡ (or_default (BTreeMap.get k m)).unlocked
unfolding unlocked_balances BTreeMap.get
unlocked_balances_lem k [] = refl
unlocked_balances_lem k ((j, a) ∷ m) = elim (Bool-cases (k == j)) [
  | inl same ↦ rw same refl
  | inr other ↦ rw other (unlocked_balances_lem k m)
]

-- A position that is more than 0 and at most the balance of its account.
abbrev pub AreCovered : BTreeMap ℕ → List (ℕ × LockedBalance) → Type 0
AreCovered balances =
    All λ p. (0 < locked_amount p.1) × (locked_amount p.1 ≤ balance_of balances p.0)

pub locked_sides-AreCovered :
    (balances se pe : BTreeMap ℕ)
    → IsWithin (balance_of balances) se
    → IsWithin (balance_of balances) pe
    → AreCovered balances (locked_sides se pe)
unfolding locked_sides
locked_sides-AreCovered balances [] [] h h' = tt
locked_sides-AreCovered balances [] ((k, a) ∷ pe) h h' =
    (h'.0, locked_sides-AreCovered balances [] pe h h'.1)
locked_sides-AreCovered balances ((k, a) ∷ se) pe h h' =
    (h.0, locked_sides-AreCovered balances se pe h.1 h')

get_of_pos :
    (balances : BTreeMap ℕ) (k : ℕ)
    → 0 < balance_of balances k
    → BTreeMap.get k balances ≡ some (balance_of balances k)
get_of_pos balances k h = elim (Option-cases (BTreeMap.get k balances)) [
  | inl e ↦ absurd (omega (arith, rw e at h))
  | inr (n, e) ↦ rw e refl
]

module _ {st : Store} (law : IsStore st) (balances : BTreeMap ℕ) where
  -- The balances are those of the accounts, locked and unlocked.
  abbrev pub IsSnapshot : Database st → Type 0
  IsSnapshot db = (k : ℕ) → whole (balance_at law k db) ≡ balance_of balances k

  -- The last position stands in its account.
  abbrev pub Stands : List (ℕ × LockedBalance) → Database st → Type 0
  Stands [] db = Unit
  Stands (p ∷ []) db = (balance_at law p.0 db).locked ≡ p.1
  Stands (p ∷ q ∷ positions) db = Stands (q ∷ positions) db

  -- What a position makes of its account.
  abbrev locked_in : ℕ → LockedBalance → AccountBalance
  locked_in k l = record { unlocked = balance_of balances k - locked_amount l; locked = l }

  IsSnapshot-with_balance :
      (k : ℕ) (l : LockedBalance) (db : Database st)
      → locked_amount l ≤ balance_of balances k
      → IsSnapshot db
      → IsSnapshot (with_balance law k (locked_in k l) db)
  IsSnapshot-with_balance k l db le snap j = elim (Bool-cases (j == k)) [
    | inl same ↦
        let exact : j ≡ k = ground arith in
        rw exact (ap whole (balance_at-with_balance law k (locked_in k l) db) ∙ omega arith)
    | inr other ↦
        ap whole (balance_at-with_balance_ne law j k (locked_in k l) db (ground arith)) ∙ snap j
  ]

  lock_positions_step :
      (k b : ℕ) (l : LockedBalance) (positions : List (ℕ × LockedBalance)) (totals : ℕ × ℕ)
      (db : Database st)
      → BTreeMap.get k balances ≡ some b
      → locked_amount l ≤ b
      → b < 2 ^ 64
      → lock_positions st balances ((k, l) ∷ positions) totals db
        ≡ lock_positions st balances positions
            (add_position l totals)
            (with_balance law k (record { unlocked = b - locked_amount l; locked = l }) db)
  unfolding lock_positions
  lock_positions_step k b l positions totals db there le lt =
      rw there
        (rw (le→leb (locked_amount l) b le) (rw (U64.sub_lem b (locked_amount l) lt le) refl))

  Stands-cons :
      (k : ℕ) (l : LockedBalance) (positions : List (ℕ × LockedBalance)) (db db' : Database st)
      → Stands positions db'
      → (positions ≢ []) ⊎ (db' ≡ with_balance law k (locked_in k l) db)
      → Stands ((k, l) ∷ positions) db'
  Stands-cons k l [] db db' s (inl ne) = absurd (ne refl)
  Stands-cons k l [] db db' s (inr e) =
      rw e
        (ap (λ (a : AccountBalance). a.locked) (balance_at-with_balance law k (locked_in k l) db))
  Stands-cons k l (p ∷ positions) db db' s h = s

  -- Positions that the balances cover are all locked in, and every account keeps its whole balance.
  pub lock_positions_lem :
      (positions : List (ℕ × LockedBalance)) (totals : ℕ × ℕ) (db : Database st)
      → AreCovered balances positions
      → IsSnapshot db
      → funds law db < 2 ^ 64
      → (db' : Database st) × (seekers providers : ℕ) × (lock_positions st balances positions totals
            db
          ≡ ok (db', seekers, providers))
        × OnlyAccounts law db db'
        × (funds law db' ≡ funds law db)
        × Stands positions db'
        × ((positions ≢ []) ⊎ (db' ≡ db))
  unfolding lock_positions
  lock_positions_lem [] totals db h snap lt =
      (db, totals.0, totals.1, refl, refl, refl, tt, inr refl)
  lock_positions_lem ((k, l) ∷ positions) totals db ((pos, le), h) snap lt =
      let b = balance_of balances k in
      let there = get_of_pos balances k (omega arith) in
      let whole-le : whole (balance_at law k db) ≤ funds law db =
        balance_at-le law whole k db refl in
      let db1 = with_balance law k (locked_in k l) db in
      let same : funds law db1 ≡ funds law db =
        omega (arith, sum_up-with_balance law whole k (locked_in k l) db refl, snap k) in
      let (db', s, p, done, only, kept, stands, last) =
        lock_positions_lem positions (add_position l totals) db1 h
          (IsSnapshot-with_balance k l db le snap) (omega arith) in
      (
        db',
        s,
        p,
        lock_positions_step k b l positions totals db there le (omega (arith, snap k)) ∙ done,
        only,
        kept ∙ same,
        Stands-cons k l positions db db' stands last,
        inl (λ e. cc),
      )
