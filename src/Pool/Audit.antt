-- ===== src/Pool/Audit.antt =====
-- The audit of stabilitypool-server/src/lib.rs: what the accounts of the pool add up to.
use stabilitypool.Base.{ℕ, ◌+◌, ◌*◌, ◌^◌, ◌<◌, ◌≤◌, ◌≡◌, refl, List, [], ◌∷◌, map, arith}
use stabilitypool.Base.U64
use stabilitypool.Base.I64
use stabilitypool.Base.Int.{ℤ, pos, ◌+ℤ◌}
use stabilitypool.BTreeMap
use stabilitypool.BTreeMap.{BTreeMap}
use stabilitypool.BTreeMap.Measures.{total_of}
use stabilitypool.Account.{AccountBalance, locked_amount}
use stabilitypool.Action.Proposed.{ActionProposedDb, Schnorr}
use stabilitypool.Epoch.Types.{EpochConfig}
use stabilitypool.Epoch.Process.Health.{IsPool}
use stabilitypool.Pool.{audit_item, audit}
use stabilitypool.Pool.Funds.{whole, funds}
use stabilitypool.Pool.Runs.{Run, Run-IsHealthy}
use stabilitypool.Db.{Store, IsStore, Database}

abbrev pub sum_ℤ : List ℤ → ℤ
sum_ℤ [] = pos 0
sum_ℤ (z ∷ zs) = z +ℤ sum_ℤ zs

audit_item_lem : (a : AccountBalance) → whole a < 2 ^ 63 → audit_item a ≡ pos (whole a)
unfolding audit_item
audit_item_lem a h =
    rw (U64.add_lem a.unlocked (locked_amount a.locked) (omega arith)) (I64.of_u64_lem (whole a) h)

audit_items_lem :
    (m : BTreeMap AccountBalance)
    → total_of whole m < 2 ^ 63
    → sum_ℤ (map audit_item (BTreeMap.values m)) ≡ pos (total_of whole m)
unfolding ◌+ℤ◌
audit_items_lem [] h = refl
audit_items_lem ((k, a) ∷ m) h =
    rw (audit_item_lem a (omega arith)) (rw (audit_items_lem m (omega arith)) (ground arith))

module _ {st : Store} (law : IsStore st) (schnorr : Schnorr) (config : EpochConfig) where
  -- For a pool whose ratio has no 0 and at most 87 on the provider side, whose maximal feerate is at
  -- most 100 % and whose threshold is not 0, let the pool have gone from its empty database through
  -- accepted `u64` deposits, each of which leaves the funds times the seeker side of the ratio below
  -- 2 ^ 63, accepted withdrawals, and consensus items in a state with room for the ids of the next
  -- epochs, of which no end has a price of 0 or beyond `u64` and no action has the largest `u64` as
  -- its sequence, in any order. Then the amounts that the audit adds up, each cast to `i64`, make
  -- exactly what was deposited less what was withdrawn.
  pub audit-Run :
      IsPool config
      → {db : Database st} {proposals : ActionProposedDb schnorr} {i o : ℕ}
      → Run law schnorr config db proposals i o
      → (n : ℕ) × (sum_ℤ (audit st db) ≡ pos n) × (n + o ≡ i)
  unfolding audit
  audit-Run pool {db = db} run =
      let (healthy, balanced) = Run-IsHealthy law schnorr config pool run in
      let scaled : funds law db ≤ funds law db * config.collateral_ratio.seeker =
        grind (arith, pool.ratio.valid.seeker_pos) in
      (
        funds law db,
        audit_items_lem (st.find_by_prefix db.accounts) (omega (arith, scaled, healthy.fits)),
        balanced,
      )
