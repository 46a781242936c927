-- ===== src/Db.antt =====
-- stabilitypool-common/src/db.rs: the records of the module in the database of fedimint. The
-- database is a parameter: one table for each key prefix, with the operations of a transaction.
-- The two records with a single key are options.
pub mod Laws
pub mod Example
use stabilitypool.Base.{ℕ, Option, none, List, ◌≡◌}
use stabilitypool.BTreeMap
use stabilitypool.BTreeMap.{BTreeMap, IsSorted}
use stabilitypool.Account.{AccountBalance}
use stabilitypool.Action.Types.{ActionStaged}
use stabilitypool.Epoch.Types.{EpochEnd, EpochOutcome}

-- `ModuleDatabaseTransaction`: `get_value`, `insert_entry`, `insert_new_entry`, `remove_entry`, `find_by_prefix`.
pub record Store : Type 1 where
  pub Table : Type 0 → Type 0
  pub get_value : {V : Type 0} → ℕ → Table V → Option V
  pub insert_entry : {V : Type 0} → ℕ → V → Table V → Table V
  pub insert_new_entry : {V : Type 0} → ℕ → V → Table V → Table V
  pub remove_entry : {V : Type 0} → ℕ → Table V → Table V
  pub find_by_prefix : {V : Type 0} → Table V → BTreeMap V

-- What the module relies on: an ordered key-value store that reads its own writes.
pub record IsStore (st : Store) : Type 1 where
  pub get_value-eq :
      {V : Type 0} (k : ℕ) (t : st.Table V)
      → st.get_value k t ≡ BTreeMap.get k (st.find_by_prefix t)
  pub find-insert :
      {V : Type 0} (k : ℕ) (v : V) (t : st.Table V)
      → st.find_by_prefix (st.insert_entry k v t) ≡ BTreeMap.insert k v (st.find_by_prefix t)
  pub find-insert_new :
      {V : Type 0} (k : ℕ) (v : V) (t : st.Table V)
      → st.get_value k t ≡ none
      → st.find_by_prefix (st.insert_new_entry k v t) ≡ BTreeMap.insert k v (st.find_by_prefix t)
  pub find-remove :
      {V : Type 0} (k : ℕ) (t : st.Table V)
      → st.find_by_prefix (st.remove_entry k t) ≡ BTreeMap.remove k (st.find_by_prefix t)
  pub find-IsSorted : {V : Type 0} (t : st.Table V) → IsSorted (st.find_by_prefix t)

pub record Database (st : Store) : Type 0 where
  pub accounts : st.Table AccountBalance
  pub deposit_outcomes : st.Table ℕ
  pub epoch_outcomes : st.Table EpochOutcome
  pub last_epoch_ended : Option ℕ
  pub last_epoch_settled : Option ℕ
  pub epoch_ends : st.Table EpochEnd
  pub actions_staged : st.Table ActionStaged
