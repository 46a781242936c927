-- ===== src/Db/Example.antt =====
-- A store of maps, for tests: it satisfies the laws.
use stabilitypool.Base.{refl, none, []}
use stabilitypool.BTreeMap
use stabilitypool.BTreeMap.{BTreeMap, IsSorted}
use stabilitypool.BTreeMap.Order.{insert-IsSorted, remove-IsSorted}
use stabilitypool.Db.{Store, IsStore, Database}

abbrev pub map_store : Store
map_store = record {
  Table = λ V. (m : BTreeMap V) × IsSorted m;
  get_value = λ {V} k t. BTreeMap.get k (t.0);
  insert_entry = λ {V} k v t. (BTreeMap.insert k v (t.0), insert-IsSorted k v (t.0) (t.1));
  insert_new_entry = λ {V} k v t. (BTreeMap.insert k v (t.0), insert-IsSorted k v (t.0) (t.1));
  remove_entry = λ {V} k t. (BTreeMap.remove k (t.0), remove-IsSorted k (t.0) (t.1));
  find_by_prefix = λ {V} t. t.0;
}

pub map_store-IsStore : IsStore map_store
map_store-IsStore = record {
  get_value-eq = λ {V} k t. refl;
  find-insert = λ {V} k v t. refl;
  find-insert_new = λ {V} k v t h. refl;
  find-remove = λ {V} k t. refl;
  find-IsSorted = λ {V} t. t.1;
}

abbrev pub empty_database : Database map_store
empty_database = record {
  accounts = ([], tt);
  deposit_outcomes = ([], tt);
  epoch_outcomes = ([], tt);
  last_epoch_ended = none;
  last_epoch_settled = none;
  epoch_ends = ([], tt);
  actions_staged = ([], tt);
}
