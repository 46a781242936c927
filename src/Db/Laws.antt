-- ===== src/Db/Laws.antt =====
-- Reading a table after a write.
use stabilitypool.Base.{ℕ, ◌≡◌, ◌≢◌, sym, ap, ◌∙◌, some}
use stabilitypool.BTreeMap
use stabilitypool.BTreeMap.Laws.{get-insert_self, get-insert_ne}
use stabilitypool.Db.{Store, IsStore}

module _ {st : Store} (law : IsStore st) {V : Type 0} where
  pub get_value-insert_self :
      (k : ℕ) (v : V) (t : st.Table V) → st.get_value k (st.insert_entry k v t) ≡ some v
  get_value-insert_self k v t =
      law.get_value-eq k (st.insert_entry k v t)
      ∙ ap (BTreeMap.get k) (law.find-insert k v t)
      ∙ get-insert_self k v (st.find_by_prefix t)

  pub get_value-insert_ne :
      (j k : ℕ) (v : V) (t : st.Table V)
      → j ≢ k
      → st.get_value j (st.insert_entry k v t) ≡ st.get_value j t
  get_value-insert_ne j k v t h =
      law.get_value-eq j (st.insert_entry k v t)
      ∙ ap (BTreeMap.get j) (law.find-insert k v t)
      ∙ get-insert_ne j k v (st.find_by_prefix t) h
      ∙ sym (law.get_value-eq j t)
