-- ===== src/BTreeMap/Order.antt =====
-- Every update keeps the keys in ascending order.
use stabilitypool.Base.{
  ℕ, ◌<◌, [], ◌∷◌, Bool, All, All-weaken, All-filter, filter, Option-cases, inl, inr, arith,
}
use stabilitypool.BTreeMap.{
  BTreeMap, get, insert, remove, and_modify, and_modify_or_insert, IsSorted,
}

module _ {ℓ} {V : Type ℓ} where
  -- What holds of every entry, old and new, holds after an insertion.
  pub All-insert {κ} :
      (P : ℕ × V → Type κ) (k : ℕ) (v : V) (m : BTreeMap V)
      → P (k, v)
      → All P m
      → All P (insert k v m)
  unfolding insert
  All-insert P k v [] p h = (p, tt)
  All-insert P k v ((i, w) ∷ m) p h = ground (arith, All-insert P k v m p h.1)

  pub insert-IsSorted : (k : ℕ) (v : V) (m : BTreeMap V) → IsSorted m → IsSorted (insert k v m)
  unfolding insert
  insert-IsSorted k v [] s = (tt, tt)
  insert-IsSorted k v ((i, w) ∷ m) s = ground (
    arith,
    insert-IsSorted k v m s.1,
    All-insert (λ e. i < e.0) k v m,
    All-weaken (λ (e : ℕ × V). i < e.0) (λ e. k < e.0) m,
  )

  -- What holds of the keys holds after a change of a value.
  All-and_modify {κ} :
      (P : ℕ → Type κ) (k : ℕ) (f : V → V) (m : BTreeMap V)
      → All (λ e. P e.0) m
      → All (λ e. P e.0) (and_modify k f m)
  unfolding and_modify
  All-and_modify P k f [] h = tt
  All-and_modify P k f ((i, w) ∷ m) h = ground (arith, All-and_modify P k f m h.1)

  pub and_modify-IsSorted :
      (k : ℕ) (f : V → V) (m : BTreeMap V) → IsSorted m → IsSorted (and_modify k f m)
  unfolding and_modify
  and_modify-IsSorted k f [] s = tt
  and_modify-IsSorted k f ((i, w) ∷ m) s =
      ground (arith, and_modify-IsSorted k f m s.1, All-and_modify (λ j. i < j) k f m s.0)

  pub and_modify_or_insert-IsSorted :
      (k : ℕ) (f : V → V) (v : V) (m : BTreeMap V)
      → IsSorted m
      → IsSorted (and_modify_or_insert k f v m)
  unfolding and_modify_or_insert
  and_modify_or_insert-IsSorted k f v m s = elim (Option-cases (get k m)) [
    | inl e ↦ rw (and_modify_or_insert, e) (insert-IsSorted k v m s)
    | inr (w, e) ↦ rw (and_modify_or_insert, e) (and_modify-IsSorted k f m s)
  ]

  -- What holds of every entry holds after a change that keeps it.
  pub All-and_modify_entry {κ} :
      (P : ℕ × V → Type κ) (k : ℕ) (f : V → V) (m : BTreeMap V)
      → ((j : ℕ) (w : V) → P (j, w) → P (j, f w))
      → All P m
      → All P (and_modify k f m)
  unfolding and_modify
  All-and_modify_entry P k f [] keep h = tt
  All-and_modify_entry P k f ((i, w) ∷ m) keep h =
      ground (arith, All-and_modify_entry P k f m keep h.1, keep i w h.0)

  pub All-and_modify_or_insert {κ} :
      (P : ℕ × V → Type κ) (k : ℕ) (f : V → V) (v : V) (m : BTreeMap V)
      → P (k, v)
      → ((j : ℕ) (w : V) → P (j, w) → P (j, f w))
      → All P m
      → All P (and_modify_or_insert k f v m)
  unfolding and_modify_or_insert
  All-and_modify_or_insert P k f v m p keep h = elim (Option-cases (get k m)) [
    | inl e ↦ rw (and_modify_or_insert, e) (All-insert P k v m p h)
    | inr (w, e) ↦ rw (and_modify_or_insert, e) (All-and_modify_entry P k f m keep h)
  ]

  pub filter-IsSorted : (p : ℕ × V → Bool) (m : BTreeMap V) → IsSorted m → IsSorted (filter p m)
  filter-IsSorted p [] s = tt
  filter-IsSorted p ((i, w) ∷ m) s =
      ground (arith, filter-IsSorted p m s.1, All-filter (λ (e : ℕ × V). i < e.0) p m s.0)

  pub All-remove {κ} : (P : ℕ × V → Type κ) (k : ℕ) (m : BTreeMap V) → All P m → All P (remove k m)
  unfolding remove
  All-remove P k [] h = tt
  All-remove P k ((i, w) ∷ m) h = ground (arith, All-remove P k m h.1)

  pub remove-IsSorted : (k : ℕ) (m : BTreeMap V) → IsSorted m → IsSorted (remove k m)
  unfolding remove
  remove-IsSorted k [] s = tt
  remove-IsSorted k ((i, w) ∷ m) s =
      ground (arith, remove-IsSorted k m s.1, All-remove (λ e. i < e.0) k m s.0)
