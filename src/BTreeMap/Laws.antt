-- ===== src/BTreeMap/Laws.antt =====
-- Reading a map after an update.
use stabilitypool.Base.{
  ℕ, ◌<◌, ◌≡◌, ◌≢◌, refl, none, some, [], ◌∷◌, ◌++◌, All, subst, Bool-cases, Option-cases, inl, inr,
  arith, ◌==◌, if◌then◌else◌,
}
use stabilitypool.BTreeMap.{
  BTreeMap, get, insert, remove, and_modify, and_modify_or_insert, IsSorted, IsAbove,
}

module _ {ℓ} {V : Type ℓ} where
  pub get-insert :
      (j k : ℕ) (v : V) (m : BTreeMap V)
      → get j (insert k v m) ≡ (if j == k then some v else get j m)
  unfolding get insert
  get-insert j k v [] = refl
  get-insert j k v ((i, w) ∷ m) = ground (arith, get-insert j k v m)

  pub get-insert_self : (k : ℕ) (v : V) (m : BTreeMap V) → get k (insert k v m) ≡ some v
  get-insert_self k v m = ground (arith, get-insert k k v m)

  pub get-insert_ne : (j k : ℕ) (v : V) (m : BTreeMap V) → j ≢ k → get j (insert k v m) ≡ get j m
  get-insert_ne j k v m h = ground (arith, get-insert j k v m)

  pub get-remove_ne : (j k : ℕ) (m : BTreeMap V) → j ≢ k → get j (remove k m) ≡ get j m
  unfolding get remove
  get-remove_ne j k [] h = refl
  get-remove_ne j k ((i, w) ∷ m) h = ground (arith, get-remove_ne j k m h)

  pub get-none_of_lt : (k : ℕ) (m : BTreeMap V) → All (λ e. k < e.0) m → get k m ≡ none
  unfolding get
  get-none_of_lt k [] h = refl
  get-none_of_lt k ((i, w) ∷ m) h = ground (arith, get-none_of_lt k m h.1)

  pub get-none_below : (k j : ℕ) (m : BTreeMap V) → All (λ e. j < e.0) m → k < j → get k m ≡ none
  unfolding get
  get-none_below k j [] h lt = refl
  get-none_below k j ((i, w) ∷ m) h lt = ground (arith, get-none_below k j m h.1)

  pub get-remove_self : (k : ℕ) (m : BTreeMap V) → IsSorted m → get k (remove k m) ≡ none
  unfolding get remove
  get-remove_self k [] s = refl
  get-remove_self k ((i, w) ∷ m) s = ground (arith, get-remove_self k m s.1, get-none_of_lt k m)

  -- Insertion above all the keys goes to the end.
  pub insert-append :
      (k : ℕ) (v : V) (m : BTreeMap V) → IsAbove k m → insert k v m ≡ m ++ (k, v) ∷ []
  unfolding insert
  insert-append k v [] h = refl
  insert-append k v ((i, w) ∷ m) h = ground (arith, insert-append k v m h.1)

  pub get-and_modify :
      (j k : ℕ) (f : V → V) (m : BTreeMap V) (w : V)
      → get k m ≡ some w
      → get j (and_modify k f m) ≡ (if j == k then some (f w) else get j m)
  unfolding get and_modify
  get-and_modify j k f [] w e = cc
  get-and_modify j k f ((i, u) ∷ m) w e = ground (arith, get-and_modify j k f m w)

  -- A change of an absent key changes nothing.
  pub get-and_modify_absent :
      (j k : ℕ) (f : V → V) (m : BTreeMap V) → get k m ≡ none → get j (and_modify k f m) ≡ get j m
  unfolding get and_modify
  get-and_modify_absent j k f [] e = refl
  get-and_modify_absent j k f ((i, u) ∷ m) e = ground (arith, get-and_modify_absent j k f m)

  -- An update with `and_modify` and `or_insert` reaches its own key only.
  pub get-and_modify_or_insert :
      (j k : ℕ) (f : V → V) (v : V) (m : BTreeMap V)
      → get j (and_modify_or_insert k f v m)
        ≡ (if j == k then some (elim (get k m) [ none ↦ v | some w ↦ f w ]) else get j m)
  unfolding and_modify_or_insert
  get-and_modify_or_insert j k f v m = elim (Option-cases (get k m)) [
    | inl e ↦ rw (and_modify_or_insert, e) (get-insert j k v m)
    | inr (w, e) ↦ rw (and_modify_or_insert, e) (get-and_modify j k f m w e)
  ]

  -- What holds of every entry holds of what a key has, and the other way round.
  pub All-get {κ} :
      (P : ℕ × V → Type κ) (k : ℕ) (v : V) (m : BTreeMap V) → All P m → get k m ≡ some v → P (k, v)
  unfolding get
  All-get P k v [] h e = absurd (cc)
  All-get P k v ((i, w) ∷ m) h e = elim (Bool-cases (k == i)) [
    | inl same ↦
        let value : w ≡ v = cc (rw same at e) in
        let exact : k ≡ i = ground arith in rw exact (subst (λ (x : V). P (i, x)) value h.0)
    | inr other ↦ All-get P k v m h.1 (rw other at e)
  ]

  pub All-of_get {κ} :
      (P : ℕ × V → Type κ) (m : BTreeMap V)
      → IsSorted m
      → ((k : ℕ) (v : V) → get k m ≡ some v → P (k, v))
      → All P m
  unfolding get
  All-of_get P [] s h = tt
  All-of_get P ((i, w) ∷ m) s h = (
    h i w (ground arith),
    All-of_get P m s.1 (λ k v e.
        let above : i < k = All-get (λ (e : ℕ × V). i < e.0) k v m s.0 e in
        h k v (ground (arith, above, e))),
  )
