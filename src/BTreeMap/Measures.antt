-- ===== src/BTreeMap/Measures.antt =====
-- The sum of a measure over the values of a map, under an update.
use stabilitypool.Base.{ℕ, ◌+◌, ◌≤◌, ◌≡◌, Option, none, some, [], ◌∷◌, sum_of, arith}
use stabilitypool.BTreeMap.{BTreeMap, get, insert, IsSorted}
use stabilitypool.BTreeMap.Laws.{get-none_below}

module _ {ℓ} {V : Type ℓ} (measure : V → ℕ) where
  abbrev pub total_of : BTreeMap V → ℕ
  total_of = sum_of λ e. measure e.1

  abbrev pub measure_or_zero : Option V → ℕ
  measure_or_zero none = 0
  measure_or_zero (some v) = measure v

  -- An insertion replaces the measure of the value that it overwrites.
  pub total_of-insert :
      (k : ℕ) (v : V) (m : BTreeMap V)
      → IsSorted m
      → total_of (insert k v m) + measure_or_zero (get k m) ≡ total_of m + measure v
  unfolding get insert
  total_of-insert k v [] s = omega arith
  total_of-insert k v ((j, w) ∷ m) s =
      ground (arith, total_of-insert k v m s.1, get-none_below k j m s.0)

  pub measure_or_zero-le : (k : ℕ) (m : BTreeMap V) → measure_or_zero (get k m) ≤ total_of m
  unfolding get
  measure_or_zero-le k [] = omega arith
  measure_or_zero-le k ((j, w) ∷ m) = ground (arith, measure_or_zero-le k m)
