-- ===== src/BTreeMap/Totals.antt =====
-- The sum of the amounts in a map, and what an insertion adds to it.
use stabilitypool.Base.{ℕ, ◌+◌, ◌≡◌, refl, ap, none, some, [], ◌∷◌, sum, sum_of, arith}
use stabilitypool.BTreeMap.{BTreeMap, get, insert, remove, values, IsSorted}
use stabilitypool.BTreeMap.Measures.{measure_or_zero}
use stabilitypool.BTreeMap.Laws.{get-none_below}

abbrev pub total : BTreeMap ℕ → ℕ
total = sum_of λ e. e.1

pub sum-values : (m : BTreeMap ℕ) → sum (values m) ≡ total m
sum-values [] = refl
sum-values ((id, x) ∷ m) = ap (λ (t : ℕ). x + t) (sum-values m)

pub total-insert_new :
    (k v : ℕ) (m : BTreeMap ℕ) → get k m ≡ none → total (insert k v m) ≡ total m + v
unfolding get insert
total-insert_new k v [] h = omega arith
total-insert_new k v ((j, w) ∷ m) h = ground (arith, total-insert_new k v m)

-- A removal takes away what the key had.
pub total-remove :
    (k : ℕ) (m : BTreeMap ℕ)
    → total (remove k m) + measure_or_zero (λ (n : ℕ). n) (get k m) ≡ total m
unfolding get remove
total-remove k [] = omega arith
total-remove k ((j, w) ∷ m) = ground (arith, total-remove k m)

pub total-insert :
    (k v old : ℕ) (m : BTreeMap ℕ)
    → IsSorted m
    → get k m ≡ some old
    → total (insert k v m) + old ≡ total m + v
unfolding get insert
total-insert k v old [] s h = absurd (ground arith)
total-insert k v old ((j, w) ∷ m) s h =
    ground (arith, total-insert k v old m s.1, get-none_below k j m s.0)
