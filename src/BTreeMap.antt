-- ===== src/BTreeMap.antt =====
-- `std::collections::BTreeMap` with account ids, peer ids or epoch ids as keys: the entries in
-- ascending order of their keys, which is also the order of iteration. Keys are only compared, so
-- they are numbers (an account id is its 32 bytes, read as a number with the first byte highest).
pub mod Laws
pub mod Order
pub mod Totals
pub mod Measures
use stabilitypool.Base.{
  ℕ, ◌<◌, ◌≡◌, Bool, Option, none, some, List, [], ◌∷◌, map, filter, All, ltb, ◌==◌, if◌then◌else◌,
}

abbrev pub BTreeMap {ℓ} : Type ℓ → Type ℓ
BTreeMap V = List (ℕ × V)

module _ {ℓ} {V : Type ℓ} where
  unfoldable pub get : ℕ → BTreeMap V → Option V
  get k [] = none
  get k ((j, v) ∷ m) = if k == j then some v else get k m

  unfoldable pub insert : ℕ → V → BTreeMap V → BTreeMap V
  insert k v [] = (k, v) ∷ []
  insert k v ((j, w) ∷ m) =
      if ltb k j then (k, v) ∷ (j, w) ∷ m else if k == j then (k, v) ∷ m else (j, w) ∷ insert k v m

  unfoldable pub remove : ℕ → BTreeMap V → BTreeMap V
  remove k [] = []
  remove k ((j, w) ∷ m) = if k == j then m else (j, w) ∷ remove k m

  -- `entry(k).and_modify(f)`
  unfoldable pub and_modify : ℕ → (V → V) → BTreeMap V → BTreeMap V
  and_modify k f [] = []
  and_modify k f ((j, w) ∷ m) = if k == j then (j, f w) ∷ m else (j, w) ∷ and_modify k f m

  -- `entry(k).and_modify(f).or_insert(v)`
  unfoldable pub and_modify_or_insert : ℕ → (V → V) → V → BTreeMap V → BTreeMap V
  unfolding get and_modify insert
  and_modify_or_insert k f v m = elim (get k m) [ none ↦ insert k v m | some _ ↦ and_modify k f m ]

  -- `collect` and `extend`: one insertion after another
  unfoldable pub insert_all : List (ℕ × V) → BTreeMap V → BTreeMap V
  insert_all [] m = m
  insert_all ((k, v) ∷ es) m = insert_all es (insert k v m)

  abbrev pub values : BTreeMap V → List V
  values = map λ e. e.1

  abbrev pub keys : BTreeMap V → List ℕ
  keys = map λ e. e.0

  -- The keys of a `BTreeMap` stand in strictly ascending order.
  abbrev pub IsSorted : BTreeMap V → Type 0
  IsSorted [] = Unit
  IsSorted ((k, v) ∷ m) = All (λ e. k < e.0) m × IsSorted m

  -- A key that lies above every key of a map.
  abbrev pub IsAbove : ℕ → BTreeMap V → Type 0
  IsAbove k m = All (λ e. e.0 < k) m
