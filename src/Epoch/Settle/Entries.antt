-- ===== src/Epoch/Settle/Entries.antt =====
-- What the settlement of epoch.rs collects: the amounts that the accounts have locked.
use stabilitypool.Base.{
  ℕ, ◌<◌, ◌≡◌, refl, ◌∙◌, some, List, [], ◌∷◌, ◌++◌, All, All-append, arith, ltb, if◌then◌else◌,
  Bool-cases, inl, inr,
}
use mathlib.Core.List.{append_assoc, append-nil}
use stabilitypool.BTreeMap
use stabilitypool.BTreeMap.{BTreeMap, IsSorted, IsAbove}
use stabilitypool.BTreeMap.Totals.{total}
use stabilitypool.BTreeMap.Measures.{total_of}
use stabilitypool.BTreeMap.Laws.{insert-append}
use stabilitypool.Account.{AccountBalance, LockedBalance}
use stabilitypool.Epoch.Settle.{collect_entry, collect_entries}

-- What an account has locked as a seeker, and as a provider.
abbrev pub seeker_amount : LockedBalance → ℕ
seeker_amount (LockedBalance.seeker a) = a
seeker_amount (LockedBalance.provider a) = 0
seeker_amount LockedBalance.none = 0

abbrev pub provider_amount : LockedBalance → ℕ
provider_amount (LockedBalance.seeker a) = 0
provider_amount (LockedBalance.provider a) = a
provider_amount LockedBalance.none = 0

-- An entry of an amount that is not 0.
abbrev pub entry : ℕ → ℕ → BTreeMap ℕ → BTreeMap ℕ
entry k n rest = if ltb 0 n then (k, n) ∷ rest else rest

module _ (amount : LockedBalance → ℕ) where
  -- The entries of one side, in the order of the accounts.
  abbrev pub side_of : List (ℕ × AccountBalance) → BTreeMap ℕ
  side_of [] = []
  side_of ((k, a) ∷ m) = entry k (amount a.locked) (side_of m)

  pub side_of-above :
      (k : ℕ) (m : BTreeMap AccountBalance) → All (λ e. k < e.0) m → All (λ e. k < e.0) (side_of m)
  side_of-above k [] h = tt
  side_of-above k ((j, a) ∷ m) h = ground (arith, side_of-above k m h.1)

  pub side_of-IsSorted : (m : BTreeMap AccountBalance) → IsSorted m → IsSorted (side_of m)
  side_of-IsSorted [] s = tt
  side_of-IsSorted ((k, a) ∷ m) s = ground (arith, side_of-IsSorted m s.1, side_of-above k m s.0)

  pub side_of-filled : (m : BTreeMap AccountBalance) → All (λ e. 0 < e.1) (side_of m)
  side_of-filled [] = tt
  side_of-filled ((k, a) ∷ m) = ground (arith, side_of-filled m)

  pub total-side_of :
      (m : BTreeMap AccountBalance) → total (side_of m) ≡ total_of (λ a. amount a.locked) m
  total-side_of [] = refl
  total-side_of ((k, a) ∷ m) = ground (arith, total-side_of m)

  -- Every entry is what its account has locked.
  pub side_of-get :
      (m : BTreeMap AccountBalance)
      → IsSorted m
      → All
          (λ e. (a : AccountBalance) × (BTreeMap.get e.0 m ≡ some a) × (amount a.locked ≡ e.1))
          (side_of m)
  unfolding BTreeMap.get
  side_of-get [] s = tt
  side_of-get ((k, a) ∷ m) s =
      let rest = later (side_of m) (side_of-above k m s.0) (side_of-get m s.1) in
      elim (Bool-cases (ltb 0 (amount a.locked))) [
        | inl filled ↦ rw filled ((a, ground arith, refl), rest)
        | inr empty ↦ rw empty rest
      ]
    where
      later :
          (es : BTreeMap ℕ)
          → All (λ e. k < e.0) es
          → All
              (λ e. (b : AccountBalance) × (BTreeMap.get e.0 m ≡ some b) × (amount b.locked ≡ e.1))
              es
          → All
              (λ e.
                (b : AccountBalance) × (BTreeMap.get e.0 ((k, a) ∷ m) ≡ some b)
                × (amount b.locked ≡ e.1))
              es
      later [] h g = tt
      later ((j, x) ∷ es) h ((b, there, same), g) = ((b, ground (arith, h.0), same), later es h.1 g)

collect_entry_lem :
    (k : ℕ) (locked : LockedBalance) (se pe : BTreeMap ℕ)
    → IsAbove k se
    → IsAbove k pe
    → collect_entry k locked (se, pe)
      ≡ (se ++ entry k (seeker_amount locked) [], pe ++ entry k (provider_amount locked) [])
unfolding collect_entry
collect_entry_lem k (LockedBalance.seeker a) se pe h h' = elim (Bool-cases (ltb 0 a)) [
  | inl filled ↦ rw filled (rw (insert-append k a se h, append-nil) refl)
  | inr empty ↦ rw empty (simp append-nil refl)
]
collect_entry_lem k (LockedBalance.provider a) se pe h h' = elim (Bool-cases (ltb 0 a)) [
  | inl filled ↦ rw filled (rw (insert-append k a pe h', append-nil) refl)
  | inr empty ↦ rw empty (simp append-nil refl)
]
collect_entry_lem k LockedBalance.none se pe h h' = simp append-nil refl

-- What is entered for an account lies below the accounts that come later.
IsAbove-entry :
    (k n : ℕ) (se : BTreeMap ℕ) (m : BTreeMap AccountBalance)
    → All (λ e. k < e.0) m
    → All (λ e. IsAbove e.0 se) m
    → All (λ e. IsAbove e.0 (se ++ entry k n [])) m
IsAbove-entry k n se [] lt h = tt
IsAbove-entry k n se ((j, a) ∷ m) lt h =
    (All-append (λ e. e.0 < j) se (entry k n []) h.0 entered, IsAbove-entry k n se m lt.1 h.1)
  where
    entered : IsAbove j (entry k n [])
    entered = ground (arith, lt.0)

entry-append : (k n : ℕ) (se es : BTreeMap ℕ) → (se ++ entry k n []) ++ es ≡ se ++ entry k n es
entry-append k n se es = elim (Bool-cases (ltb 0 n)) [
  | inl filled ↦ rw filled (append_assoc se ((k, n) ∷ []) es)
  | inr empty ↦ rw empty (rw append-nil refl)
]

-- The collection takes both sides of the accounts.
pub collect_entries_lem :
    (m : BTreeMap AccountBalance)
    → IsSorted m
    → collect_entries m ([], []) ≡ (side_of seeker_amount m, side_of provider_amount m)
unfolding collect_entries
collect_entries_lem m s = all m [] [] s (none_above m) (none_above m)
  where
    none_above : (m : BTreeMap AccountBalance) → All (λ e. IsAbove {V = ℕ} e.0 []) m
    none_above [] = tt
    none_above (e ∷ m) = (tt, none_above m)

    all :
        (m : BTreeMap AccountBalance) (se pe : BTreeMap ℕ)
        → IsSorted m
        → All (λ e. IsAbove e.0 se) m
        → All (λ e. IsAbove e.0 pe) m
        → collect_entries m (se, pe)
          ≡ (se ++ side_of seeker_amount m, pe ++ side_of provider_amount m)
    all [] se pe s h h' = simp append-nil refl
    all ((k, a) ∷ m) se pe s h h' =
        let l = a.locked in
        rw (collect_entry_lem k l se pe h.0 h'.0) (
          all m (se ++ entry k (seeker_amount l) []) (pe ++ entry k (provider_amount l) []) s.1
            (IsAbove-entry k (seeker_amount l) se m s.0 h.1)
            (IsAbove-entry k (provider_amount l) pe m s.0 h'.1)
          ∙ rw
              (
                entry-append k (seeker_amount l) se (side_of seeker_amount m),
                entry-append k (provider_amount l) pe (side_of provider_amount m),
              )
              refl)
