-- ===== src/Epoch/Settle/Sides.antt =====
-- The two sides of the accounts that the settlement of epoch.rs collects and pays.
use stabilitypool.Base.{
  ℕ, ◌+◌, ◌<◌, ◌≡◌, ◌≢◌, refl, some, [], ◌∷◌, ◌++◌, All, All-append, All-weaken, arith,
}
use stabilitypool.BTreeMap
use stabilitypool.BTreeMap.{BTreeMap, IsSorted}
use stabilitypool.BTreeMap.Measures.{total_of}
use stabilitypool.Account.{AccountBalance, LockedBalance, locked_amount}
use stabilitypool.StabilityCore.Matching.Sorting.{Distinct}
use stabilitypool.StabilityCore.Payouts.Sides.{IsPaidTo}
use stabilitypool.Epoch.Settle.Entries.{seeker_amount, provider_amount}
use stabilitypool.Pool.Funds.{whole}

pub IsPaidTo-append :
    (es es' ps ps' : BTreeMap ℕ)
    → IsPaidTo es ps
    → IsPaidTo es' ps'
    → IsPaidTo (es ++ es') (ps ++ ps')
IsPaidTo-append [] es' [] ps' h h' = h'
IsPaidTo-append [] es' (p ∷ ps) ps' h h' = absurd h
IsPaidTo-append (e ∷ es) es' [] ps' h h' = absurd h
IsPaidTo-append (e ∷ es) es' (p ∷ ps) ps' h h' = (h.0, IsPaidTo-append es es' ps ps' h.1 h')

-- Payouts to the accounts of entries in order are in order.
pub IsPaidTo-IsSorted : (es ps : BTreeMap ℕ) → IsPaidTo es ps → IsSorted es → IsSorted ps
IsPaidTo-IsSorted [] [] h s = tt
IsPaidTo-IsSorted [] (p ∷ ps) h s = absurd h
IsPaidTo-IsSorted (e ∷ es) [] h s = absurd h
IsPaidTo-IsSorted ((k, x) ∷ es) ((j, p) ∷ ps) h s =
    (above es ps h.1 s.0, IsPaidTo-IsSorted es ps h.1 s.1)
  where
    above : (es ps : BTreeMap ℕ) → IsPaidTo es ps → All (λ e. k < e.0) es → All (λ e. j < e.0) ps
    above [] [] to lt = tt
    above [] (q ∷ qs) to lt = absurd to
    above (e ∷ es) [] to lt = absurd to
    above (e ∷ es) (q ∷ qs) to lt = (omega (arith, h.0, to.0, lt.0), above es qs to.1 lt.1)

-- Entries in order are of different accounts.
pub IsSorted-Distinct : (es : BTreeMap ℕ) → IsSorted es → Distinct (λ (e : ℕ × ℕ). e.0) es
IsSorted-Distinct [] s = tt
IsSorted-Distinct ((k, x) ∷ es) s = (
  All-weaken (λ (e : ℕ × ℕ). k < e.0) (λ e. e.0 ≢ k) es
      (λ e lt same. absurd (omega (arith, lt, same))) s.0,
  IsSorted-Distinct es s.1,
)

pub append-Distinct :
    (es es' : BTreeMap ℕ)
    → Distinct (λ (e : ℕ × ℕ). e.0) es
    → Distinct (λ (e : ℕ × ℕ). e.0) es'
    → All (λ e. All (λ e'. e'.0 ≢ e.0) es') es
    → Distinct (λ (e : ℕ × ℕ). e.0) (es ++ es')
append-Distinct [] es' d d' h = d'
append-Distinct (e ∷ es) es' d d' h =
    (All-append (λ (e' : ℕ × ℕ). e'.0 ≢ e.0) es es' d.0 h.0, append-Distinct es es' d.1 d' h.1)

pub total_of-whole :
    (m : BTreeMap AccountBalance)
    → total_of whole m ≡ total_of (λ a. a.unlocked) m + total_of (λ a. locked_amount a.locked) m
total_of-whole [] = omega arith
total_of-whole ((k, a) ∷ m) = omega (arith, total_of-whole m)

-- Every locked amount is on one of the two sides.
pub sides_lem :
    (m : BTreeMap AccountBalance)
    → total_of (λ a. locked_amount a.locked) m
      ≡ total_of (λ a. seeker_amount a.locked) m + total_of (λ a. provider_amount a.locked) m
sides_lem [] = omega arith
sides_lem ((k, a) ∷ m) = ground (arith, sides_lem m)

pub seeker_amount-locked :
    (l : LockedBalance) → 0 < seeker_amount l → locked_amount l ≡ seeker_amount l
seeker_amount-locked (LockedBalance.seeker a) h = refl
seeker_amount-locked (LockedBalance.provider a) h = absurd (omega arith)
seeker_amount-locked LockedBalance.none h = absurd (omega arith)

pub provider_amount-locked :
    (l : LockedBalance)
    → 0 < provider_amount l
    → (locked_amount l ≡ provider_amount l) × (seeker_amount l ≡ 0)
provider_amount-locked (LockedBalance.seeker a) h = absurd (omega arith)
provider_amount-locked (LockedBalance.provider a) h = (refl, refl)
provider_amount-locked LockedBalance.none h = absurd (omega arith)

-- An entry that its account has on a side.
abbrev pub IsOf : (LockedBalance → ℕ) → BTreeMap AccountBalance → ℕ × ℕ → Type 0
IsOf amount m e = (a : AccountBalance) × (BTreeMap.get e.0 m ≡ some a) × (amount a.locked ≡ e.1)

-- No account has entries on both sides.
pub apart :
    (m : BTreeMap AccountBalance) (se pe : BTreeMap ℕ)
    → All (IsOf seeker_amount m) se
    → All (IsOf provider_amount m) pe
    → All (λ e. 0 < e.1) se
    → All (λ e. 0 < e.1) pe
    → All (λ e. All (λ e'. e'.0 ≢ e.0) pe) se
apart m [] pe h h' f f' = tt
apart m ((k, x) ∷ se) pe ((a, there, same), h) h' f f' =
    (others pe h' f', apart m se pe h h' f.1 f')
  where
    others :
        (pe : BTreeMap ℕ)
        → All (IsOf provider_amount m) pe
        → All (λ e. 0 < e.1) pe
        → All (λ e. e.0 ≢ k) pe
    others [] h' f' = tt
    others ((j, y) ∷ pe) ((b, there', same'), h') f' = (
      (λ (eq : j ≡ k).
          let one : a ≡ b = cc (there, there', eq) in
          let (_, no_seeker) = provider_amount-locked b.locked (omega (arith, same', f'.0)) in
          let seeks : seeker_amount b.locked ≡ x = rw one at same in
          absurd (omega (arith, seeks, no_seeker, f.0))),
      others pe h' f'.1,
    )
