-- ===== src/StabilityCore/Matching/Demand.antt =====
-- The two ends of the matching: the locks that take part, and how they are filled.
use stabilitypool.Base.{
  ℕ, ◌+◌, ◌-◌, ◌^◌, ◌≤◌, ◌<◌, min, ◌≡◌, ◌≢◌, ◌∙◌, false, ◌||◌, none, List, [], ◌∷◌, All, sum_of,
  arith, ltb, ◌==◌, Bool-cases, inl, inr,
}
use stabilitypool.Base.U64
use stabilitypool.BTreeMap
use stabilitypool.BTreeMap.{BTreeMap, IsSorted}
use stabilitypool.BTreeMap.Totals.{total, total-insert_new}
use stabilitypool.BTreeMap.Laws.{get-insert_ne}
use stabilitypool.BTreeMap.Order.{insert-IsSorted, All-insert}
use stabilitypool.StabilityCore.Desired.{SeekerLock}
use stabilitypool.StabilityCore.Matching.{retain_locks, fill_seekers, max_total_seeker_value}
use stabilitypool.StabilityCore.Matching.Sorting.{Distinct}

abbrev pub demand_of : List SeekerLock → ℕ
demand_of = sum_of λ l. l.value

-- From a demand within the limit of the pool, the demand after the retention is the old one and the
-- sum of the retained locks, it keeps to the limit, and no retained lock is 0.
pub retain_locks_lem :
    (d : ℕ) (locks : List SeekerLock)
    → d ≤ max_total_seeker_value
    → let (demand, retained) = retain_locks d locks in
      (demand ≡ d + demand_of retained)
      × (demand ≤ max_total_seeker_value)
      × All (λ l. 0 < l.value) retained
unfolding retain_locks
retain_locks_lem d [] h = (omega arith, h, tt)
retain_locks_lem d (l ∷ locks) h =
    elim (Bool-cases (l.value == 0 || ltb max_total_seeker_value (U64.saturating_add d l.value))) [
      | inl drop ↦ rw (drop, retain_locks) (retain_locks_lem d locks h)
      | inr keep ↦
          let fits : (0 < l.value) × (d + l.value ≤ max_total_seeker_value) = ground arith in
          let added : U64.add d l.value ≡ d + l.value = U64.add_lem d l.value (omega arith) in
          let (sum, limit, pos) = retain_locks_lem (d + l.value) locks fits.1 in
          rw (keep, retain_locks) (rw added (omega (arith, sum), limit, (fits.0, pos)))
    ]

-- A property of every lock is one of every retained lock.
pub All-retain_locks {ℓ} :
    (P : SeekerLock → Type ℓ) (d : ℕ) (locks : List SeekerLock)
    → All P locks
    → All P (retain_locks d locks).1
unfolding retain_locks
All-retain_locks P d [] h = tt
All-retain_locks P d (l ∷ locks) h =
    elim (Bool-cases (l.value == 0 || ltb max_total_seeker_value (U64.saturating_add d l.value))) [
      | inl drop ↦ rw (drop, retain_locks) (All-retain_locks P d locks h.1)
      | inr keep ↦ rw (keep, retain_locks) (h.0, All-retain_locks P (U64.add d l.value) locks h.1)
    ]

pub retain_locks-Distinct :
    (d : ℕ) (locks : List SeekerLock)
    → Distinct (λ l. l.account_id) locks
    → Distinct (λ l. l.account_id) (retain_locks d locks).1
unfolding retain_locks
retain_locks-Distinct d [] h = tt
retain_locks-Distinct d (l ∷ locks) h =
    elim (Bool-cases (l.value == 0 || ltb max_total_seeker_value (U64.saturating_add d l.value))) [
      | inl drop ↦ rw (drop, retain_locks) (retain_locks-Distinct d locks h.1)
      | inr keep ↦
          rw (keep, retain_locks)
            (
              All-retain_locks (λ (x : SeekerLock). x.account_id ≢ l.account_id) (U64.add d l.value)
                  locks h.0,
              retain_locks-Distinct (U64.add d l.value) locks h.1,
            )
    ]

-- Locks of more than 0 that with the demand before them do not go past the limit of the pool are all
-- retained, and their sum is added to the demand.
pub retain_locks_keeps :
    (d : ℕ) (locks : List SeekerLock)
    → d + demand_of locks ≤ max_total_seeker_value
    → All (λ l. 0 < l.value) locks
    → retain_locks d locks ≡ (d + demand_of locks, locks)
unfolding retain_locks
retain_locks_keeps d [] h p = ground arith
retain_locks_keeps d (l ∷ locks) h p =
    let added : U64.add d l.value ≡ d + l.value = U64.add_lem d l.value (omega arith) in
    let keep : (l.value == 0 || ltb max_total_seeker_value (U64.saturating_add d l.value)) ≡ false =
      ground (arith, p.0) in
    rw (keep, retain_locks)
      (rw added (rw (retain_locks_keeps (d + l.value) locks (omega arith) p.1) (ground arith)))

-- None of the accounts of the locks stands in the map.
abbrev AreAbsent : List SeekerLock → BTreeMap ℕ → Type 0
AreAbsent locks m = All (λ l. BTreeMap.get l.account_id m ≡ none) locks

insert-AreAbsent :
    (k v : ℕ) (locks : List SeekerLock) (m : BTreeMap ℕ)
    → All (λ l. l.account_id ≢ k) locks
    → AreAbsent locks m
    → AreAbsent locks (BTreeMap.insert k v m)
insert-AreAbsent k v [] m n h = tt
insert-AreAbsent k v (l ∷ locks) m n h =
    (get-insert_ne l.account_id k v m n.0 ∙ h.0, insert-AreAbsent k v locks m n.1 h.1)

-- From locks of different accounts that are more than 0, within a bound for each account, and not in
-- the sorted map yet, `fill_seekers` adds entries that sum to all of the locks or to all that is on
-- offer, whichever is less; no entry is 0 or above the bound of its account, and the map stays sorted.
pub fill_seekers_lem :
    (limit : ℕ → ℕ) (rem : ℕ) (locks : List SeekerLock) (m : BTreeMap ℕ)
    → rem < 2 ^ 64
    → All (λ l. 0 < l.value) locks
    → All (λ l. l.value ≤ limit l.account_id) locks
    → Distinct (λ l. l.account_id) locks
    → AreAbsent locks m
    → IsSorted m
    → All (λ e. (0 < e.1) × (e.1 ≤ limit e.0)) m
    → let filled = fill_seekers rem locks m in
      (total filled ≡ total m + min rem (demand_of locks))
      × IsSorted filled
      × All (λ e. (0 < e.1) × (e.1 ≤ limit e.0)) filled
unfolding fill_seekers
fill_seekers_lem limit rem [] m h p b d a s all = (omega arith, s, all)
fill_seekers_lem limit rem (l ∷ locks) m h p b d a s all =
    let locked = min rem l.value in
    elim (Bool-cases (min rem l.value == 0)) [
      | inl stop ↦ rw (stop, fill_seekers) (ground (arith, p.0), s, all)
      | inr go ↦
          let pos : 0 < min rem l.value = ground arith in
          let left : U64.sub rem (min rem l.value) ≡ rem - min rem l.value =
            U64.sub_lem rem (min rem l.value) h (omega arith) in
          let m' = BTreeMap.insert l.account_id (min rem l.value) m in
          let (sum, sorted, bounds) =
            fill_seekers_lem limit (rem - min rem l.value) locks m' (omega arith) p.1 b.1 d.1
              (insert-AreAbsent l.account_id (min rem l.value) locks m d.0 a.1)
              (insert-IsSorted l.account_id (min rem l.value) m s)
              (All-insert (λ e. (0 < e.1) × (e.1 ≤ limit e.0)) l.account_id (min rem l.value) m
                (pos, omega (arith, b.0)) all) in
          rw (go, fill_seekers)
            (rw left (
              omega (arith, sum, total-insert_new l.account_id (min rem l.value) m a.0),
              sorted,
              bounds,
            ))
    ]
