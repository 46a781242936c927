-- ===== src/StabilityCore/Desired/Limits.antt =====
-- What `compute_desired_positions` of stability_core.rs hands to the matching.
use stabilitypool.Base.{
  ℕ, ◌≤◌, ◌<◌, ◌≡◌, ◌≢◌, refl, sym, ◌∙◌, min, Bool, none, some, List, [], ◌∷◌, filter, All,
  All-filter, arith, ltb, ◌==◌, Bool-cases, Option-cases, inl, inr, ◌⊎◌,
}
use stabilitypool.Base.U64
use stabilitypool.BTreeMap
use stabilitypool.BTreeMap.{BTreeMap, IsSorted}
use stabilitypool.BTreeMap.Order.{
  and_modify-IsSorted, and_modify_or_insert-IsSorted, All-and_modify_entry,
  All-and_modify_or_insert, filter-IsSorted,
}
use stabilitypool.Action.Types.{Action, SeekerAction, lock, unlock}
use stabilitypool.Action.Types
use stabilitypool.StabilityCore.Desired.{
  SeekerLock, ProviderBid, as_lock, previous_locks, apply_seeker_action, apply_seeker_actions,
  or_zero, limit_locks, desired_bid, desired_bids, compute_desired_positions,
}
use stabilitypool.StabilityCore.Matching.Sorting.{IsNew, Distinct}

-- Every lock stands at its own account.
abbrev IsKeyed : BTreeMap SeekerLock → Type 0
IsKeyed = All λ e. e.1.account_id ≡ e.0

abbrev IsBook : BTreeMap SeekerLock → Type 0
IsBook m = IsSorted m × IsKeyed m

previous_locks-IsBook : (payouts : BTreeMap ℕ) → IsSorted payouts → IsBook (previous_locks payouts)
unfolding previous_locks
previous_locks-IsBook [] s = (tt, tt)
previous_locks-IsBook ((k, v) ∷ payouts) s =
    let (sorted, keyed) = previous_locks-IsBook payouts s.1 in
    ((above payouts s.0, sorted), (refl, keyed))
  where
    above : (ps : BTreeMap ℕ) → All (λ e. k < e.0) ps → All (λ e. k < e.0) (previous_locks ps)
    above [] h = tt
    above ((j, w) ∷ ps) h = (h.0, above ps h.1)

abbrev pub added : ℕ → SeekerLock → SeekerLock
added n l = record l { value = U64.add l.value n }

abbrev pub reduced : ℕ → SeekerLock → SeekerLock
reduced n l = record l { value = U64.saturating_sub l.value n }

apply_seeker_action-IsBook :
    (a : Action SeekerAction) (m : BTreeMap SeekerLock)
    → IsBook m
    → IsBook (apply_seeker_action a m)
unfolding apply_seeker_action
apply_seeker_action-IsBook a m (sorted, keyed) = go a.body refl
  where
    go : (body : SeekerAction) → a.body ≡ body → IsBook (apply_seeker_action a m)
    go (lock n) e =
        rw (apply_seeker_action, e)
          (
            and_modify_or_insert-IsSorted a.account_id (added n) (as_lock a.account_id n) m sorted,
            All-and_modify_or_insert (λ e. e.1.account_id ≡ e.0) a.account_id (added n)
                (as_lock a.account_id n) m refl (λ j w h. h) keyed,
          )
    go (unlock n) e =
        rw (apply_seeker_action, e)
          (
            and_modify-IsSorted a.account_id (reduced n) m sorted,
            All-and_modify_entry (λ e. e.1.account_id ≡ e.0) a.account_id (reduced n) m (λ j w h. h)
                keyed,
          )

apply_seeker_actions-IsBook :
    (as' : List (Action SeekerAction)) (m : BTreeMap SeekerLock)
    → IsBook m
    → IsBook (apply_seeker_actions as' m)
unfolding apply_seeker_actions
apply_seeker_actions-IsBook [] m b = b
apply_seeker_actions-IsBook (a ∷ as') m b =
    apply_seeker_actions-IsBook as' (apply_seeker_action a m) (apply_seeker_action-IsBook a m b)

module _ (available : BTreeMap ℕ) where
  -- The balance behind an account.
  abbrev pub balance_of : ℕ → ℕ
  balance_of k = or_zero (BTreeMap.get k available)

  limit_locks-IsBook :
      (m : BTreeMap SeekerLock)
      → IsBook m
      → IsBook (limit_locks available m)
        × All (λ e. e.1.value ≤ balance_of e.1.account_id) (limit_locks available m)
  unfolding limit_locks
  limit_locks-IsBook [] b = ((tt, tt), tt)
  limit_locks-IsBook ((k, l) ∷ m) ((above, sorted), (key, keyed)) =
      let (book, bounded) = limit_locks-IsBook m (sorted, keyed) in
      (((limited m above, book.0), (key, book.1)), (rw key (omega arith), bounded))
    where
      limited :
          (m : BTreeMap SeekerLock)
          → All (λ e. k < e.0) m
          → All (λ e. k < e.0) (limit_locks available m)
      limited [] h = tt
      limited ((j, w) ∷ m) h = (h.0, limited m h.1)

  -- What the bid of an action is like.
  abbrev IsBidOf : Action Types.ProviderBid → ProviderBid → Type 0
  IsBidOf a b =
      (b.account_id ≡ a.account_id) × (0 < b.max_value) × (b.max_value ≤ balance_of b.account_id)

  desired_bid_lem :
      (a : Action Types.ProviderBid)
      → (desired_bid available a ≡ none)
        ⊎ ((b : ProviderBid) × (desired_bid available a ≡ some b) × IsBidOf a b)
  unfolding desired_bid
  desired_bid_lem a = elim (Option-cases (BTreeMap.get a.account_id available)) [
    | inl e ↦ inl (rw (desired_bid, e) refl)
    | inr (n, e) ↦ elim (Bool-cases (min a.body.max_amount n == 0)) [
      | inl empty ↦ inl (rw (desired_bid, e) (rw empty refl))
      | inr filled ↦ inr (
        record {
          min_feerate = a.body.min_feerate;
          max_value = min a.body.max_amount n;
          account_id = a.account_id;
        },
        rw (desired_bid, e) (rw filled refl),
        (refl, ground arith, rw e (omega arith)),
      )
    ]
  ]

  desired_bids-IsNew :
      (k : ℕ) (as' : List (Action Types.ProviderBid))
      → All (λ a. a.account_id ≢ k) as'
      → All (λ b. b.account_id ≢ k) (desired_bids available as')
  unfolding desired_bids
  desired_bids-IsNew k [] h = tt
  desired_bids-IsNew k (a ∷ as') h = elim (desired_bid_lem a) [
    | inl e ↦ rw (desired_bids, e) (desired_bids-IsNew k as' h.1)
    | inr (b, e, (same, _, _)) ↦
        rw (desired_bids, e) (λ eq. h.0 (sym same ∙ eq), desired_bids-IsNew k as' h.1)
  ]

  desired_bids_lem :
      (as' : List (Action Types.ProviderBid))
      → Distinct (λ (a : Action Types.ProviderBid). a.account_id) as'
      → All
          (λ b. (0 < b.max_value) × (b.max_value ≤ balance_of b.account_id))
          (desired_bids available as')
        × Distinct (λ b. b.account_id) (desired_bids available as')
  unfolding desired_bids
  desired_bids_lem [] d = (tt, tt)
  desired_bids_lem (a ∷ as') d =
      let (bounds, distinct) = desired_bids_lem as' d.1 in
      elim (desired_bid_lem a) [
        | inl e ↦ rw (desired_bids, e) (bounds, distinct)
        | inr (b, e, (same, pos, le)) ↦
            rw (desired_bids, e)
              (((pos, le), bounds), (desired_bids-IsNew b.account_id as' (rw same d.0), distinct))
      ]

  -- The values of a map of locks, each at its account, are of different accounts.
  values-Distinct :
      (m : BTreeMap SeekerLock)
      → IsBook m
      → Distinct (λ (l : SeekerLock). l.account_id) (BTreeMap.values m)
  values-Distinct [] b = tt
  values-Distinct ((k, l) ∷ m) ((above, sorted), (key, keyed)) =
      (new m above keyed, values-Distinct m (sorted, keyed))
    where
      new :
          (m : BTreeMap SeekerLock)
          → All (λ e. k < e.0) m
          → IsKeyed m
          → IsNew (λ (x : SeekerLock). x.account_id) l (BTreeMap.values m)
      new [] h h' = tt
      new ((j, x) ∷ m) h h' = (λ e. absurd (omega (arith, key)), new m h.1 h'.1)

  -- From payouts in the order of their accounts and provider actions of different accounts come
  -- locks and bids of different accounts, none of them empty or above the balance of its account.
  pub compute_desired_positions_lem :
      (payouts : BTreeMap ℕ) (seeker_actions : List (Action SeekerAction))
      (provider_actions : List (Action Types.ProviderBid))
      → IsSorted payouts
      → Distinct (λ (a : Action Types.ProviderBid). a.account_id) provider_actions
      → let desired = compute_desired_positions available payouts seeker_actions provider_actions in
        All (λ l. (0 < l.value) × (l.value ≤ balance_of l.account_id)) desired.0
        × Distinct (λ l. l.account_id) desired.0
        × All (λ b. (0 < b.max_value) × (b.max_value ≤ balance_of b.account_id)) desired.1
        × Distinct (λ b. b.account_id) desired.1
  unfolding compute_desired_positions
  compute_desired_positions_lem payouts seekers providers s d =
      let locks = apply_seeker_actions seekers (previous_locks payouts) in
      let (book, bounded) = limit_locks-IsBook locks (
        apply_seeker_actions-IsBook seekers (previous_locks payouts)
          (previous_locks-IsBook payouts s)) in
      let limited = limit_locks available locks in
      let test : ℕ × SeekerLock → Bool = λ e. ltb 0 e.1.value in
      let (bids, distinct) = desired_bids_lem providers d in
      (
        positive limited bounded,
        values-Distinct (filter test limited) (
          filter-IsSorted test limited book.0,
          All-filter (λ e. e.1.account_id ≡ e.0) test limited book.1,
        ),
        bids,
        distinct,
      )
    where
      positive :
          (m : BTreeMap SeekerLock)
          → All (λ e. e.1.value ≤ balance_of e.1.account_id) m
          → All
              (λ l. (0 < l.value) × (l.value ≤ balance_of l.account_id))
              (BTreeMap.values (filter (λ (e : ℕ × SeekerLock). ltb 0 e.1.value) m))
      positive [] h = tt
      positive ((k, l) ∷ m) h = elim (Bool-cases (ltb 0 l.value)) [
        | inl pos ↦ rw pos ((ground arith, h.0), positive m h.1)
        | inr zero_valued ↦ rw zero_valued (positive m h.1)
      ]
