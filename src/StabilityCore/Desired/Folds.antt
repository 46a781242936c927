-- ===== src/StabilityCore/Desired/Folds.antt =====
-- The lock of one account as the outcome of its own actions.
use stabilitypool.Base.{
  ℕ, ◌-◌, ◌≡◌, refl, ap, ◌∙◌, Option, none, some, List, [], ◌∷◌, arith, ◌==◌, if◌then◌else◌,
  Bool-cases, Option-cases, inl, inr,
}
use stabilitypool.Base.U64
use stabilitypool.BTreeMap
use stabilitypool.BTreeMap.{BTreeMap}
use stabilitypool.BTreeMap.Laws.{get-and_modify, get-and_modify_absent, get-and_modify_or_insert}
use stabilitypool.Action.Types.{Action, SeekerAction, lock, unlock}
use stabilitypool.StabilityCore.Desired.{
  SeekerLock, as_lock, previous_locks, apply_seeker_action, apply_seeker_actions,
}
use stabilitypool.StabilityCore.Desired.Limits.{added, reduced}

abbrev pub value_of : Option SeekerLock → Option ℕ
value_of none = none
value_of (some l) = some l.value

-- What an action of the account makes of its value: a lock adds, an unlock takes what there is.
abbrev pub after : SeekerAction → Option ℕ → Option ℕ
after (lock n) none = some n
after (lock n) (some v) = some (U64.add v n)
after (unlock n) none = none
after (unlock n) (some v) = some (v - n)

-- The actions of one account, one after another.
abbrev pub after_all : ℕ → List (Action SeekerAction) → Option ℕ → Option ℕ
after_all k [] o = o
after_all k (a ∷ as') o = after_all k as' (if k == a.account_id then after a.body o else o)

previous_locks_lem :
    (k : ℕ) (payouts : BTreeMap ℕ)
    → value_of (BTreeMap.get k (previous_locks payouts)) ≡ BTreeMap.get k payouts
unfolding previous_locks BTreeMap.get
previous_locks_lem k [] = refl
previous_locks_lem k ((j, v) ∷ payouts) = elim (Bool-cases (k == j)) [
  | inl same ↦ rw same refl
  | inr other ↦ rw other (previous_locks_lem k payouts)
]

apply_seeker_action_lem :
    (k : ℕ) (a : Action SeekerAction) (m : BTreeMap SeekerLock)
    → value_of (BTreeMap.get k (apply_seeker_action a m)) ≡ (
        if k == a.account_id
        then after a.body (value_of (BTreeMap.get k m))
        else value_of (BTreeMap.get k m))
unfolding apply_seeker_action
apply_seeker_action_lem k a m = go a.body refl
  where
    id : ℕ
    id = a.account_id

    locked :
        (n : ℕ) (o : Option SeekerLock)
        → value_of (some (elim o [ none ↦ as_lock id n | some w ↦ added n w ]))
          ≡ after (lock n) (value_of o)
    locked n none = refl
    locked n (some w) = refl

    Goal : SeekerAction → Type 0
    Goal body = value_of (BTreeMap.get k (apply_seeker_action a m)) ≡ (
        if k == a.account_id
        then after body (value_of (BTreeMap.get k m))
        else value_of (BTreeMap.get k m))

    go : (body : SeekerAction) → a.body ≡ body → Goal body
    go (lock n) e =
        rw (apply_seeker_action, e)
          (ap value_of (get-and_modify_or_insert k id (added n) (as_lock id n) m)
            ∙ elim (Bool-cases (k == id)) [
              | inl same ↦
                  let exact : k ≡ id = ground arith in
                  rw same (rw exact (locked n (BTreeMap.get id m)))
              | inr other ↦ rw other refl
            ])
    go (unlock n) e =
        rw (apply_seeker_action, e)
          (elim (Option-cases (BTreeMap.get id m)) [
            | inl absent ↦
                ap value_of (get-and_modify_absent k id (reduced n) m absent)
                ∙ elim (Bool-cases (k == id)) [
                  | inl same ↦
                      let exact : k ≡ id = ground arith in rw same (rw exact (rw absent refl))
                  | inr other ↦ rw other refl
                ]
            | inr (w, there) ↦
                ap value_of (get-and_modify k id (reduced n) m w there)
                ∙ elim (Bool-cases (k == id)) [
                  | inl same ↦
                      let exact : k ≡ id = ground arith in rw same (rw exact (rw there refl))
                  | inr other ↦ rw other refl
                ]
          ])

-- The lock of an account after all the seeker actions is that of its own actions in their order,
-- from its previous payout; the actions of other accounts do not matter.
pub apply_seeker_actions-previous_locks :
    (k : ℕ) (actions : List (Action SeekerAction)) (payouts : BTreeMap ℕ)
    → value_of (BTreeMap.get k (apply_seeker_actions actions (previous_locks payouts)))
      ≡ after_all k actions (BTreeMap.get k payouts)
unfolding apply_seeker_actions
apply_seeker_actions-previous_locks k actions payouts =
    all actions (previous_locks payouts) ∙ ap (after_all k actions) (previous_locks_lem k payouts)
  where
    all :
        (as' : List (Action SeekerAction)) (m : BTreeMap SeekerLock)
        → value_of (BTreeMap.get k (apply_seeker_actions as' m))
          ≡ after_all k as' (value_of (BTreeMap.get k m))
    all [] m = refl
    all (a ∷ as') m =
        all as' (apply_seeker_action a m) ∙ ap (after_all k as') (apply_seeker_action_lem k a m)
