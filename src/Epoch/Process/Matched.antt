-- ===== src/Epoch/Process/Matched.antt =====
-- From the matched positions to the accounts that lock them in (epoch.rs).

use stabilitypool.Base.{
  ℕ, ◌+◌, ◌^◌, ◌<◌, ◌≡◌, refl, ap, ◌∙◌, inl, inr, Option, List, [], ◌∷◌, All, ok, arith, ◌==◌,
  Bool-cases,
}
use stabilitypool.BTreeMap.{BTreeMap, IsSorted}
use stabilitypool.BTreeMap.Totals.{total}
use stabilitypool.BTreeMap.Measures.{total_of}
use stabilitypool.BTreeMap.Order.{All-remove}
use stabilitypool.Account.{AccountBalance, locked_amount}
use stabilitypool.Action.Types.{Action, SeekerAction, ActionStaged}
use stabilitypool.Action.Types
use stabilitypool.Action.Staged
use stabilitypool.StabilityCore.Desired.Limits.{balance_of}
use stabilitypool.StabilityCore.Matching.Sorting.{IsNew, Distinct}
use stabilitypool.StabilityCore.Matching.Loop.{IsWithin}
use stabilitypool.StabilityCore.Matching.Result.{IsMatched}
use stabilitypool.Epoch.Settle.{or_default}
use stabilitypool.Epoch.Settle.Entries.{provider_amount}
use stabilitypool.Epoch.Settle.Funds.{locked_funds, OnlyAccounts, balance_at-le}
use stabilitypool.Epoch.Settle.Sides.{sides_lem}
use stabilitypool.Epoch.Settle.Conservation.{seekers_locked, providers_locked, IsBackedUp}
use stabilitypool.Epoch.Process.{
  provider_actions, unlocked_balances, locked_sides, lock_positions, remove_seeker_actions,
}
use stabilitypool.Epoch.Process.Locking.{
  locked_sides-AreCovered, unlocked_balances_lem, IsSnapshot, Stands, lock_positions_lem,
}
use stabilitypool.Pool.Funds.{funds}
use stabilitypool.Db.{Store, IsStore, Database}

-- An action that stands at its own account, with a sequence that has a successor.
abbrev pub IsKeyed : ℕ × ActionStaged → Type 0
IsKeyed e = (Staged.account_id e.1 ≡ e.0) × (Staged.sequence e.1 + 1 < 2 ^ 64)

abbrev pub AreKeyed : BTreeMap ActionStaged → Type 0
AreKeyed = All IsKeyed

pub provider_actions-Distinct :
    (staged : BTreeMap ActionStaged)
    → IsSorted staged
    → AreKeyed staged
    → Distinct (λ (a : Action Types.ProviderBid). a.account_id) (provider_actions staged)
unfolding provider_actions
provider_actions-Distinct [] s h = tt
provider_actions-Distinct ((k, ActionStaged.seeker a) ∷ staged) s h =
    provider_actions-Distinct staged s.1 h.1
provider_actions-Distinct ((k, ActionStaged.provider a) ∷ staged) s h =
    (new staged s.0 h.1, provider_actions-Distinct staged s.1 h.1)
  where
    new :
        (staged : BTreeMap ActionStaged)
        → All (λ e. k < e.0) staged
        → AreKeyed staged
        → IsNew (λ (x : Action Types.ProviderBid). x.account_id) a (provider_actions staged)
    new [] lt keyed = tt
    new ((j, ActionStaged.seeker x) ∷ staged) lt keyed = new staged lt.1 keyed.1
    new ((j, ActionStaged.provider x) ∷ staged) lt keyed =
        ((λ e. absurd (omega (arith, h.0, lt.0, keyed.0, e))), new staged lt.1 keyed.1)

pub total-unlocked_balances :
    (m : BTreeMap AccountBalance) → total (unlocked_balances m) ≡ total_of (λ a. a.unlocked) m
unfolding unlocked_balances
total-unlocked_balances [] = refl
total-unlocked_balances ((k, a) ∷ m) = omega (arith, total-unlocked_balances m)

empty_sides :
    (balance : ℕ → ℕ) (se pe : BTreeMap ℕ)
    → IsWithin balance se
    → IsWithin balance pe
    → total se ≡ 0
    → total pe ≡ 0
    → locked_sides se pe ≡ []
unfolding locked_sides
empty_sides balance [] [] h h' e e' = refl
empty_sides balance [] (p ∷ pe) h h' e e' = absurd (omega (arith, h'.0))
empty_sides balance (s ∷ se) pe h h' e e' = absurd (omega (arith, h.0))

module _ {st : Store} (law : IsStore st) where
  -- With nothing locked in, the unlocked balances are the accounts.
  snapshot_lem :
      (db : Database st)
      → locked_funds law db ≡ 0
      → IsSnapshot law (unlocked_balances (st.find_by_prefix db.accounts)) db
  snapshot_lem db h k =
      let m = st.find_by_prefix db.accounts in
      omega (
        arith,
        h,
        balance_at-le law (λ a. locked_amount a.locked) k db refl,
        unlocked_balances_lem k m,
        ap (λ (o : Option AccountBalance). (or_default o).unlocked)
            (law.get_value-eq k db.accounts),
      )

  pub remove_seeker_actions_lem :
      (actions : List (Action SeekerAction)) (db : Database st)
      → AreKeyed (st.find_by_prefix db.actions_staged)
      → (t : st.Table ActionStaged) × (remove_seeker_actions st actions db
          ≡ record db { actions_staged = t })
        × AreKeyed (st.find_by_prefix t)
  unfolding remove_seeker_actions
  remove_seeker_actions_lem [] db h = (db.actions_staged, refl, h)
  remove_seeker_actions_lem (a ∷ actions) db h =
      let removed : Database st = record db {
        actions_staged = st.remove_entry a.account_id db.actions_staged;
      } in
      let keyed : AreKeyed (st.find_by_prefix removed.actions_staged) =
        rw (law.find-remove a.account_id db.actions_staged)
          (All-remove IsKeyed a.account_id (st.find_by_prefix db.actions_staged) h) in
      remove_seeker_actions_lem actions removed keyed

  -- The last of the providers' positions stays locked in.
  Stands-locked_sides :
      (balances se pe : BTreeMap ℕ) (db : Database st)
      → Stands law balances (locked_sides se pe) db
      → IsWithin (balance_of balances) pe
      → 0 < total pe
      → 0 < providers_locked law db
  unfolding locked_sides
  Stands-locked_sides balances [] [] db s within pos = absurd (omega arith)
  Stands-locked_sides balances [] ((k, a) ∷ []) db s within pos =
      let counted = balance_at-le law (λ b. provider_amount b.locked) k db refl in
      omega (arith, counted, ap provider_amount s, within.0)
  Stands-locked_sides balances [] (e ∷ e' ∷ pe) db s within pos =
      Stands-locked_sides balances [] (e' ∷ pe) db s within.1 (omega (arith, within.1.0))
  Stands-locked_sides balances (e ∷ []) [] db s within pos = absurd (omega arith)
  Stands-locked_sides balances (e ∷ []) (e' ∷ pe) db s within pos =
      Stands-locked_sides balances [] (e' ∷ pe) db s within pos
  Stands-locked_sides balances (e ∷ e' ∷ se) pe db s within pos =
      Stands-locked_sides balances (e' ∷ se) pe db s within pos

  -- What the matching gives is locked in, and leaves no seeker without a provider.
  pub lock_matched_lem :
      (f : ℕ) (se pe : BTreeMap ℕ) (db : Database st)
      → let balances = unlocked_balances (st.find_by_prefix db.accounts) in
        IsMatched (balance_of balances) f se pe
        → locked_funds law db ≡ 0
        → funds law db < 2 ^ 63
        → (db' : Database st) × (seekers providers : ℕ) × (lock_positions st balances
              (locked_sides se pe)
              (0, 0)
              db
            ≡ ok (db', seekers, providers))
          × OnlyAccounts law db db'
          × (funds law db' ≡ funds law db)
          × IsBackedUp law db'
  lock_matched_lem f se pe db matched unlocked small =
      let balances = unlocked_balances (st.find_by_prefix db.accounts) in
      let (db', s, p, done, only, same, stands, last) =
        lock_positions_lem law balances (locked_sides se pe) (0, 0) db
          (locked_sides-AreCovered balances se pe matched.seekers_within matched.providers_within)
          (snapshot_lem db unlocked) (omega arith) in
      (
        db',
        s,
        p,
        done,
        only,
        same,
        elim (Bool-cases (total pe == 0)) [
          | inr some_in ↦ inr (
              Stands-locked_sides balances se pe db' stands matched.providers_within (ground arith))
          | inl none_in ↦ inl (elim last [
            | inl ne ↦ absurd (
                ne (
                  empty_sides (balance_of balances) se pe matched.seekers_within
                    matched.providers_within (ground (arith, matched.backed_up)) (ground arith)))
            | inr e ↦
                ap (seekers_locked law) e
                ∙ omega (arith, sides_lem (st.find_by_prefix db.accounts), unlocked)
          ])
        ],
      )
