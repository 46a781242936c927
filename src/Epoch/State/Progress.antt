-- ===== src/Epoch/State/Progress.antt =====
-- The two positions of an `EpochState` that the module moves through, and what the checks of an
-- incoming end of an epoch say in them.
use stabilitypool.Base.{
  ℕ, ◌+◌, ◌^◌, ◌<◌, ◌≡◌, refl, ◌↔◌, ◌⊎◌, inl, inr, sym, subst, Bool, true, false, Option, none,
  some, ok, arith, not, if◌then◌else◌,
}
use stabilitypool.Base.U64
use stabilitypool.Epoch.State.{
  EpochState, next_id, is_settled, expected_epoch_end_id, staging_epoch_id,
}

-- An id that leaves room for the three after it.
abbrev pub HasRoom : Option ℕ → Type 0
HasRoom none = Unit
HasRoom (some id) = id + 3 < 2 ^ 64

-- Every ended epoch is settled, or all but the last one.
abbrev pub IsInStep : EpochState → Type 0
IsInStep s =
    HasRoom s.latest_settled
    × ((s.latest_ended ≡ s.latest_settled) ⊎ (s.latest_ended ≡ some (next_id s.latest_settled)))

some-injective : {a b : ℕ} → some a ≡ some b → a ≡ b
some-injective e = cc

abbrev state_of : (ended settled : Option ℕ) → EpochState
state_of ended settled = record { latest_ended = ended; latest_settled = settled }

-- What the checks say in a state.
abbrev pub IsExpecting : EpochState → Type 0
IsExpecting s =
    (settled : Bool) × (is_settled s ≡ ok settled)
    × ((settled ≡ true) ↔ (s.latest_ended ≡ s.latest_settled))
    × (expected_epoch_end_id s ≡ ok (next_id s.latest_settled, not settled))
    × (staging_epoch_id s ≡ next_id s.latest_settled + (if settled then 1 else 2))

settled_lem : (id : Option ℕ) → HasRoom id → IsExpecting (state_of id id)
unfolding expected_epoch_end_id staging_epoch_id U64.add
settled_lem none h = (true, refl, (λ _. refl, λ _. refl), refl, refl)
settled_lem (some id) h = (true, ground arith, (λ _. refl, λ _. refl), ground arith, omega arith)

ended_lem : (id : Option ℕ) → HasRoom id → IsExpecting (state_of (some (next_id id)) id)
unfolding expected_epoch_end_id staging_epoch_id U64.add
ended_lem none h = (false, refl, (λ e. cc, λ e. cc), refl, refl)
ended_lem (some id) h =
    let step : U64.add id 1 ≡ id + 1 = omega arith in
    (
      false,
      rw step (ground arith),
      (λ e. cc, λ e. absurd (omega (arith, some-injective e))),
      rw step (ground arith),
      omega arith,
    )

-- In a state where every ended epoch is settled, or all but the last one, and ids are far from 2 ^ 64,
-- both checks return, and the expected end is that of the epoch after the last settled one; it
-- needs a price exactly if that epoch has ended already. Actions are staged for the epoch after the
-- current one.
pub expected_epoch_end_id_lem : (s : EpochState) → IsInStep s → IsExpecting s
expected_epoch_end_id_lem s (room, inl e) =
    subst (λ (ended : Option ℕ). IsExpecting (state_of ended s.latest_settled)) (sym e)
      (settled_lem s.latest_settled room)
expected_epoch_end_id_lem s (room, inr e) =
    subst (λ (ended : Option ℕ). IsExpecting (state_of ended s.latest_settled)) (sym e)
      (ended_lem s.latest_settled room)
