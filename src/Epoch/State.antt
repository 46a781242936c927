-- ===== src/Epoch/State.antt =====
-- epoch.rs, `EpochState`: which epoch has ended last and which is settled. `Option<u64>` is ordered
-- with `None` first.
pub mod Progress
use stabilitypool.Base.{
  ℕ, Bool, true, false, Option, none, some, Exec, ok, panic, ◌>>=◌, expect, unexpected_epoch_state,
  no_ended_epoch, ltb, ◌==◌, if◌then◌else◌,
}
use stabilitypool.Base.U64

pub record EpochState : Type 0 where
  pub latest_ended : Option ℕ
  pub latest_settled : Option ℕ

abbrev pub option_eq : Option ℕ → Option ℕ → Bool
option_eq none none = true
option_eq (some a) (some b) = a == b
option_eq _ _ = false

abbrev pub option_lt : Option ℕ → Option ℕ → Bool
option_lt none (some b) = true
option_lt (some a) (some b) = ltb a b
option_lt _ none = false

-- `map_or(0, |id| id + 1)`
abbrev pub next_id : Option ℕ → ℕ
next_id none = 0
next_id (some id) = U64.add id 1

unfoldable pub current_epoch_id : EpochState → ℕ
current_epoch_id s = next_id s.latest_ended

unfoldable pub staging_epoch_id : EpochState → ℕ
unfolding current_epoch_id
staging_epoch_id s = U64.add (current_epoch_id s) 1

unfoldable pub is_settled : EpochState → Exec Bool
is_settled s =
    if option_eq s.latest_settled s.latest_ended
    then ok true
    else if option_lt s.latest_settled s.latest_ended
    then ok false
    else panic unexpected_epoch_state

-- The expected id, and whether a price is needed.
unfoldable pub expected_epoch_end_id : EpochState → Exec (ℕ × Bool)
unfolding is_settled
expected_epoch_end_id s = do
  settled ← is_settled s
  if settled
      then ok (next_id s.latest_ended, false)
      else (expect s.latest_ended no_ended_epoch >>= λ id. ok (id, true))
