-- ===== src/Account/Bounds.antt =====
-- The overflow checks of account.rs decide what they are meant to.
use stabilitypool.Base.{ℕ, ◌+◌, ◌^◌, ◌<◌, ◌≡◌, ◌↔◌, true, arith}
use stabilitypool.Account.{AccountBalance, locked_amount, can_add_amount}

-- An amount can be added exactly if the whole balance with it stays below 2 ^ 64.
pub can_add_amount_iff :
    (account : AccountBalance) (amount : ℕ)
    → (can_add_amount account amount ≡ true)
      ↔ (account.unlocked + locked_amount account.locked + amount < 2 ^ 64)
unfolding can_add_amount
can_add_amount_iff account amount = ground arith
