-- ===== src/Action/Staged.antt =====
-- action.rs, `impl ActionStaged`: the accessors of a staged action.
use stabilitypool.Base.{ℕ}
use stabilitypool.Action.Types.{ActionStaged, seeker, provider}

abbrev pub epoch_id : ActionStaged → ℕ
epoch_id (seeker a) = a.epoch_id
epoch_id (provider a) = a.epoch_id

abbrev pub sequence : ActionStaged → ℕ
sequence (seeker a) = a.sequence
sequence (provider a) = a.sequence

abbrev pub account_id : ActionStaged → ℕ
account_id (seeker a) = a.account_id
account_id (provider a) = a.account_id
