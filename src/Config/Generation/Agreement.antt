-- ===== src/Config/Generation/Agreement.antt =====
-- Whether the peers get the same consensus configuration.
use stabilitypool.Base.{ℕ, ◌≡◌, refl, sym, ap, ◌∙◌, ◌↔◌, none, some, List}
use stabilitypool.BTreeMap
use stabilitypool.BTreeMap.{BTreeMap}
use stabilitypool.Base.I64
use stabilitypool.Clock.{Clock, IsClock}
use stabilitypool.Config.Pool.{PoolConfig, PoolConfigConsensus}
use stabilitypool.Config.Generation.{PoolConfigGenParams, start_or, deal_one, distributed_gen}

module _ (clock : Clock) (threshold : ℕ → ℕ) (params : PoolConfigGenParams clock) where
  -- The entry of a peer is what some call of the closure makes for it.
  abbrev IsDealt : List ℕ → (now : ℕ → clock.Time) → ℕ → BTreeMap PoolConfig → Type 0
  IsDealt all_peers now peer dealt =
      (n : ℕ) × (BTreeMap.get peer dealt
        ≡ some (deal_one clock threshold params all_peers peer (now n)))

module _ {clock : Clock} (law : IsClock clock) (threshold : ℕ → ℕ)
    (params : PoolConfigGenParams clock) where
  cast_lem :
      (t : clock.Time) → I64.of_u64 (I64.to_u64 (clock.unix_timestamp t)) ≡ clock.unix_timestamp t
  cast_lem t =
      I64.of_u64-to_u64 (clock.unix_timestamp t) (law.unix_timestamp-le t) (law.unix_timestamp-ge t)

  -- Without a start in the parameters, the consensus configurations that two peers of a
  -- federation make for themselves are the same exactly if their clocks stand at the same second.
  pub distributed_gen-eq_iff :
      (our_id their_id : ℕ) (peers : List ℕ) (now their_now : clock.Time)
      → params.start_epoch_at ≡ none
      → ((distributed_gen clock threshold params our_id peers now).consensus
          ≡ (distributed_gen clock threshold params their_id peers their_now).consensus)
        ↔ (clock.unix_timestamp now ≡ clock.unix_timestamp their_now)
  unfolding distributed_gen
  distributed_gen-eq_iff our_id their_id peers now their_now e =
      let reads = λ (t : clock.Time).
        let start : start_or clock threshold params t params.start_epoch_at ≡ t = rw e refl in
        start in
      (
        λ same.
            sym (ap clock.unix_timestamp (reads now))
            ∙ sym (cast_lem (start_or clock threshold params now params.start_epoch_at))
            ∙ ap (λ (c : PoolConfigConsensus). I64.of_u64 c.epoch.start_epoch_at) same
            ∙ cast_lem (start_or clock threshold params their_now params.start_epoch_at)
            ∙ ap clock.unix_timestamp (reads their_now),
        λ same. rw e (rw same refl),
      )
