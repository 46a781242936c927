-- ===== src/ServiceExamples.antt =====
-- The theorems on the configuration, the oracles, the encodings and the waiting at concrete inputs.
use Prim.Native.String.{String}
use stabilitypool.Base.{
  ℕ, zero, suc, ◌+◌, ◌-◌, ◌*◌, ◌/◌, ◌≤◌, ◌<◌, ◌≡◌, ◌≢◌, refl, IsIn, All, ◌⊎◌, inl, inr, ◌↔◌, true,
  some, List, [], ◌∷◌, ◌++◌, length, ok, arith, ltb,
}
use stabilitypool.BTreeMap
use stabilitypool.Floats.Fractions.{fractions-IsFloats}
use stabilitypool.StabilityCore.Ratio.{default_ratio, collateral_for_provider_position}
use stabilitypool.StabilityCore.DesiredExamples.{default_pool, lock_action}
use stabilitypool.StabilityCore.Protection.Threshold.{
  does_price_change_break_protection_threshold_lem,
}
use stabilitypool.StabilityCore.Protection.{
  seeker_protection_threshold, does_price_change_break_protection_threshold,
}
use stabilitypool.Oracle.{OracleClient, file_oracle}
use stabilitypool.Config.Generation.{PoolConfigGenParams, default_params, distributed_gen}
use stabilitypool.Config.Generation.Agreement.{distributed_gen-eq_iff}
use stabilitypool.Action.Types.{SeekerAction}
use stabilitypool.Action.Proposed.{SignedAction, pop_entry}
use stabilitypool.Action.Encoding.{
  encode_action, decode_action, encode_signed_action, decode_signed_action, verify_signature,
}
use stabilitypool.Action.Encoding.RoundTrip.{
  Codec, IsAction, action_bytes, decode-encode_signed_action, verify_signature_lem,
}
use stabilitypool.ClockExamples.{nano_clock, nano_clock-IsClock}
use stabilitypool.Base.I64
use stabilitypool.Base.U64
use stabilitypool.Config
use stabilitypool.Config.{Oracle, epoch_id_for_time, epoch_start_time, price_at_epoch_start}
use stabilitypool.BackOff as BackOffs
use stabilitypool.BackOff.{BackOff, default_back_off, earliest_retry, delay}
use stabilitypool.Pool.Service.{
  StabilityPool, Round, Items, await_consensus_proposal, consensus_proposal,
}
use stabilitypool.Pool.Service.Waiting.{IsAnswering, IsFirst, await_consensus_proposal_lem}
use stabilitypool.Examples.{schnorr, proposed}
use stabilitypool.Pool.Items.{IsSound}
use stabilitypool.Pool.Service.Contributing.{IsWelcome, HasAll, consensus_proposal-IsSound}
use stabilitypool.Action.Proposed
use stabilitypool.Action.Process as ActionProcess
use stabilitypool.Epoch.Types.{applied}
use stabilitypool.Epoch.State.{staging_epoch_id}
use stabilitypool.Api.{propose_action, most_recent, propose_after}
use stabilitypool.Api.Acceptance.{propose_action-process_consensus_item}
use stabilitypool.Db.{Database}
use stabilitypool.Db.Example.{map_store, map_store-IsStore, empty_database}

does_price_change_break_protection_threshold_example :
    (collateral : ℕ) × (collateral_for_provider_position default_ratio 2 ≡ ok collateral)
    × ((2 + collateral) * 2_000 < 2 * 5_000 + 2_000)
unfolding does_price_change_break_protection_threshold seeker_protection_threshold
does_price_change_break_protection_threshold_example =
    does_price_change_break_protection_threshold_lem fractions-IsFloats default_ratio
      default_pool.valid 5_000 2_000 2 (omega arith) (omega arith) (omega arith) (omega arith)
      (omega arith) (omega arith) refl

-- More than two thirds of the peers.
abbrev two_thirds : ℕ → ℕ
two_thirds n = n - (n - 1) / 3

abbrev started : PoolConfigGenParams nano_clock
started = record default_params { start_epoch_at = some 7_000_000_000 }

distributed_gen-eq_iff_example :
    ((distributed_gen nano_clock two_thirds default_params 1 (1 ∷ 2 ∷ []) 1_000_000_000).consensus
      ≡ (distributed_gen nano_clock two_thirds default_params 2
          (1 ∷ 2 ∷ [])
          3_000_000_000).consensus)
    ↔ (nano_clock.unix_timestamp 1_000_000_000 ≡ nano_clock.unix_timestamp 3_000_000_000)
distributed_gen-eq_iff_example =
    distributed_gen-eq_iff nano_clock-IsClock two_thirds default_params 1 2 (1 ∷ 2 ∷ [])
      1_000_000_000 3_000_000_000 refl

take_number : List ℕ → Unit {0} ⊎ (ℕ × List ℕ)
take_number [] = inl tt
take_number (n ∷ rest) = inr (n, rest)

take_number_lem : (n : ℕ) (rest : List ℕ) → take_number ((n ∷ []) ++ rest) ≡ inr (n, rest)
unfolding take_number
take_number_lem n rest = refl

-- A number as one byte, and an action as two.
abbrev number_codec : Codec (Unit {0}) ℕ
number_codec = record {
  encode = λ n w. inr (1, w ++ (n ∷ []));
  decode = take_number;
  bytes = λ n. n ∷ [];
  IsValue = λ n. n < 256;
  encode-eq = λ n w h. refl;
  decode-eq = λ n rest h. take_number_lem n rest;
}

action_bytes_of : SeekerAction → List ℕ
action_bytes_of (SeekerAction.lock n) = 0 ∷ n ∷ []
action_bytes_of (SeekerAction.unlock n) = 1 ∷ n ∷ []

take_action : List ℕ → Unit {0} ⊎ (SeekerAction × List ℕ)
take_action (zero ∷ n ∷ rest) = inr (SeekerAction.lock n, rest)
take_action (suc _ ∷ n ∷ rest) = inr (SeekerAction.unlock n, rest)
take_action _ = inl tt

take_action_lem :
    (a : SeekerAction) (rest : List ℕ) → take_action (action_bytes_of a ++ rest) ≡ inr (a, rest)
unfolding take_action action_bytes_of
take_action_lem (SeekerAction.lock n) rest = refl
take_action_lem (SeekerAction.unlock n) rest = refl

length_of : (a : SeekerAction) → length (action_bytes_of a) ≡ 2
unfolding action_bytes_of
length_of (SeekerAction.lock n) = refl
length_of (SeekerAction.unlock n) = refl

abbrev action_codec : Codec (Unit {0}) SeekerAction
action_codec = record {
  encode = λ a w. inr (length (action_bytes_of a), w ++ action_bytes_of a);
  decode = take_action;
  bytes = action_bytes_of;
  IsValue = λ a. Unit;
  encode-eq = λ a w h. refl;
  decode-eq = λ a rest h. take_action_lem a rest;
}

lock_action-IsAction : IsAction number_codec number_codec action_codec lock_action
lock_action-IsAction = record {
  epoch_id = omega arith;
  sequence = omega arith;
  account_id = omega arith;
  body_value = tt;
  fits = omega (arith, length_of lock_action.body);
}

abbrev signed : SignedAction ℕ SeekerAction
signed = record { action = lock_action; signature = 5 }

decode-encode_signed_action_example :
    (bytes : List ℕ) × ((w : List ℕ)
      → encode_signed_action
          (encode_action number_codec.encode number_codec.encode action_codec.encode)
          number_codec.encode
          signed
          w
        ≡ inr (length bytes, w ++ bytes))
    × ((rest : List ℕ)
        → decode_signed_action
            (decode_action number_codec.decode number_codec.decode action_codec.decode)
            number_codec.decode
            (bytes ++ rest)
          ≡ inr (signed, rest))
unfolding action_bytes_of
decode-encode_signed_action_example =
    decode-encode_signed_action number_codec number_codec action_codec number_codec signed
      lock_action-IsAction (omega arith) (omega (arith, length_of lock_action.body))

verify_signature_example :
    let of = action_bytes number_codec number_codec action_codec in
    (verify_signature
        (encode_action number_codec.encode number_codec.encode action_codec.encode)
        (λ (bytes : List ℕ). length bytes)
        (λ (s : ℕ) (hash : ℕ) (key : ℕ). ltb s hash)
        signed
      ≡ ok (ltb 5 (length (of lock_action))))
    × ((of lock_action ≡ of lock_action) ↔ (lock_action ≡ lock_action))
verify_signature_example =
    verify_signature_lem number_codec number_codec action_codec (λ (bytes : List ℕ). length bytes)
      (λ (s : ℕ) (hash : ℕ) (key : ℕ). ltb s hash) signed lock_action lock_action-IsAction
      lock_action-IsAction

abbrev a_pool : StabilityPool schnorr String
a_pool = record {
  cfg = distributed_gen nano_clock two_thirds started 0 (0 ∷ 1 ∷ 2 ∷ []) 0;
  oracle = file_oracle "price";
  backoff = default_back_off;
  proposed_db = [];
}

-- Epoch 1 is settled. The first round is before the start of the epochs, the later ones are in epoch 3.
abbrev settled_database : Database map_store
settled_database = record empty_database { last_epoch_ended = some 1; last_epoch_settled = some 1 }

abbrev round : ℕ → Round schnorr String map_store nano_clock
round zero = record { now = 5_000_000_000; pool = a_pool; db = settled_database }
round (suc n) = record { now = 90_000_000_000; pool = a_pool; db = settled_database }

round-IsAnswering : (n : ℕ) → IsAnswering schnorr String map_store nano_clock (round n)
unfolding BackOffs.can_retry earliest_retry delay epoch_id_for_time Config.start_epoch_at U64.add
    distributed_gen I64.of_u64 I64.to_u64
round-IsAnswering zero = record {
  step = (omega arith, inl refl);
  retry = true;
  tried = refl;
  id = 0;
  dated = refl;
}
round-IsAnswering (suc n) = record {
  step = (omega arith, inl refl);
  retry = true;
  tried = refl;
  id = 3;
  dated = refl;
}

await_consensus_proposal_example :
    (j : ℕ) × (j ≤ 1)
    × (await_consensus_proposal schnorr String map_store nano_clock 4 0 round ≡ ok (some j))
    × IsFirst schnorr String map_store nano_clock round round-IsAnswering 0 j
unfolding round-IsAnswering
await_consensus_proposal_example =
    await_consensus_proposal_lem schnorr String map_store nano_clock round round-IsAnswering 4 1
      (omega arith) (inr (refl, refl))

abbrev fixed_price : OracleClient String → Oracle nano_clock
fixed_price oracle time = some 15_000

consensus_proposal_example :
    (backoff : BackOff) × (items : Items schnorr String map_store nano_clock) × (consensus_proposal
        schnorr String map_store nano_clock fixed_price
        (round 1)
      ≡ ok (record a_pool { backoff = backoff }, items))
    × (items ≢ [])
    × All IsSound items
    × All (IsWelcome schnorr String map_store nano_clock fixed_price (round 1) 15_000) items
    × HasAll schnorr String map_store nano_clock fixed_price (round 1) items
unfolding round-IsAnswering price_at_epoch_start epoch_start_time Config.start_epoch_at U64.add
    U64.mul distributed_gen I64.of_u64 I64.to_u64
consensus_proposal_example =
    consensus_proposal-IsSound schnorr String map_store nano_clock fixed_price (round 1)
      (round-IsAnswering 1) 15_000 refl (omega arith, omega arith) tt (inr (refl, refl))

propose_action-process_consensus_item_example :
    let proposals = Proposed.insert schnorr proposed [] in
    IsIn proposed (ActionProcess.consensus_proposal map_store schnorr (empty_database, proposals))
    × (db' : Database map_store) × (ActionProcess.process_consensus_item map_store schnorr proposed
          (empty_database, proposals)
        ≡ ok ((db', pop_entry schnorr proposed proposals), applied))
    × (map_store.get_value 7 db'.actions_staged ≡ some (Proposed.staged proposed))
unfolding propose_action BTreeMap.get U64.add most_recent propose_after Proposed.get
    staging_epoch_id
propose_action-process_consensus_item_example =
    propose_action-process_consensus_item map_store-IsStore schnorr empty_database [] proposed
      (Proposed.insert schnorr proposed []) (tt, inl refl) refl refl tt refl
