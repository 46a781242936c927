-- ===== src/Examples.antt =====
-- The theorems on accounts, epochs, actions and the pool at concrete inputs.
use stabilitypool.Base.{
  ℕ, ◌+◌, ◌-◌, ◌^◌, ◌≤◌, ◌<◌, ◌≡◌, ◌≢◌, refl, ◌⊎◌, inl, inr, true, false, Option, none, some, List,
  [], ◌∷◌, ok, arith,
}
use stabilitypool.BTreeMap
use stabilitypool.BTreeMap.{BTreeMap}
use stabilitypool.Account.{AccountBalance, LockedBalance, AccountDeposit, AccountWithdrawal}
use stabilitypool.Action.Proposed.{ActionProposed, ActionProposedDb, Schnorr, pop_entry}
use stabilitypool.Action.Process as ActionProcess
use stabilitypool.Action.Process.Staging.{
  IsAcceptable, IsStagedBy, process_consensus_item-IsStagedBy,
}
use stabilitypool.StabilityCore.Ratio.{default_ratio}
use stabilitypool.StabilityCore.DesiredExamples.{lock_action}
use stabilitypool.Epoch.Types.{EpochEnd, EpochConfig, ConsensusItemOutcome, applied}
use stabilitypool.Epoch.State.{EpochState}
use stabilitypool.Epoch.Process as EpochProcess
use stabilitypool.Epoch.Process.{price_tally, agreed_price}
use stabilitypool.Epoch.Process.Tally.{votes, agreed_price-price_tally}
use stabilitypool.Epoch.Process.Steps.{expected, IsRefused, IsStep, process_consensus_item_lem}
use stabilitypool.Db.{Database}
use stabilitypool.Db.Example.{map_store, map_store-IsStore, empty_database}
use stabilitypool.Pool.{
  InputMeta, TransactionItemAmount, unavaliable_funds, deposit_too_large, or_default, apply_input,
  apply_output, output_status,
}
use stabilitypool.Pool.Funds.{whole, funds, IsUntouched, apply_input_lem}
use stabilitypool.Pool.Deposits.{apply_output_lem, apply_input-apply_output}

abbrev pub an_account : AccountBalance
an_account = record { unlocked = 10; locked = LockedBalance.seeker 5 }

abbrev unsettled_state : EpochState
unsettled_state = record { latest_ended = some 4; latest_settled = some 3 }

abbrev some_ends : List (ℕ × EpochEnd)
some_ends =
    (0, record { price = some 15_000; epoch_id = 4 })
    ∷ (1, record { price = none; epoch_id = 4 })
    ∷ (2, record { price = some 15_000; epoch_id = 4 })
    ∷ []

agreed_price_example :
    let agreed = agreed_price 2 (price_tally some_ends []) in
    ((p : ℕ) × (agreed ≡ some p) × (2 ≤ votes p some_ends))
    ⊎ ((agreed ≡ none) × ((p : ℕ) → votes p some_ends < 2))
agreed_price_example = agreed_price-price_tally 2 some_ends (omega arith)

abbrev pub config : EpochConfig
config = record {
  start_epoch_at = 0;
  epoch_length = 60;
  price_threshold = 1;
  max_feerate_ppm = 200_000;
  collateral_ratio = default_ratio;
}

abbrev pub first_end : EpochEnd
first_end = record { price = some 15_000; epoch_id = 0 }

epoch_process_example :
    let result = EpochProcess.process_consensus_item map_store config 2 first_end empty_database in
    IsRefused map_store config 2 first_end empty_database result
    ⊎ ((first_end.epoch_id ≡ expected map_store config 2 first_end empty_database)
        × ((◌≡◌ {A = Option ℕ} none none) ⊎ (first_end.price ≢ none))
        × IsStep map_store config 2 first_end empty_database result)
epoch_process_example =
    process_consensus_item_lem map_store config 2 first_end empty_database (tt, inl refl)
      (omega arith)

abbrev pub schnorr : Schnorr
schnorr = record {
  Signature = ℕ;
  verify_seeker = λ a. true;
  verify_provider = λ a. false;
  equals = λ a b. true;
}

abbrev pub proposed : ActionProposed ℕ
proposed = ActionProposed.seeker (record { action = lock_action; signature = 0 })

action_process_example :
    (db' : Database map_store) × (proposals' : ActionProposedDb schnorr)
    × (outcome : ConsensusItemOutcome) × (ActionProcess.process_consensus_item map_store schnorr
          proposed
          (empty_database, [])
        ≡ ok ((db', proposals'), outcome))
    × (((outcome ≢ applied) × (db' ≡ empty_database))
        ⊎ ((outcome ≡ applied)
            × IsAcceptable map_store-IsStore schnorr proposed empty_database []
            × IsStagedBy map_store-IsStore schnorr proposed empty_database [] db'))
    × ((proposals' ≡ pop_entry schnorr proposed [])
        ⊎ ((proposals' ≡ []) × (◌≢◌ {A = Option ℕ} none none)))
unfolding BTreeMap.get
action_process_example =
    process_consensus_item-IsStagedBy map_store-IsStore schnorr proposed empty_database []
      (tt, inl refl) tt

abbrev one_account : Database map_store
one_account = record empty_database { accounts = ((7, an_account) ∷ [], (tt, tt)) }

abbrev withdrawal : AccountWithdrawal
withdrawal = record { account = 7; amount = 4 }

apply_input_example :
    let db = one_account in
    let old = or_default (map_store.get_value 7 db.accounts) in
    ((old.unlocked < 4)
      × (apply_input map_store withdrawal db ≡ ok (inl (unavaliable_funds 4 old.unlocked))))
    ⊎ ((4 ≤ old.unlocked)
        × (meta : InputMeta) × (db' : Database map_store) × (apply_input map_store withdrawal db
            ≡ ok (inr (meta, db')))
        × (meta.amount.amount ≡ 4)
        × (meta.amount.fee ≡ 0)
        × (db' ≡ record db { accounts = db'.accounts })
        × (map_store.get_value 7 db'.accounts ≡ some (record old { unlocked = old.unlocked - 4 }))
        × IsUntouched map_store-IsStore 7 db db'
        × (funds map_store-IsStore db' + 4 ≡ funds map_store-IsStore db))
apply_input_example = apply_input_lem map_store-IsStore withdrawal one_account

abbrev pub deposit : AccountDeposit
deposit = record { account = 7; amount = 20 }

apply_output_example :
    let db = one_account in
    let old = or_default (map_store.get_value 7 db.accounts) in
    ((2 ^ 64 ≤ whole old + 20)
      × (apply_output map_store deposit 99 db ≡ ok (inl deposit_too_large)))
    ⊎ ((whole old + 20 < 2 ^ 64)
        × (paid : TransactionItemAmount) × (db' : Database map_store) × (apply_output map_store
              deposit 99 db
            ≡ ok (inr (paid, db')))
        × (paid.amount ≡ 20)
        × (paid.fee ≡ 0)
        × (map_store.get_value 7 db'.accounts ≡ some (record old { unlocked = old.unlocked + 20 }))
        × IsUntouched map_store-IsStore 7 db db'
        × (output_status map_store 99 db' ≡ some 7)
        × (funds map_store-IsStore db' ≡ funds map_store-IsStore db + 20))
unfolding BTreeMap.get
apply_output_example = apply_output_lem map_store-IsStore deposit 99 one_account (omega arith) refl

apply_input-apply_output_example :
    let db = one_account in
    (paid : TransactionItemAmount) × (meta : InputMeta) × (db' db'' : Database map_store)
    × (apply_output map_store deposit 99 db ≡ ok (inr (paid, db')))
    × (apply_input map_store (record { account = 7; amount = 20 }) db' ≡ ok (inr (meta, db'')))
    × (meta.amount.amount ≡ paid.amount)
    × (or_default (map_store.get_value 7 db''.accounts)
        ≡ or_default (map_store.get_value 7 db.accounts))
    × (funds map_store-IsStore db'' ≡ funds map_store-IsStore db)
unfolding BTreeMap.get
apply_input-apply_output_example =
    apply_input-apply_output map_store-IsStore deposit 99 one_account (omega arith) refl
      (omega arith)
