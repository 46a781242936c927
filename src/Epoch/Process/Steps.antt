-- ===== src/Epoch/Process/Steps.antt =====
-- What `process_consensus_item` of epoch.rs does with an end of an epoch, up to the settlement.
use stabilitypool.Base.{
  ℕ, ◌≤◌, ◌<◌, ◌≡◌, ◌≢◌, refl, ap, ◌∙◌, ◌⊎◌, inl, inr, Bool, true, false, ◌&&◌, not, Option, none,
  some, List, Exec, ok, ◌>>=◌, arith, ltb, Bool-cases, Option-cases,
}
use stabilitypool.Epoch.Types.{
  EpochEnd, EpochConfig, Reason, ConsensusItemOutcome, applied, ignored, banned,
}
use stabilitypool.Epoch.State.{next_id, is_settled}
use stabilitypool.Epoch.State.Progress.{IsInStep, expected_epoch_end_id_lem}
use stabilitypool.Epoch.Process.{
  check_previous, check_requirements, count_ended, from_db, settle_epoch, try_settle, accept_end,
  end_epoch, process_consensus_item, is_none,
}
use stabilitypool.Epoch.Process.Tally.{votes, agreed_price-price_tally}
use stabilitypool.Db.{Store, Database}

module _ (st : Store) (config : EpochConfig) (peer : ℕ) (e : EpochEnd) (db : Database st) where
  -- The epoch after the last settled one.
  abbrev pub expected : ℕ
  expected = next_id db.last_epoch_settled

  -- The stored ends with the new one.
  abbrev pub ends : List (ℕ × EpochEnd)
  ends = st.find_by_prefix (st.insert_entry peer e db.epoch_ends)

  -- The database with the new end.
  abbrev pub recorded : Option ℕ → Database st
  recorded ended = record db {
    epoch_ends = st.insert_entry peer e db.epoch_ends;
    last_epoch_ended = ended;
  }

  -- The expected epoch has ended: it had before, or enough peers have ended it now.
  abbrev pub HasEnded : Type 0
  HasEnded =
      (db.last_epoch_ended ≢ db.last_epoch_settled)
      ⊎ (config.price_threshold ≤ count_ended expected ends)

  -- The expected epoch goes on: it had not ended, and too few peers have ended it.
  abbrev pub IsGoingOn : Type 0
  IsGoingOn =
      (db.last_epoch_ended ≡ db.last_epoch_settled)
      × (count_ended expected ends < config.price_threshold)

  -- The last ended epoch stays if the expected epoch goes on, and is the expected one if it has ended.
  abbrev pub IsEndedBy : Option ℕ → Type 0
  IsEndedBy ended =
      (IsGoingOn × (ended ≡ db.last_epoch_ended)) ⊎ (HasEnded × (ended ≡ some expected))

  abbrev pub Result : Type 0
  Result = Exec (Database st × ConsensusItemOutcome)

  -- Nothing but the end is stored: the epoch goes on, or no price is named often enough.
  abbrev pub IsWaiting : Result → Option ℕ → Type 0
  IsWaiting result ended =
      (result ≡ ok (recorded ended, applied))
      × (IsGoingOn ⊎ ((p : ℕ) → votes p ends < config.price_threshold))

  -- The epoch is settled at a price that is named often enough.
  abbrev pub IsSettling : Result → Option ℕ → Type 0
  IsSettling result ended =
      HasEnded
      × (p : ℕ) × (config.price_threshold ≤ votes p ends)
      × (result ≡ (settle_epoch st config expected p (recorded ended) >>= λ d. ok (d, applied)))

  abbrev pub IsStep : Result → Type 0
  IsStep result =
      (ended : Option ℕ) × IsInStep (from_db st (recorded ended))
      × IsEndedBy ended
      × (IsWaiting result ended ⊎ IsSettling result ended)

  try_settle_lem :
      (ended : Option ℕ)
      → 0 < config.price_threshold
      → HasEnded
      → let result = try_settle st config expected (recorded ended) in
        IsWaiting result ended ⊎ IsSettling result ended
  unfolding try_settle
  try_settle_lem ended h has = elim (agreed_price-price_tally config.price_threshold ends h) [
    | inl (p, agreed, enough) ↦ inr (has, p, enough, rw (try_settle, agreed) refl)
    | inr (agreed, few) ↦ inl (rw (try_settle, agreed) refl, inr few)
  ]

  accept_end_lem :
      IsInStep (from_db st db)
      → 0 < config.price_threshold
      → IsStep (accept_end st config peer expected e db)
  unfolding accept_end
  accept_end_lem (room, place) h =
      let (settled, checked, iff, _, _) = expected_epoch_end_id_lem (from_db st db) (room, place) in
      elim (Bool-cases settled) [
        | inl is ↦
            let same : db.last_epoch_ended ≡ db.last_epoch_settled = iff.0 is in
            let checked' : is_settled (from_db st db) ≡ ok true = rw is at checked in
            elim (Bool-cases (ltb (count_ended expected ends) config.price_threshold)) [
              | inl few ↦ (
                db.last_epoch_ended,
                (room, inl same),
                inl ((same, ground arith), refl),
                inl (rw (accept_end, checked') (rw few refl), inl (same, ground arith)),
              )
              | inr enough ↦
                  let has : HasEnded = inr (ground arith) in
                  (
                    some expected,
                    (room, inr refl),
                    inr (has, refl),
                    rw (accept_end, checked') (rw enough (try_settle_lem (some expected) h has)),
                  )
            ]
        | inr not_yet ↦
            let checked' : is_settled (from_db st db) ≡ ok false = rw not_yet at checked in
            let last : db.last_epoch_ended ≡ some expected = elim place [
              | inl same ↦ absurd (cc (iff.1 same))
              | inr last ↦ last
            ] in
            let has : HasEnded = inl (λ same. cc (iff.1 same)) in
            (
              db.last_epoch_ended,
              (room, place),
              inr (has, last),
              rw (accept_end, checked') (try_settle_lem db.last_epoch_ended h has),
            )
      ]

  -- The item is refused and nothing changes.
  abbrev pub IsRefused : Result → Type 0
  IsRefused result =
      (outcome : ConsensusItemOutcome) × (outcome ≢ applied) × (result ≡ ok (db, outcome))

  check_previous-ne : (prev : Option EpochEnd) → check_previous prev e ≢ some applied
  unfolding check_previous
  check_previous-ne none h = cc
  check_previous-ne (some prev) h = elim (Bool-cases (ltb e.epoch_id prev.epoch_id)) [
    | inl back ↦ cc (rw (check_previous, back) at h)
    | inr _ ↦ ground arith
  ]

  check_requirements_lem :
      (n : ℕ) (needs : Bool)
      → ((outcome : ConsensusItemOutcome) × (outcome ≢ applied)
          × (check_requirements (n, needs) e ≡ some outcome))
        ⊎ ((check_requirements (n, needs) e ≡ none)
            × (e.epoch_id ≡ n)
            × ((needs ≡ true) → e.price ≢ none))
  unfolding check_requirements
  check_requirements_lem n needs = elim (Bool-cases (ltb n e.epoch_id)) [
    | inl skipped ↦ inl (banned Reason.skipped_epoch, (λ k. cc), rw skipped refl)
    | inr in_reach ↦ elim (Bool-cases (ltb e.epoch_id n)) [
      | inl old ↦ inl (ignored Reason.not_the_epoch, (λ k. cc), rw (in_reach, old) refl)
      | inr new ↦ elim (Bool-cases (needs && is_none e.price)) [
        | inl missing ↦
            inl (ignored Reason.price_required, (λ k. cc), rw (in_reach, new, missing) refl)
        | inr there ↦
            inr (rw (in_reach, new, there) refl, ground arith, λ is_needed absent. ground arith)
      ]
    ]
  ]

  -- In a state where every ended epoch is settled, or all but the last one, and with a threshold
  -- that is not 0, an item is refused and changes nothing, or it is for the epoch after the last
  -- settled one, with a price if that epoch had ended, and it is stored. That epoch is recorded as
  -- the last ended one exactly if it had ended before or at least the threshold of the stored ends
  -- are for it; otherwise the last ended epoch stays. If the epoch has ended and at least the
  -- threshold of the stored ends name one price, its settlement is run at such a price; if it goes
  -- on or no price is named so often, the end and the last ended epoch are all that is stored.
  pub process_consensus_item_lem :
      IsInStep (from_db st db)
      → 0 < config.price_threshold
      → let result = process_consensus_item st config peer e db in
        IsRefused result
        ⊎ ((e.epoch_id ≡ expected)
            × ((db.last_epoch_ended ≡ db.last_epoch_settled) ⊎ (e.price ≢ none))
            × IsStep result)
  unfolding process_consensus_item end_epoch
  process_consensus_item_lem step h =
      let (settled, checked, iff, wanted, _) = expected_epoch_end_id_lem (from_db st db) step in
      elim (Option-cases (check_previous (st.get_value peer db.epoch_ends) e)) [
        | inr (outcome, refused) ↦ inl (
          outcome,
          λ k. check_previous-ne (st.get_value peer db.epoch_ends) (refused ∙ ap some k),
          rw (process_consensus_item, refused) refl,
        )
        | inl passed ↦ elim (check_requirements_lem expected (not settled)) [
          | inl (outcome, ne, refused) ↦ inl (
            outcome,
            ne,
            rw (process_consensus_item, passed) (rw wanted (rw (end_epoch, refused) refl)),
          )
          | inr (fine, same, needs) ↦ inr (
            same,
            elim (Bool-cases settled) [
              | inl is ↦ inl (iff.0 is)
              | inr not_yet ↦ inr (needs (ap not not_yet))
            ],
            rw (process_consensus_item, passed)
                (rw wanted (rw (end_epoch, fine) (accept_end_lem step h))),
          )
        ]
      ]
