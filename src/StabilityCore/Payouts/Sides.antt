-- ===== src/StabilityCore/Payouts/Sides.antt =====
-- `calculate_payouts` on entries of which one side, or both, may be empty.
use stabilitypool.Base.{
  ℕ, ◌+◌, ◌^◌, ◌<◌, ◌≡◌, refl, ◌∙◌, ◌⊎◌, inl, inr, [], ◌∷◌, ok, All, arith, leb, ◌==◌, Bool-cases,
  ==_refl,
}
use stabilitypool.Base.U64
use stabilitypool.BTreeMap
use stabilitypool.BTreeMap.{BTreeMap, IsSorted}
use stabilitypool.BTreeMap.Totals.{total}
use stabilitypool.StabilityCore.Feerate.{EpochFeerate, seeker_fee, seeker_position}
use stabilitypool.StabilityCore.Feerate.Fees.{seeker_fee-le}
use stabilitypool.StabilityCore.Pnl.Bounds.{short_payout_lem, worth}
use stabilitypool.StabilityCore.Payouts.{
  seeker_total, pay_each, bump_each, share_out, calculate_payouts,
}
use stabilitypool.StabilityCore.Payouts.Shares.{IsShared, share_out-IsPaidOut}
use stabilitypool.StabilityCore.Payouts.Conservation.{
  IsEpoch, calculate_payouts_conserves, sum_from-values,
}

-- The entries as the settlement collects them: in order, none of them 0, less than 2 ^ 63 in all and
-- no seeker without a provider.
pub record AreEntries (feerate : EpochFeerate) (seekers providers : BTreeMap ℕ) : Type 0 where
  pub feerate_lt : feerate < 2 ^ 64
  pub seekers_sorted : IsSorted seekers
  pub providers_sorted : IsSorted providers
  pub seekers_filled : All (λ e. 0 < e.1) seekers
  pub providers_filled : All (λ e. 0 < e.1) providers
  pub pool_lt : total seekers + total providers < 2 ^ 63
  pub backed_up : (total seekers ≡ 0) ⊎ (0 < total providers)

-- The payouts go to the accounts of the entries.
abbrev pub IsPaidTo : (entries payouts : BTreeMap ℕ) → Type 0
IsPaidTo [] [] = Unit
IsPaidTo ((k, _) ∷ es) ((j, _) ∷ ps) = (j ≡ k) × IsPaidTo es ps
IsPaidTo _ _ = ⊥

IsShared-IsPaidTo : (t l : ℕ) (es ps : BTreeMap ℕ) → IsShared t l es ps → IsPaidTo es ps
IsShared-IsPaidTo t l [] [] h = tt
IsShared-IsPaidTo t l [] (p ∷ ps) h = absurd h
IsShared-IsPaidTo t l (e ∷ es) [] h = absurd h
IsShared-IsPaidTo t l (e ∷ es) (p ∷ ps) (same, _, _, h) = (same, IsShared-IsPaidTo t l es ps h)

no_entries : (m : BTreeMap ℕ) → All (λ e. 0 < e.1) m → total m ≡ 0 → m ≡ []
no_entries [] h e = refl
no_entries (x ∷ m) h e = absurd (omega (arith, h.0))

share_out_none : share_out 0 0 [] ≡ ok []
unfolding share_out pay_each bump_each
share_out_none = refl

-- Any sum over no entries is 0.
seeker_total_none :
    (f : EpochFeerate) (pooled start end : ℕ)
    → f < 2 ^ 64
    → pooled < 2 ^ 63
    → start < 2 ^ 64
    → 0 < end
    → end < 2 ^ 64
    → seeker_total f 0 pooled start end ≡ 0
unfolding seeker_total seeker_position
seeker_total_none f pooled start end hf hp hs he h =
    let fee : seeker_fee f 0 ≡ 0 = omega (arith, seeker_fee-le f 0 hf (omega arith)) in
    let worthless : worth 0 start end ≡ 0 = elim (Bool-cases (leb start end)) [
      | inl up ↦ rw up (omega arith)
      | inr down ↦ rw down (omega arith)
    ] in
    let empty : U64.sub 0 0 ≡ 0 = U64.sub_lem 0 0 (omega arith) (omega arith) in
    rw (fee, empty) (omega (arith, short_payout_lem 0 start end (omega arith) hs he h, worthless))

-- What one side gets back of all that it locked, also if that is nothing.
share_side :
    (ps : BTreeMap ℕ)
    → IsSorted ps
    → All (λ e. 0 < e.1) ps
    → total ps < 2 ^ 63
    → (pp : BTreeMap ℕ) × (share_out (total ps) (total ps) ps ≡ ok pp)
      × (total pp ≡ total ps)
      × IsPaidTo ps pp
share_side [] s a h = ([], share_out_none, refl, tt)
share_side (p ∷ ps) s a h =
    let (pp, paid, (all, shared)) =
      share_out-IsPaidOut (total (p ∷ ps)) (p ∷ ps) s (omega (arith, a.0)) (omega arith)
        (omega arith) in
    (pp, paid, all, IsShared-IsPaidTo (total (p ∷ ps)) (total (p ∷ ps)) (p ∷ ps) pp shared)

-- With no seeker the providers get back what they locked.
providers_only :
    (f : EpochFeerate) (ps : BTreeMap ℕ) (start end : ℕ)
    → f < 2 ^ 64
    → IsSorted ps
    → All (λ e. 0 < e.1) ps
    → total ps < 2 ^ 63
    → start < 2 ^ 64
    → 0 < end
    → end < 2 ^ 64
    → (pp : BTreeMap ℕ) × (calculate_payouts f [] ps start end ≡ ok ([], pp))
      × (total pp ≡ total ps)
      × IsPaidTo ps pp
unfolding calculate_payouts
providers_only f ps start end hf s a lt hs he h =
    let (pp, paid, all, to) = share_side ps s a lt in
    let none_in : U64.sum_from 0 (BTreeMap.values {V = ℕ} []) ≡ 0 =
      sum_from-values [] (omega arith) in
    let pooled : U64.add (total ps) 0 ≡ total ps =
      U64.add_lem (total ps) 0 (omega arith) ∙ omega arith in
    let rest : U64.sub (total ps) 0 ≡ total ps =
      U64.sub_lem (total ps) 0 (omega arith) (omega arith) ∙ omega arith in
    let due : seeker_total f 0 (total ps) start end ≡ 0 =
      seeker_total_none f (total ps) start end hf lt hs he h in
    let final : U64.add 0 (total pp) ≡ total ps =
      U64.add_lem 0 (total pp) (omega (arith, all)) ∙ omega (arith, all) in
    (
      pp,
      rw (sum_from-values ps (omega arith), none_in, pooled)
          (rw (due, rest, paid, share_out_none)
            (rw (sum_from-values pp (omega (arith, all)), none_in, final, ==_refl (total ps)))),
      all,
      to,
    )

module _ {f : EpochFeerate} {ss ps : BTreeMap ℕ} (entries : AreEntries f ss ps)
    (start end : ℕ) where
  -- For entries of both sides in the order of their accounts, none of them 0, less than 2 ^ 63 in all
  -- and with no seeker unless there is a provider, a `u64` feerate, and two `u64` prices, the end
  -- price not 0, the payouts are computed with no panic, go to the accounts of the entries and add up
  -- to what was locked.
  pub calculate_payouts_returns :
      start < 2 ^ 64
      → 0 < end
      → end < 2 ^ 64
      → (sp pp : BTreeMap ℕ) × (calculate_payouts f ss ps start end ≡ ok (sp, pp))
        × (total sp + total pp ≡ total ss + total ps)
        × IsPaidTo ss sp
        × IsPaidTo ps pp
  calculate_payouts_returns hs he h = elim (Bool-cases (total ss == 0)) [
    | inr seekers ↦
        let epoch : IsEpoch f ss ps = record {
          feerate_lt = entries.feerate_lt;
          seekers_sorted = entries.seekers_sorted;
          providers_sorted = entries.providers_sorted;
          seekers_pos = ground arith;
          providers_pos = ground (arith, entries.backed_up);
          pool_lt = entries.pool_lt;
        } in
        let (sp, pp, done, all, to_seekers, to_providers, _) =
          calculate_payouts_conserves epoch start end in
        (
          sp,
          pp,
          done,
          all,
          IsShared-IsPaidTo (total sp) (total ss) ss sp to_seekers,
          IsShared-IsPaidTo (total pp) (total ps) ps pp to_providers,
        )
    | inl none_there ↦
        let empty : ss ≡ [] = no_entries ss entries.seekers_filled (ground arith) in
        let (pp, done, all, to) =
          providers_only f ps start end entries.feerate_lt entries.providers_sorted
            entries.providers_filled (omega (arith, entries.pool_lt)) hs he h in
        rw empty ([], pp, done, omega (arith, all), tt, to)
  ]
