-- ===== src/StabilityCore/Matching/Search.antt =====
-- The loop of `match_locks_and_bids` ends with a result, on every list of bids.
use native.Mathlib.Nat.{mul-div-le, mul-le-mul_right}
use stabilitypool.Base.{
  ℕ, zero, suc, ◌+◌, ◌-◌, ◌*◌, ◌^◌, ◌≤◌, ◌<◌, ◌≡◌, refl, ap, ◌∙◌, false, none, some, List, [], ◌∷◌,
  ok, arith, ltb, if◌then◌else◌, Bool-cases, subst, inl, inr,
}
use stabilitypool.StabilityCore.Ratio.{CollateralRatio, ceiling_div}
use stabilitypool.StabilityCore.Ratio.Bounds.{ceil, ceil-le_iff, ceiling_div_lem}
use stabilitypool.StabilityCore.Feerate.{EpochFeerate, from_ppm_feerate}
use stabilitypool.StabilityCore.Desired.{ProviderBid}
use stabilitypool.StabilityCore.Matching.{
  max_total_seeker_value, Selection, Found, take_excess, break_at, should_use_next_provider,
  use_provider, break_draining, find_feerate,
}
use stabilitypool.StabilityCore.Matching.Step.{
  IsPoolRatio, unit, needed, backed, backed-le, use_needs_more, begin_round_lem,
}
use stabilitypool.StabilityCore.Matching.Loop.{
  IsSelected, AreLeft, IsFound, take_excess-IsFound, use_provider-IsSelected, break_at-IsFound,
  from_ppm_feerate-le,
}

-- A draining feerate that beats a provider exists, and charges no more than what is missing.
draining-beats :
    (n p : ℕ) (provider : ProviderBid)
    → n + p < 2 ^ 128
    → should_use_next_provider (ceiling_div n p) provider ≡ false
    → (f : EpochFeerate) × (ceiling_div n p ≡ some f) × (f < 2 ^ 64) × (f * p < n + p) × (n ≤ f * p)
unfolding should_use_next_provider ceiling_div
draining-beats n zero provider fits skip = absurd (cc)
draining-beats n (suc p) provider fits skip =
    let e = ceiling_div_lem n (suc p) (omega arith) fits in
    let low = mul-div-le (n + suc p - 1) (suc p) in
    elim (Bool-cases (ltb (ceil n (suc p)) (2 ^ 64))) [
      | inl small ↦ (
        ceil n (suc p),
        e ∙ ap (λ b. if b then some (ceil n (suc p)) else none) small,
        ground arith,
        omega (arith, low),
        (ceil-le_iff n (suc p) (ceil n (suc p)) (omega arith)).0 (omega arith),
      )
      | inr big ↦
          let gone : ceiling_div n (suc p) ≡ none =
            e ∙ ap (λ b. if b then some (ceil n (suc p)) else none) big in
          absurd (cc (subst (λ o. should_use_next_provider o provider ≡ false) gone skip))
    ]

module _ {r : CollateralRatio} (pool : IsPoolRatio r) (d : ℕ) (limit : d ≤ max_total_seeker_value)
    (balance : ℕ → ℕ) (all : ℕ) where
  -- What is selected is part of all that is on offer.
  fits_all :
      (s : Selection) {bids : List ProviderBid}
      → AreLeft pool d limit balance all s bids
      → s.selected_provider_collateral * r.seeker < 2 ^ 63
  fits_all s left =
      let le : s.selected_provider_collateral * r.seeker ≤ all * r.seeker =
        mul-le-mul_right r.seeker (omega (arith, left.everything)) in
      omega (arith, left.fits)

  pub find_feerate_lem :
      (bids : List ProviderBid) (s : Selection)
      → IsSelected pool d limit balance all s
      → AreLeft pool d limit balance all s bids
      → (found : Found) × (find_feerate r d bids s ≡ ok found)
        × IsFound pool d limit balance all found
  unfolding find_feerate break_draining
  find_feerate_lem [] s v left =
      let fits : s.selected_provider_collateral * r.seeker < 2 ^ 63 = fits_all s left in
      elim (begin_round_lem pool d limit s (omega (arith, v.feerate_le)) fits) [
        | inl (le, e) ↦ (
          take_excess (s.selected_provider_collateral - needed pool d limit s.current_feerate) s,
          rw e,
          take_excess-IsFound pool d limit balance all s v fits le,
        )
        | inr (_, lt, e) ↦ (
          break_at s.current_feerate s,
          rw e,
          break_at-IsFound pool d limit balance all s.current_feerate s v fits lt
              (inl (v.feerate_le, omega (arith, left.everything))),
        )
      ]
  find_feerate_lem (provider ∷ bids) s v left =
      let c = s.selected_provider_collateral in
      let fits : c * r.seeker < 2 ^ 63 = fits_all s left in
      let p = backed pool d limit c in
      elim (begin_round_lem pool d limit s (omega (arith, v.feerate_le)) fits) [
        | inl (le, e) ↦ (
          take_excess (c - needed pool d limit s.current_feerate) s,
          rw e,
          take_excess-IsFound pool d limit balance all s v fits le,
        )
        | inr (_, lt, e) ↦
            elim (Bool-cases
              (should_use_next_provider (ceiling_div ((d - p) * unit pool d limit) p) provider)) [
                | inl use' ↦
                    let cheap = from_ppm_feerate-le provider.min_feerate left.cheap.0 in
                    let more =
                      use_needs_more pool d limit c (from_ppm_feerate provider.min_feerate) fits lt
                        (omega arith) provider refl use' in
                    let (v', left') =
                      use_provider-IsSelected pool d limit balance all provider bids s v left
                        more in
                    let (found, done, good) =
                      find_feerate_lem bids (use_provider provider s) v' left' in
                    (found, rw e (rw use' done), good)
                | inr skip ↦
                    let (f, drain, small, low, high) =
                      draining-beats ((d - p) * unit pool d limit) p provider
                        (omega (arith, backed-le pool d limit c)) skip in
                    (
                      break_at f s,
                      rw e (rw skip (rw (drain, break_draining))),
                      break_at-IsFound pool d limit balance all f s v fits lt
                          (inr (small, low, high)),
                    )
              ]
      ]
