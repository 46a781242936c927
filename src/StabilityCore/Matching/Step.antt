-- ===== src/StabilityCore/Matching/Step.antt =====
-- One round of the loop of `match_locks_and_bids`, in exact arithmetic.
use native.Mathlib.Nat.{mul-le-mul, mul-le-mul_right, div-le_self}
use stabilitypool.Base.{
  ℕ, ◌+◌, ◌-◌, ◌*◌, ◌/◌, ◌^◌, ◌≤◌, ◌<◌, ◌≡◌, ◌∙◌, true, Option, none, some, ok, arith, ltb, ltb→lt,
  leb, leb→le, ap, if◌then◌else◌, Bool-cases, ◌⊎◌, inl, inr,
}
use stabilitypool.Base.Int.{pos, negsuc, sub_ℕ}
use stabilitypool.Base.U64
use stabilitypool.Base.U128
use stabilitypool.StabilityCore.Ratio.{CollateralRatio, ceiling_div}
use stabilitypool.StabilityCore.Ratio.Bounds.{
  IsRatio, ceil, ceil-le_iff, ceiling_div_lem, collateral_lem, position_lem,
  ceil-le_iff_le-position,
}
use stabilitypool.StabilityCore.Feerate.{
  EpochFeerate, feerate_unit_denominator, from_ppm_feerate, seeker_position,
}
use stabilitypool.StabilityCore.Feerate.Fees.{seeker_position_lem, seeker_position_bounds}
use stabilitypool.StabilityCore.Desired.{ProviderBid}
use stabilitypool.StabilityCore.Matching.{
  max_total_seeker_value, Selection, enough, short, judge_excess, begin_round, draining_feerate_of,
  should_use_next_provider,
}

-- A ratio for which the collateral for the largest demand fits a `u64`.
pub record IsPoolRatio (r : CollateralRatio) : Type 0 where
  pub valid : IsRatio r
  pub provider_le : r.provider ≤ 87

sub_ℕ_le : (a b : ℕ) → b ≤ a → sub_ℕ a b ≡ pos (a - b)
sub_ℕ_le a b h = ground arith

sub_ℕ_lt : (a b : ℕ) → a < b → sub_ℕ a b ≡ negsuc (b - a - 1)
sub_ℕ_lt a b h = ground arith

below_draining :
    (n p : ℕ) (provider : ProviderBid)
    → 0 < p
    → n + p < 2 ^ 128
    → from_ppm_feerate provider.min_feerate < 2 ^ 64
    → should_use_next_provider (ceiling_div n p) provider ≡ true
    → from_ppm_feerate provider.min_feerate * p < n
unfolding should_use_next_provider
below_draining n p provider h fits small use' =
    let g = from_ppm_feerate provider.min_feerate in
    let reached : g < ceil n p = elim (Bool-cases (ltb (ceil n p) (2 ^ 64))) [
      | inl e ↦ ltb→lt g (ceil n p) (
          rw (ceiling_div_lem n p h fits ∙ ap (λ b. if b then some (ceil n p) else none) e) at use')
      | inr e ↦ ground arith
    ] in
    elim (Bool-cases (leb n (g * p))) [
      | inl e ↦ absurd (omega (arith, (ceil-le_iff n p g h).1 (leb→le n (g * p) e)))
      | inr e ↦ ground arith
    ]

module _ {r : CollateralRatio} (pool : IsPoolRatio r) (d : ℕ)
    (limit : d ≤ max_total_seeker_value) where
  abbrev pub unit : ℕ
  unit = feerate_unit_denominator

  -- The collateral that the demand needs at a feerate.
  abbrev pub needed : EpochFeerate → ℕ
  needed f = ceil (seeker_position f d * r.provider) r.seeker

  -- The position that collateral backs.
  abbrev pub backed : ℕ → ℕ
  backed s = s * r.seeker / r.provider

  pub position-le : (f : EpochFeerate) → f < 2 ^ 64 → seeker_position f d ≤ d
  position-le f hf = omega (arith, seeker_position_lem f d hf (omega arith))

  pub needed-lt : (f : EpochFeerate) → f < 2 ^ 64 → needed f < 2 ^ 64
  needed-lt f hf =
      let n = seeker_position f d * r.provider in
      let small : n ≤ max_total_seeker_value * 87 =
        mul-le-mul {n₂ = max_total_seeker_value} {m₂ = 87} (omega (arith, position-le f hf))
          pool.provider_le in
      let le : needed f ≤ n =
        (ceil-le_iff n r.seeker n pool.valid.seeker_pos).1 (grind (arith, pool.valid.seeker_pos)) in
      omega arith

  pub needed-le_iff :
      (f : EpochFeerate) (s : ℕ)
      → (needed f ≤ s → seeker_position f d ≤ backed s)
        × (seeker_position f d ≤ backed s → needed f ≤ s)
  needed-le_iff f s = ceil-le_iff_le-position pool.valid (seeker_position f d) s

  pub backed-le : (s : ℕ) → backed s ≤ s * r.seeker
  backed-le s = div-le_self (s * r.seeker) r.provider

  -- What the draining feerate is, with what it decides.
  abbrev pub draining : ℕ → Option EpochFeerate
  draining p = ceiling_div ((d - p) * unit) p

  draining_feerate_of_lem :
      (s : ℕ)
      → s * r.seeker < 2 ^ 63
      → backed s < d
      → draining_feerate_of r d s ≡ ok (draining (backed s))
  unfolding draining_feerate_of
  draining_feerate_of_lem s h lt =
      let le : s ≤ s * r.seeker = grind (arith, pool.valid.seeker_pos) in
      let p = backed s in
      rw (position_lem pool.valid s (omega arith) (omega (arith, backed-le s))) (
        rw (U64.sub_lem d p (omega arith) (omega arith))
          (rw (U128.mul_lem (d - p) unit (omega arith) (omega arith))))

  -- A provider whose feerate lies below the draining feerate needs more than what is selected.
  pub use_needs_more :
      (s : ℕ) (g : EpochFeerate)
      → s * r.seeker < 2 ^ 63
      → backed s < d
      → g < 2 ^ 64
      → (provider : ProviderBid) → from_ppm_feerate provider.min_feerate ≡ g
      → should_use_next_provider (draining (backed s)) provider ≡ true
      → s < needed g
  use_needs_more s g h lt hg provider e use' =
      let p = backed s in
      let q = seeker_position g d in
      let cheap : g * p < (d - p) * unit = elim (Bool-cases (ltb 0 p)) [
        | inl some_position ↦ rw e at (
            below_draining ((d - p) * unit) p provider (ltb→lt 0 p some_position)
              (omega (arith, backed-le s)) (rw e hg) use')
        | inr no_position ↦ let empty : p ≡ 0 = ground arith in rw empty (omega arith)
      ] in
      let (covers, _) = seeker_position_bounds g d hg (omega arith) in
      elim (Bool-cases (leb (needed g) s)) [
        | inl met ↦
            let le : q ≤ p = (needed-le_iff g s).0 (leb→le (needed g) s met) in
            let scaled : q * (unit + g) ≤ p * (unit + g) = mul-le-mul_right (unit + g) le in
            absurd (omega arith)
        | inr unmet ↦ ground arith
      ]

  pub begin_round_lem :
      (s : Selection)
      → s.current_feerate < 2 ^ 64
      → s.selected_provider_collateral * r.seeker < 2 ^ 63
      → ((needed s.current_feerate ≤ s.selected_provider_collateral)
          × (begin_round r d s
              ≡ ok (enough (s.selected_provider_collateral - needed s.current_feerate))))
        ⊎ ((s.selected_provider_collateral < needed s.current_feerate)
            × (backed s.selected_provider_collateral < d)
            × (begin_round r d s ≡ ok (short (draining (backed s.selected_provider_collateral)))))
  unfolding begin_round judge_excess
  begin_round_lem s hf hs =
      let f = s.current_feerate in
      let c = s.selected_provider_collateral in
      let cost =
        collateral_lem pool.valid (seeker_position f d) (omega (arith, position-le f hf))
          (needed-lt f hf) in
      elim (Bool-cases (leb (needed f) c)) [
        | inl met ↦ inl (
          leb→le (needed f) c met,
          rw (cost, begin_round) (rw (sub_ℕ_le c (needed f) (leb→le (needed f) c met))),
        )
        | inr unmet ↦
            let under : c < needed f = ground arith in
            let below : backed c < d = elim (Bool-cases (leb (seeker_position f d) (backed c))) [
              | inl le ↦ absurd (omega (arith, (needed-le_iff f c).1 (leb→le _ _ le)))
              | inr gt ↦ ground (arith, position-le f hf)
            ] in
            inr (
              under,
              below,
              rw (cost, begin_round)
                  (rw (sub_ℕ_lt c (needed f) under) (rw (draining_feerate_of_lem c hs below))),
            )
      ]
