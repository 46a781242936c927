-- ===== src/StabilityCore/Pnl/Bounds.antt =====
-- `pnl_for_price` in exact arithmetic, and the value that a seeker keeps.
use native.Mathlib.Nat.{
  mul-le-mul, mul-div-le, lt-mul-div-succ, mul-sub, mul-le-mul_left, div-le_of_le-mul,
}
use stabilitypool.Base.{
  ℕ, zero, suc, ◌+◌, ◌-◌, ◌*◌, ◌/◌, ◌^◌, ◌≤◌, ◌<◌, ◌≡◌, refl, min, inl, inr, arith, leb, ==_ne,
  if◌then◌else◌, Bool-cases, leb→le,
}
use stabilitypool.Base.Int.{ℤ, pos, negsuc, pos_part, neg_part, neg_ℤ, ◌+ℤ◌, ◌*ℤ◌, sub_ℕ, tdiv}
use stabilitypool.Base.I64
use stabilitypool.StabilityCore.Pnl.{pnl_for_price}

neg_ℤ_parts : (k : ℕ) → (pos_part (neg_ℤ (pos k)) ≡ 0) × (neg_part (neg_ℤ (pos k)) ≡ k)
neg_ℤ_parts zero = (refl, refl)
neg_ℤ_parts (suc k) = (refl, refl)

small_product : (m n : ℕ) → m ≤ 2 ^ 63 → n < 2 ^ 64 → m * n < 2 ^ 127
small_product m n h k =
    let le : m * n ≤ 2 ^ 63 * (2 ^ 64 - 1) =
      mul-le-mul {n₂ = 2 ^ 63} {m₂ = 2 ^ 64 - 1} h (omega arith) in
    omega arith

*ℤ_fits :
    (a b : ℤ)
    → pos_part a < 2 ^ 63
    → neg_part a ≤ 2 ^ 63
    → pos_part b < 2 ^ 64
    → neg_part b < 2 ^ 64
    → (pos_part (a *ℤ b) < 2 ^ 127) × (neg_part (a *ℤ b) < 2 ^ 127)
unfolding ◌*ℤ◌
*ℤ_fits (pos m) (pos n) p q r s = (small_product m n (omega arith) r, omega arith)
*ℤ_fits (pos m) (negsuc n) p q r s =
    omega (arith, neg_ℤ_parts (m * suc n), small_product m (suc n) (omega arith) s)
*ℤ_fits (negsuc m) (pos n) p q r s =
    omega (arith, neg_ℤ_parts (suc m * n), small_product (suc m) n q r)
*ℤ_fits (negsuc m) (negsuc n) p q r s = (small_product (suc m) (suc n) q s, omega arith)

-- For an `i64` position and two `u64` prices, the last of them not 0, the profit is the exact one,
-- rounded towards zero and brought into `i64`: the arithmetic of `i128` does not wrap.
pub pnl_for_price_lem :
    (position : ℤ) (start end : ℕ)
    → pos_part position < 2 ^ 63
    → neg_part position ≤ 2 ^ 63
    → start < 2 ^ 64
    → 0 < end
    → end < 2 ^ 64
    → pnl_for_price position start end ≡ I64.clamp (tdiv (position *ℤ sub_ℕ end start) end)
unfolding pnl_for_price
pnl_for_price_lem position start end hp hn hs he h =
    let (below, above) = *ℤ_fits position (sub_ℕ end start) hp hn (ground arith) (ground arith) in
    rw (==_ne end 0 (omega arith)) (
      rw (I64.wrap_i128_lem (sub_ℕ end start) (ground arith) (ground arith))
        (rw (I64.wrap_i128_lem (position *ℤ sub_ℕ end start) below (omega arith))))

neg-*ℤ-pos : (p d : ℕ) → neg_ℤ (pos p) *ℤ pos d ≡ neg_ℤ (pos (p * d))
unfolding ◌*ℤ◌
neg-*ℤ-pos zero d = ground arith
neg-*ℤ-pos (suc p) d = refl

neg-*ℤ-negsuc : (p d : ℕ) → neg_ℤ (pos p) *ℤ negsuc d ≡ pos (p * suc d)
unfolding ◌*ℤ◌
neg-*ℤ-negsuc zero d = ground arith
neg-*ℤ-negsuc (suc p) d = refl

tdiv-neg : (k d : ℕ) → tdiv (neg_ℤ (pos k)) d ≡ neg_ℤ (pos (k / d))
unfolding tdiv
tdiv-neg zero d = ground arith
tdiv-neg (suc k) d = refl

saturate_down :
    (p q : ℕ)
    → p < 2 ^ 63
    → q ≤ p
    → I64.to_u64 (I64.saturating_add (pos p) (I64.clamp (neg_ℤ (pos q)))) ≡ min (p - q) (2 ^ 63 - 1)
unfolding I64.saturating_add I64.clamp I64.to_u64 ◌+ℤ◌
saturate_down p zero h k = ground arith
saturate_down p (suc q) h k = ground arith

saturate_up :
    (p q : ℕ)
    → p < 2 ^ 63
    → I64.to_u64 (I64.saturating_add (pos p) (I64.clamp (pos q))) ≡ min (p + q) (2 ^ 63 - 1)
unfolding I64.saturating_add I64.clamp I64.to_u64 ◌+ℤ◌
saturate_up p q h = ground arith

same_gap : (start end : ℕ) → end < start → suc (start - end - 1) ≡ start - end
same_gap start end h = omega arith

-- What a short position `p` is worth at the end, before the pool's limit: the `as u64` of the
-- saturating sum in `calculate_payouts` and in `seeker_payout`.
abbrev pub short_payout : ℕ → ℕ → ℕ → ℕ
short_payout p start end =
    I64.to_u64 (
      I64.saturating_add (I64.of_u64 p) (pnl_for_price (I64.wrap (neg_ℤ (I64.of_u64 p))) start end))

-- The exact worth, rounded towards the position.
abbrev pub worth : ℕ → ℕ → ℕ → ℕ
worth p start end =
    if leb start end then p - p * (end - start) / end else p + p * (start - end) / end

short_pnl :
    (p start end : ℕ)
    → p < 2 ^ 63
    → start < 2 ^ 64
    → 0 < end
    → end < 2 ^ 64
    → pnl_for_price (I64.wrap (neg_ℤ (I64.of_u64 p))) start end
      ≡ I64.clamp (tdiv (neg_ℤ (pos p) *ℤ sub_ℕ end start) end)
short_pnl p start end hp hs he h =
    let (zero_part, part) = neg_ℤ_parts p in
    rw (I64.of_u64_lem p hp) (
      rw (I64.wrap_lem (neg_ℤ (pos p)) (omega arith) (omega arith))
        (pnl_for_price_lem (neg_ℤ (pos p)) start end (omega arith) (omega arith) hs he h))

tdiv_pos : (n d : ℕ) → tdiv (pos n) d ≡ pos (n / d)
unfolding tdiv
tdiv_pos n d = refl

pub short_payout_lem :
    (p start end : ℕ)
    → p < 2 ^ 63
    → start < 2 ^ 64
    → 0 < end
    → end < 2 ^ 64
    → short_payout p start end ≡ min (worth p start end) (2 ^ 63 - 1)
short_payout_lem p start end hp hs he h = rw (short_pnl p start end hp hs he h) (
    rw (I64.of_u64_lem p hp) (elim (Bool-cases (leb start end)) [
      | inl up ↦ rw up (
          rw (neg-*ℤ-pos p (end - start)) (
            rw (tdiv-neg (p * (end - start)) end) (
              saturate_down p (p * (end - start) / end) hp
                (div-le_of_le-mul end (omega (arith, mul-sub p end start))))))
      | inr down ↦ rw down (
          rw (neg-*ℤ-negsuc p (start - end - 1)) (
            rw (same_gap start end (ground arith), tdiv_pos (p * (start - end)) end)
              (saturate_up p (p * (start - end) / end) hp)))
    ]))

-- The worth keeps the value: its product with the end price is that of the position with the start
-- price, up to less than one end price.
pub worth_value :
    (p start end : ℕ)
    → 0 < end
    → (worth p start end * end < p * start + end) × (p * start < worth p start end * end + end)
worth_value p start end h = elim (Bool-cases (leb start end)) [
  | inl up ↦ rw up (rise (leb→le start end up))
  | inr down ↦ rw down (fall (ground arith))
]
  where
    rise :
        start ≤ end
        → ((p - p * (end - start) / end) * end < p * start + end)
          × (p * start < (p - p * (end - start) / end) * end + end)
    rise le =
        let q = p * (end - start) / end in
        let facts : (end * q ≤ p * (end - start)) × (p * (end - start) < end * (q + 1)) =
          (mul-div-le (p * (end - start)) end, lt-mul-div-succ (p * (end - start)) h) in
        let ordered : p * start ≤ p * end = mul-le-mul_left p le in
        let small : q ≤ p = div-le_of_le-mul end (omega (arith, mul-sub p end start)) in
        omega (arith, mul-sub p end start, mul-sub end p q, facts)

    fall :
        end ≤ start
        → ((p + p * (start - end) / end) * end < p * start + end)
          × (p * start < (p + p * (start - end) / end) * end + end)
    fall le =
        let q = p * (start - end) / end in
        let facts : (end * q ≤ p * (start - end)) × (p * (start - end) < end * (q + 1)) =
          (mul-div-le (p * (start - end)) end, lt-mul-div-succ (p * (start - end)) h) in
        let ordered : p * end ≤ p * start = mul-le-mul_left p le in
        omega (arith, mul-sub p start end, facts)
