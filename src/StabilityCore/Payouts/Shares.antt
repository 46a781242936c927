-- ===== src/StabilityCore/Payouts/Shares.antt =====
-- One round of the outer loop of `calculate_payouts`: a total shared out over the entries.
use mathlib.Core.List.{append-nil, append_assoc}
use native.Mathlib.Nat.{
  mul-div-le, lt-mul-div-succ, div-le_of_le-mul, le_of_mul-le-mul_left, mul-sub,
}
use stabilitypool.Base.{
  ℕ, zero, suc, ◌+◌, ◌-◌, ◌*◌, ◌/◌, ◌^◌, ◌≤◌, ◌<◌, ◌≡◌, refl, ap, ◌∙◌, [], ◌∷◌, ◌++◌, ok, All,
  All-append, All-weaken, length, arith, le→leb, ==_ne,
}
use stabilitypool.Base.U64
use stabilitypool.Base.U128
use stabilitypool.BTreeMap.{BTreeMap, IsSorted, IsAbove}
use stabilitypool.BTreeMap.Totals.{total}
use stabilitypool.BTreeMap.Laws.{insert-append}
use stabilitypool.StabilityCore.Payouts.{pay_each, bump_each, share_out}

sub_sub_lem : (a b c : ℕ) → a - b - c ≡ a - (b + c)
sub_sub_lem a b c = omega arith

-- What is put at the end of a map lies below the keys that come later.
IsAbove-append :
    (id q : ℕ) (acc es : BTreeMap ℕ)
    → All (λ e. id < e.0) es
    → All (λ e. IsAbove e.0 acc) es
    → All (λ e. IsAbove e.0 (acc ++ (id, q) ∷ [])) es
IsAbove-append id q acc [] lt k = tt
IsAbove-append id q acc ((j, x) ∷ es) lt k = (
  All-append (λ e. e.0 < j) acc ((id, q) ∷ []) k.0 (lt.0, tt),
  IsAbove-append id q acc es lt.1 k.1,
)

module _ (t l : ℕ) where
  -- The share of one entry, rounded down.
  abbrev pub share : ℕ → ℕ
  share locked = t * locked / l

  abbrev pub shares : BTreeMap ℕ → BTreeMap ℕ
  shares [] = []
  shares ((id, locked) ∷ es) = (id, share locked) ∷ shares es

  -- Rounding down loses less than one unit for each entry.
  pub total-shares_bounds :
      (es : BTreeMap ℕ)
      → 0 < l
      → (l * total (shares es) ≤ t * total es)
        × (t * total es ≤ l * (total (shares es) + length es))
  total-shares_bounds [] h = (grind arith, grind arith)
  total-shares_bounds ((id, x) ∷ es) h =
      let (low, high) = total-shares_bounds es h in
      let d = mul-div-le (t * x) l in
      let u = lt-mul-div-succ (t * x) h in (grind arith, grind arith)

  pay_each_lem :
      (es : BTreeMap ℕ) (rem : ℕ) (acc : BTreeMap ℕ)
      → 0 < l
      → t < 2 ^ 64
      → All (λ e. (e.1 ≤ l) × (e.1 < 2 ^ 64)) es
      → IsSorted es
      → All (λ e. IsAbove e.0 acc) es
      → t * total es ≤ rem * l
      → pay_each t l es rem acc ≡ ok (rem - total (shares es), acc ++ shares es)
  unfolding pay_each
  pay_each_lem [] rem acc h ht a s k b = rw append-nil (ground arith)
  pay_each_lem ((id, x) ∷ es) rem acc h ht a s k b =
      let q = share x in
      let floor : l * q ≤ t * x = mul-div-le (t * x) l in
      let small : q ≤ t = div-le_of_le-mul l (grind arith) in
      let enough : q ≤ rem = le_of_mul-le-mul_left {k = l} (grind arith) h in
      let rest : t * total es ≤ (rem - q) * l = omega (arith, mul-sub l rem q) in
      let ih =
        pay_each_lem es (rem - q) (acc ++ (id, q) ∷ []) h ht a.1 s.1
          (IsAbove-append id q acc es s.0 k.1) rest in
      rw (U128.mul_lem t x ht a.0.1) (
        rw (==_ne l 0 (omega arith)) (
          rw (U64.of_u128_lem q (omega arith)) (
            rw (le→leb q rem enough) (
              rw (insert-append id q acc k.0) (
                ih
                ∙ cc (
                  append_assoc acc ((id, q) ∷ []) (shares es),
                  sub_sub_lem rem q (total (shares es)),
                ))))))

-- `bump_each` adds the units that are left, one to each of the first entries.
pub total-bump_each :
    (rem : ℕ) (m : BTreeMap ℕ)
    → rem < 2 ^ 64
    → rem ≤ length m
    → All (λ e. e.1 + 1 < 2 ^ 64) m
    → total (bump_each rem m) ≡ total m + rem
unfolding bump_each
total-bump_each zero [] h k a = omega arith
total-bump_each (suc rem) [] h k a = absurd (omega arith)
total-bump_each zero ((id, v) ∷ m) h k a = ground arith
total-bump_each (suc rem) ((id, v) ∷ m) h k a =
    let less : U64.sub (suc rem) 1 ≡ rem = U64.sub_lem (suc rem) 1 h (omega arith) ∙ omega arith in
    rw (U64.add_lem v 1 a.0)
      (rw less (ground (arith, total-bump_each rem m (omega arith) (omega arith) a.1)))

-- Every account of the entries, and no other, gets its share rounded down, or one unit more.
abbrev pub IsShared : (t l : ℕ) → (entries payouts : BTreeMap ℕ) → Type 0
IsShared t l [] [] = Unit
IsShared t l ((id, x) ∷ es) ((j, p) ∷ ps) =
    (j ≡ id) × (share t l x ≤ p) × (p ≤ share t l x + 1) × IsShared t l es ps
IsShared t l _ _ = ⊥

bump_each-IsShared :
    (t l rem : ℕ) (es : BTreeMap ℕ)
    → All (λ e. e.1 + 1 < 2 ^ 64) (shares t l es)
    → IsShared t l es (bump_each rem (shares t l es))
unfolding bump_each
bump_each-IsShared t l rem [] a = tt
bump_each-IsShared t l zero ((id, x) ∷ es) a = (refl, omega arith, omega arith, shares-IsShared es)
  where
    shares-IsShared : (es : BTreeMap ℕ) → IsShared t l es (shares t l es)
    shares-IsShared [] = tt
    shares-IsShared ((id, x) ∷ es) = (refl, omega arith, omega arith, shares-IsShared es)
bump_each-IsShared t l (suc rem) ((id, x) ∷ es) a =
    let next = bump_each-IsShared t l (U64.sub (suc rem) 1) es a.1 in
    let value = U64.add_lem (share t l x) 1 a.0 in
    rw (==_ne (suc rem) 0 (omega arith)) (refl, omega (arith, value), omega (arith, value), next)

length-shares : (t l : ℕ) (es : BTreeMap ℕ) → length (shares t l es) ≡ length es
length-shares t l [] = refl
length-shares t l (e ∷ es) = ap suc (length-shares t l es)

shares-small :
    (t l : ℕ) (es : BTreeMap ℕ)
    → t + 1 < 2 ^ 64
    → All (λ e. e.1 ≤ l) es
    → All (λ e. e.1 + 1 < 2 ^ 64) (shares t l es)
shares-small t l [] h a = tt
shares-small t l ((id, x) ∷ es) h a =
    let small : share t l x ≤ t = div-le_of_le-mul l (grind arith) in
    (omega arith, shares-small t l es h a.1)

pub All-le-total : (es : BTreeMap ℕ) → All (λ e. e.1 ≤ total es) es
All-le-total [] = tt
All-le-total ((id, x) ∷ es) = (
  omega arith,
  All-weaken (λ (e : ℕ × ℕ). e.1 ≤ total es) (λ e. e.1 ≤ x + total es) es (λ e h. omega arith)
      (All-le-total es),
)

-- What `share_out` makes of entries whose amounts do not add up to 0.
abbrev pub IsPaidOut : ℕ → BTreeMap ℕ → BTreeMap ℕ → Type 0
IsPaidOut t es ps = (total ps ≡ t) × IsShared t (total es) es ps

-- For entries in ascending order of their accounts that add up to more than 0 and fit `u64`, and a
-- total below 2 ^ 64 - 1, the whole total is paid out, each account gets its share in proportion to its
-- amount, rounded down, or one unit more, and there is no panic.
pub share_out-IsPaidOut :
    (t : ℕ) (es : BTreeMap ℕ)
    → IsSorted es
    → 0 < total es
    → total es < 2 ^ 64
    → t + 1 < 2 ^ 64
    → (ps : BTreeMap ℕ) × (share_out t (total es) es ≡ ok ps) × IsPaidOut t es ps
unfolding share_out
share_out-IsPaidOut t es s h fits ht =
    let l = total es in
    let rem = t - total (shares t l es) in
    let (low, high) = total-shares_bounds t l es h in
    let below : total (shares t l es) ≤ t = le_of_mul-le-mul_left {k = l} (grind arith) h in
    let above : t ≤ total (shares t l es) + length es =
      le_of_mul-le-mul_left {k = l} (grind arith) h in
    let few : rem ≤ length (shares t l es) = omega (arith, length-shares t l es) in
    let small = shares-small t l es ht (All-le-total es) in
    let paid =
      pay_each_lem t l es t [] h (omega arith)
        (All-weaken (λ (e : ℕ × ℕ). e.1 ≤ l) (λ e. (e.1 ≤ l) × (e.1 < 2 ^ 64)) es
          (λ e k. (k, omega arith)) (All-le-total es))
        s (All-nil es) (omega arith) in
    (
      bump_each rem (shares t l es),
      rw paid (rw (le→leb rem (length (shares t l es)) few)),
      (
        total-bump_each rem (shares t l es) (omega arith) few small ∙ omega arith,
        bump_each-IsShared t l rem es small,
      ),
    )
  where
    All-nil : (es : BTreeMap ℕ) → All (λ e. IsAbove {V = ℕ} e.0 []) es
    All-nil [] = tt
    All-nil (e ∷ es) = (tt, All-nil es)
