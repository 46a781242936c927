-- ===== src/Epoch/Process/Tally.antt =====
-- The price tally of epoch.rs counts what it is meant to count.
use stabilitypool.Base.{
  ℕ, ◌+◌, ◌≤◌, ◌<◌, ◌≡◌, refl, ap, ◌∙◌, ◌⊎◌, inl, inr, Option, none, some, List, [], ◌∷◌, filter,
  length, arith, leb, ◌==◌, if◌then◌else◌, Bool-cases, Option-cases, leb→le,
}
use stabilitypool.BTreeMap
use stabilitypool.BTreeMap.{BTreeMap, IsSorted}
use stabilitypool.BTreeMap.Laws.{get-and_modify_or_insert, get-none_of_lt}
use stabilitypool.BTreeMap.Order.{and_modify_or_insert-IsSorted}
use stabilitypool.Epoch.State.{option_eq}
use stabilitypool.Epoch.Types.{EpochEnd}
use stabilitypool.Epoch.Process.{price_tally, agreed_price}

-- How many of the ends name a price.
abbrev pub votes : ℕ → List (ℕ × EpochEnd) → ℕ
votes p ends = length (filter (λ (e : ℕ × EpochEnd). option_eq (some p) e.1.price) ends)

abbrev count_of : Option ℕ → ℕ
count_of none = 0
count_of (some n) = n

-- The count of a price in a tally.
abbrev count_in : ℕ → BTreeMap ℕ → ℕ
count_in p tally = count_of (BTreeMap.get p tally)

count_step :
    (p q : ℕ) (tally : BTreeMap ℕ)
    → count_in p (BTreeMap.and_modify_or_insert q (λ count. count + 1) 1 tally)
      ≡ count_in p tally + (if p == q then 1 else 0)
count_step p q tally =
    ap count_of (get-and_modify_or_insert p q (λ (count : ℕ). count + 1) 1 tally)
    ∙ elim (Bool-cases (p == q)) [
      | inl same ↦ let e : p ≡ q = ground arith in rw same (rw e (counted (BTreeMap.get q tally)))
      | inr other ↦ rw other (omega arith)
    ]
  where
    counted :
        (o : Option ℕ) → count_of (some (elim o [ none ↦ 1 | some n ↦ n + 1 ])) ≡ count_of o + 1
    counted none = omega arith
    counted (some n) = refl

price_tally_lem :
    (p : ℕ) (ends : List (ℕ × EpochEnd)) (tally : BTreeMap ℕ)
    → count_in p (price_tally ends tally) ≡ count_in p tally + votes p ends
unfolding price_tally
price_tally_lem p [] tally = omega arith
price_tally_lem p ((id, e) ∷ ends) tally = elim (Option-cases e.price) [
  | inl none_named ↦ rw (none_named, price_tally) (price_tally_lem p ends tally)
  | inr (q, named) ↦
      let next = BTreeMap.and_modify_or_insert q (λ count. count + 1) 1 tally in
      let one : count_in p next ≡ count_in p tally + (if p == q then 1 else 0) =
        count_step p q tally in
      rw (named, price_tally) (ground (arith, one, price_tally_lem p ends next))
]

price_tally-IsSorted :
    (ends : List (ℕ × EpochEnd)) (tally : BTreeMap ℕ)
    → IsSorted tally
    → IsSorted (price_tally ends tally)
unfolding price_tally
price_tally-IsSorted [] tally s = s
price_tally-IsSorted ((id, e) ∷ ends) tally s = elim (Option-cases e.price) [
  | inl none_named ↦ rw (none_named, price_tally) (price_tally-IsSorted ends tally s)
  | inr (q, named) ↦
      rw (named, price_tally)
        (price_tally-IsSorted ends (BTreeMap.and_modify_or_insert q (λ count. count + 1) 1 tally)
          (and_modify_or_insert-IsSorted q (λ count. count + 1) 1 tally s))
]

-- The price is one that the tally counts often enough, or no count is that high.
agreed_price_lem :
    (threshold : ℕ) (tally : BTreeMap ℕ)
    → 0 < threshold
    → IsSorted tally
    → ((p : ℕ) × (agreed_price threshold tally ≡ some p) × (threshold ≤ count_in p tally))
      ⊎ ((agreed_price threshold tally ≡ none) × ((p : ℕ) → count_in p tally < threshold))
unfolding agreed_price BTreeMap.get
agreed_price_lem threshold [] h s = inr (refl, λ p. h)
agreed_price_lem threshold ((q, n) ∷ tally) h s =
    let head_absent = get-none_of_lt q tally s.0 in
    elim (Bool-cases (leb threshold n)) [
      | inl reached ↦ inl (q, rw reached refl, ground (arith, leb→le threshold n reached))
      | inr short ↦ elim (agreed_price_lem threshold tally h s.1) [
        | inl (p, found, enough) ↦ inl (
          p,
          rw short found,
          elim (Bool-cases (p == q)) [
            | inl same ↦
                let e : p ≡ q = ground arith in
                let none_counted : count_in p tally ≡ 0 =
                  ap (λ (k : ℕ). count_in k tally) e ∙ ap count_of head_absent in
                absurd (omega arith)
            | inr other ↦ rw other enough
          ],
        )
        | inr (none_found, few) ↦ inr (
          rw short none_found,
          λ p. elim (Bool-cases (p == q)) [
            | inl same ↦ rw same (ground arith)
            | inr other ↦ rw other (few p)
          ],
        )
      ]
    ]

-- A price is agreed on if, for a threshold that is not 0, at least the threshold of the stored ends
-- name it; otherwise no price is named so often, and none is agreed on.
pub agreed_price-price_tally :
    (threshold : ℕ) (ends : List (ℕ × EpochEnd))
    → 0 < threshold
    → let agreed = agreed_price threshold (price_tally ends []) in
      ((p : ℕ) × (agreed ≡ some p) × (threshold ≤ votes p ends))
      ⊎ ((agreed ≡ none) × ((p : ℕ) → votes p ends < threshold))
unfolding BTreeMap.get
agreed_price-price_tally threshold ends h =
    let tally = price_tally ends [] in
    let counts : (p : ℕ) → count_in p tally ≡ votes p ends =
      λ p. omega (arith, price_tally_lem p ends []) in
    elim (agreed_price_lem threshold tally h (price_tally-IsSorted ends [] tt)) [
      | inl (p, found, enough) ↦ inl (p, found, omega (arith, counts p, enough))
      | inr (none_found, few) ↦ inr (none_found, λ p. omega (arith, counts p, few p))
    ]
