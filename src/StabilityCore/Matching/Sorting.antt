-- ===== src/StabilityCore/Matching/Sorting.antt =====
-- Sorting the bids: in order of feerate, and the same bids as before.
use mathlib.Core.List.{Perm}
use mathlib.Core.List.Perm
use stabilitypool.Base.{
  ℕ, ◌+◌, ◌≤◌, ◌≡◌, ◌≢◌, refl, sym, Bool, true, false, List, [], ◌∷◌, filter, All, sum_of, arith,
  Bool-cases, inl, inr,
}
use stabilitypool.StabilityCore.Desired.{ProviderBid}
use stabilitypool.StabilityCore.Matching.{bid_lt, insert_bid, sort_bids}

-- No two of the items are of one account.
module _ {A : Type 0} (account : A → ℕ) where
  abbrev pub IsNew : A → List A → Type 0
  IsNew a = All λ b. account b ≢ account a

  abbrev pub Distinct : List A → Type 0
  Distinct [] = Unit
  Distinct (a ∷ as') = IsNew a as' × Distinct as'

  pub filter-Distinct : (p : A → Bool) (xs : List A) → Distinct xs → Distinct (filter p xs)
  filter-Distinct p [] d = tt
  filter-Distinct p (x ∷ xs) d = ground (arith, filter-Distinct p xs d.1, filter-IsNew xs d.0)
    where
      filter-IsNew : (ys : List A) → IsNew x ys → IsNew x (filter p ys)
      filter-IsNew [] k = tt
      filter-IsNew (y ∷ ys) k = ground (arith, filter-IsNew ys k.1)

-- The feerates do not fall.
abbrev pub IsAscending : List ProviderBid → Type 0
IsAscending [] = Unit
IsAscending (b ∷ bids) = All (λ c. b.min_feerate ≤ c.min_feerate) bids × IsAscending bids

All-insert_bid {ℓ} :
    (P : ProviderBid → Type ℓ) (b : ProviderBid) (bids : List ProviderBid)
    → P b
    → All P bids
    → All P (insert_bid b bids)
unfolding insert_bid
All-insert_bid P b [] p h = (p, tt)
All-insert_bid P b (c ∷ bids) p h = elim (Bool-cases (bid_lt c b)) [
  | inl e ↦ rw e (h.0, All-insert_bid P b bids p h.1)
  | inr e ↦ rw e (p, h)
]

-- What holds of every bid holds of the sorted ones.
pub All-sort_bids {ℓ} :
    (P : ProviderBid → Type ℓ) (bids : List ProviderBid) → All P bids → All P (sort_bids bids)
unfolding sort_bids
All-sort_bids P [] h = tt
All-sort_bids P (b ∷ bids) h = All-insert_bid P b (sort_bids bids) h.0 (All-sort_bids P bids h.1)

insert_bid-Distinct :
    (b : ProviderBid) (bids : List ProviderBid)
    → IsNew (λ c. c.account_id) b bids
    → Distinct (λ c. c.account_id) bids
    → Distinct (λ c. c.account_id) (insert_bid b bids)
unfolding insert_bid
insert_bid-Distinct b [] n d = (tt, tt)
insert_bid-Distinct b (c ∷ bids) n d = elim (Bool-cases (bid_lt c b)) [
  | inl e ↦ rw e (
    All-insert_bid (λ (x : ProviderBid). x.account_id ≢ c.account_id) b bids (λ p. n.0 (sym p)) d.0,
    insert_bid-Distinct b bids n.1 d.1,
  )
  | inr e ↦ rw e (n, d)
]

pub sort_bids-Distinct :
    (bids : List ProviderBid)
    → Distinct (λ c. c.account_id) bids
    → Distinct (λ c. c.account_id) (sort_bids bids)
unfolding sort_bids
sort_bids-Distinct [] d = tt
sort_bids-Distinct (b ∷ bids) d =
    insert_bid-Distinct b (sort_bids bids)
      (All-sort_bids (λ (x : ProviderBid). x.account_id ≢ b.account_id) bids d.0)
      (sort_bids-Distinct bids d.1)

sum-insert_bid :
    (f : ProviderBid → ℕ) (b : ProviderBid) (bids : List ProviderBid)
    → sum_of f (insert_bid b bids) ≡ f b + sum_of f bids
unfolding insert_bid
sum-insert_bid f b [] = refl
sum-insert_bid f b (c ∷ bids) = elim (Bool-cases (bid_lt c b)) [
  | inl e ↦ rw e (omega (arith, sum-insert_bid f b bids))
  | inr e ↦ rw e refl
]

pub sum-sort_bids :
    (f : ProviderBid → ℕ) (bids : List ProviderBid) → sum_of f (sort_bids bids) ≡ sum_of f bids
unfolding sort_bids
sum-sort_bids f [] = refl
sum-sort_bids f (b ∷ bids) =
    omega (arith, sum-insert_bid f b (sort_bids bids), sum-sort_bids f bids)

insert_bid-perm : (b : ProviderBid) (bids : List ProviderBid) → Perm (insert_bid b bids) (b ∷ bids)
unfolding insert_bid
insert_bid-perm b [] = Perm.refl (b ∷ [])
insert_bid-perm b (c ∷ bids) = elim (Bool-cases (bid_lt c b)) [
  | inl e ↦ rw e (Perm.trans (Perm.cons c (insert_bid-perm b bids)) (Perm.swap b c bids))
  | inr e ↦ rw e (Perm.refl (b ∷ c ∷ bids))
]

sort_bids-perm : (bids : List ProviderBid) → Perm (sort_bids bids) bids
unfolding sort_bids
sort_bids-perm [] = Perm.refl []
sort_bids-perm (b ∷ bids) =
    Perm.trans (insert_bid-perm b (sort_bids bids)) (Perm.cons b (sort_bids-perm bids))

bid_lt→le : (x y : ProviderBid) → bid_lt x y ≡ true → x.min_feerate ≤ y.min_feerate
unfolding bid_lt
bid_lt→le x y e = ground arith

not-bid_lt→le : (x y : ProviderBid) → bid_lt x y ≡ false → y.min_feerate ≤ x.min_feerate
unfolding bid_lt
not-bid_lt→le x y e = ground arith

insert_bid-IsAscending :
    (b : ProviderBid) (bids : List ProviderBid) → IsAscending bids → IsAscending (insert_bid b bids)
unfolding insert_bid
insert_bid-IsAscending b [] a = (tt, tt)
insert_bid-IsAscending b (c ∷ bids) a = elim (Bool-cases (bid_lt c b)) [
  | inl e ↦ rw e (
    All-insert_bid (λ (x : ProviderBid). c.min_feerate ≤ x.min_feerate) b bids (bid_lt→le c b e)
        a.0,
    insert_bid-IsAscending b bids a.1,
  )
  | inr e ↦ rw e ((not-bid_lt→le c b e, above bids (not-bid_lt→le c b e) a.0), a)
]
  where
    above :
        (bs : List ProviderBid)
        → b.min_feerate ≤ c.min_feerate
        → All (λ (x : ProviderBid). c.min_feerate ≤ x.min_feerate) bs
        → All (λ (x : ProviderBid). b.min_feerate ≤ x.min_feerate) bs
    above [] le h = tt
    above (x ∷ bs) le h = (omega (arith, h.0), above bs le h.1)

-- The sorted bids are the bids in another order, from the lowest feerate to the highest.
pub sort_bids-IsAscending :
    (bids : List ProviderBid) → Perm (sort_bids bids) bids × IsAscending (sort_bids bids)
unfolding sort_bids
sort_bids-IsAscending bids = (sort_bids-perm bids, ascending bids)
  where
    ascending : (bids : List ProviderBid) → IsAscending (sort_bids bids)
    ascending [] = tt
    ascending (b ∷ bids) = insert_bid-IsAscending b (sort_bids bids) (ascending bids)
