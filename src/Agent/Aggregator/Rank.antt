-- ===== src/Agent/Aggregator/Rank.antt =====
-- internal/agent/aggregator/aggregator.go: the rank of the value that `percentile` returns.
use native.Mathlib.Nat.{mul-le-mul_right}
use intelligent_odoo_dev_too.Prelude.{
  ℕ, zero, suc, ◌≤◌, ◌<◌, ◌≡◌, refl, inl, inr, Bool, true, ◌&&◌, List, [], ◌∷◌, arith, length,
  get_or, all, count_if, Bool-cases, &&-eq-true_iff, ◌*◌, ◌/◌,
}
use intelligent_odoo_dev_too.Prelude.Int.{ℤ, pos, ltb_ℤ, leb_ℤ}
use intelligent_odoo_dev_too.Agent.Aggregator.{insert, sort, rank_of, percentile}

insert-count : (p : ℤ → Bool) (a : ℤ) (xs : List ℤ) → count_if p (insert a xs) ≡ count_if p (a ∷ xs)
unfolding insert
insert-count p a [] = refl
insert-count p a (b ∷ xs) = ground (arith, insert-count p a xs)

sort-count : (p : ℤ → Bool) (xs : List ℤ) → count_if p (sort xs) ≡ count_if p xs
unfolding sort
sort-count p [] = refl
sort-count p (a ∷ xs) = ground (arith, insert-count p a (sort xs), sort-count p xs)

length-insert : (a : ℤ) (xs : List ℤ) → length (insert a xs) ≡ suc (length xs)
unfolding insert
length-insert a [] = refl
length-insert a (b ∷ xs) = ground (arith, length-insert a xs)

length-sort : (xs : List ℤ) → length (sort xs) ≡ length xs
unfolding sort
length-sort [] = refl
length-sort (a ∷ xs) = omega (arith, length-insert a (sort xs), length-sort xs)

-- Each value is at most every later one.
abbrev is_sorted : List ℤ → Bool
is_sorted [] = true
is_sorted (a ∷ xs) = all (leb_ℤ a) xs && is_sorted xs

leb_ℤ_trans : (a b c : ℤ) → leb_ℤ a b ≡ true → leb_ℤ b c ≡ true → leb_ℤ a c ≡ true
leb_ℤ_trans a b c h k = ground arith

all_trans :
    (a b : ℤ) (xs : List ℤ) → leb_ℤ a b ≡ true → all (leb_ℤ b) xs ≡ true → all (leb_ℤ a) xs ≡ true
all_trans a b [] h k = refl
all_trans a b (c ∷ xs) h k =
    let (first, rest) = (&&-eq-true_iff _ _).0 k in
    (&&-eq-true_iff _ _).1 (leb_ℤ_trans a b c h first, all_trans a b xs h rest)

all-insert :
    (b a : ℤ) (xs : List ℤ)
    → leb_ℤ b a ≡ true
    → all (leb_ℤ b) xs ≡ true
    → all (leb_ℤ b) (insert a xs) ≡ true
unfolding insert
all-insert b a [] h k = ground (arith, h)
all-insert b a (c ∷ xs) h k = ground (arith, h, k, all-insert b a xs)

insert-sorted : (a : ℤ) (xs : List ℤ) → is_sorted xs ≡ true → is_sorted (insert a xs) ≡ true
unfolding insert
insert-sorted a [] h = refl
insert-sorted a (b ∷ xs) h =
    let (below, rest) = (&&-eq-true_iff _ _).0 h in
    elim (Bool-cases (leb_ℤ a b)) [
      | inl e ↦
          rw e ((&&-eq-true_iff _ _).1 ((&&-eq-true_iff _ _).1 (e, all_trans a b xs e below), h))
      | inr e ↦
          let back : leb_ℤ b a ≡ true = ground arith in
          rw e ((&&-eq-true_iff _ _).1 (all-insert b a xs back below, insert-sorted a xs rest))
    ]

sort-sorted : (xs : List ℤ) → is_sorted (sort xs) ≡ true
unfolding sort
sort-sorted [] = refl
sort-sorted (a ∷ xs) = insert-sorted a (sort xs) (sort-sorted xs)

none_below : (a : ℤ) (xs : List ℤ) → all (leb_ℤ a) xs ≡ true → count_if (λ x. ltb_ℤ x a) xs ≡ 0
none_below a [] h = refl
none_below a (x ∷ xs) h = ground (arith, h, none_below a xs)

all-get_or :
    (a : ℤ) (xs : List ℤ) (i : ℕ) (d : ℤ)
    → all (leb_ℤ a) xs ≡ true
    → i < length xs
    → leb_ℤ a (get_or xs i d) ≡ true
all-get_or a [] i d h k = absurd (omega arith)
all-get_or a (x ∷ xs) zero d h k = ((&&-eq-true_iff _ _).0 h).0
all-get_or a (x ∷ xs) (suc i) d h k = all-get_or a xs i d ((&&-eq-true_iff _ _).0 h).1 (omega arith)

-- The value at a place of a sorted list: at most as many are smaller as there are places before it,
-- and more than that are not greater.
sorted_rank :
    (xs : List ℤ) (i : ℕ) (d : ℤ)
    → is_sorted xs ≡ true
    → i < length xs
    → (count_if (λ x. ltb_ℤ x (get_or xs i d)) xs ≤ i)
      × (i < count_if (λ x. leb_ℤ x (get_or xs i d)) xs)
sorted_rank [] i d h k = absurd (omega arith)
sorted_rank (a ∷ xs) zero d h k =
    let (below, rest) = (&&-eq-true_iff _ _).0 h in
    (ground (arith, none_below a xs below), ground arith)
sorted_rank (a ∷ xs) (suc i) d h k =
    let (below, rest) = (&&-eq-true_iff _ _).0 h in
    let (fewer, more) = sorted_rank xs i d rest (omega arith) in
    let first = all-get_or a xs i d below (omega arith) in
    (ground (arith, fewer), ground (arith, more, first))

rank_of-lt : (n p : ℕ) → 0 < n → p < 100 → (rank_of n p ≡ p * n / 100) × (rank_of n p < n)
rank_of-lt n p h k =
    let small : p * n ≤ 99 * n = mul-le-mul_right n (omega arith) in
    let below : p * n / 100 < n = omega (arith, small) in
    (ground (arith, below), ground (arith, below))

-- The value that `percentile` returns for a `p` below 100, of values that there are: at most `p` in
-- a hundred of them are smaller than it, and more than `p` in a hundred are not greater.
pub percentile-rank :
    (values : List ℤ) (p : ℕ)
    → 0 < length values
    → p < 100
    → (100 * count_if (λ x. ltb_ℤ x (percentile values p)) values ≤ p * length values)
      × (p * length values < 100 * count_if (λ x. leb_ℤ x (percentile values p)) values)
unfolding percentile
percentile-rank [] p h k = absurd (omega arith)
percentile-rank (v ∷ vs) p h k =
    let n = length (v ∷ vs) in
    let (at, inside) = rank_of-lt n p h k in
    let sorted = sort (v ∷ vs) in
    let (fewer, more) =
      sorted_rank sorted (rank_of n p) (pos 0) (sort-sorted (v ∷ vs))
        (omega (arith, inside, length-sort (v ∷ vs))) in
    let value = get_or sorted (rank_of n p) (pos 0) in
    (
      omega (arith, fewer, at, sort-count (λ x. ltb_ℤ x value) (v ∷ vs)),
      omega (arith, more, at, sort-count (λ x. leb_ℤ x value) (v ∷ vs)),
    )
