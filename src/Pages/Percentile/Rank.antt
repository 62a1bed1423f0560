-- ===== src/Pages/Percentile/Rank.antt =====
-- The rank of a percentile among the latencies.
use nats_kv.Prelude.{
  ℕ, zero, suc, ◌-◌, ◌*◌, ◌/◌, ◌≤◌, ◌<◌, min, ◌≡◌, refl, ◌∙◌, Bool, List, [], ◌∷◌, arith, length,
  get_or, leb, ltb, if◌then◌else◌, All, Bool-cases, inl, inr,
}
use nats_kv.Pages.Percentile.{insert, sort, p}

-- How many pass the test.
abbrev pub count : (ℕ → Bool) → List ℕ → ℕ
count test [] = 0
count test (x ∷ xs) = let rest = count test xs in if test x then suc rest else rest

abbrev pub IsSorted : List ℕ → Type 0
IsSorted [] = Unit
IsSorted (x ∷ xs) = All (λ y. x ≤ y) xs × IsSorted xs

count-insert :
    (test : ℕ → Bool) (x : ℕ) (ys : List ℕ) → count test (insert x ys) ≡ count test (x ∷ ys)
unfolding insert
count-insert test x [] = refl
count-insert test x (y ∷ ys) = ground (arith, count-insert test x ys)

count-sort : (test : ℕ → Bool) (xs : List ℕ) → count test (sort xs) ≡ count test xs
unfolding sort
count-sort test [] = refl
count-sort test (x ∷ xs) = count-insert test x (sort xs) ∙ ground (arith, count-sort test xs)

length-insert : (x : ℕ) (ys : List ℕ) → length (insert x ys) ≡ suc (length ys)
unfolding insert
length-insert x [] = refl
length-insert x (y ∷ ys) = ground (arith, length-insert x ys)

pub length-sort : (xs : List ℕ) → length (sort xs) ≡ length xs
unfolding sort
length-sort [] = refl
length-sort (x ∷ xs) = omega (arith, length-insert x (sort xs), length-sort xs)

All-weaken : (x y : ℕ) (ys : List ℕ) → x ≤ y → All (λ z. y ≤ z) ys → All (λ z. x ≤ z) ys
All-weaken x y [] h a = tt
All-weaken x y (z ∷ zs) h (q, a) = (omega arith, All-weaken x y zs h a)

All-insert : (y x : ℕ) (ys : List ℕ) → y ≤ x → All (λ z. y ≤ z) ys → All (λ z. y ≤ z) (insert x ys)
unfolding insert
All-insert y x [] h a = (h, tt)
All-insert y x (z ∷ zs) h (q, a) = elim (Bool-cases (leb x z)) [
  | inl e ↦ rw e (h, (q, a))
  | inr e ↦ rw e (q, All-insert y x zs h a)
]

insert-IsSorted : (x : ℕ) (ys : List ℕ) → IsSorted ys → IsSorted (insert x ys)
unfolding insert
insert-IsSorted x [] s = (tt, tt)
insert-IsSorted x (y ∷ ys) (a, s) = elim (Bool-cases (leb x y)) [
  | inl e ↦ let q : x ≤ y = ground arith in rw e ((q, All-weaken x y ys q a), (a, s))
  | inr e ↦ let q : y ≤ x = ground arith in rw e (All-insert y x ys q a, insert-IsSorted x ys s)
]

pub sort-IsSorted : (xs : List ℕ) → IsSorted (sort xs)
unfolding sort
sort-IsSorted [] = tt
sort-IsSorted (x ∷ xs) = insert-IsSorted x (sort xs) (sort-IsSorted xs)

none_below : (x : ℕ) (ys : List ℕ) → All (λ y. x ≤ y) ys → count (λ y. ltb y x) ys ≡ 0
none_below x [] a = refl
none_below x (y ∷ ys) (q, a) = ground (arith, none_below x ys a)

pub All-get_or :
    (x : ℕ) (ys : List ℕ) (i : ℕ) → All (λ y. x ≤ y) ys → i < length ys → x ≤ get_or ys i 0
All-get_or x [] i a h = omega arith
All-get_or x (y ∷ ys) zero (q, a) h = q
All-get_or x (y ∷ ys) (suc i) (q, a) h = All-get_or x ys i a (omega arith)

-- In a sorted list the element with an index has that rank.
sorted_rank :
    (xs : List ℕ) (i : ℕ)
    → IsSorted xs
    → i < length xs
    → (i < count (λ y. leb y (get_or xs i 0)) xs) × (count (λ y. ltb y (get_or xs i 0)) xs ≤ i)
sorted_rank [] i s h = omega arith
sorted_rank (x ∷ xs) zero (a, s) h = (ground arith, ground (arith, none_below x xs a))
sorted_rank (x ∷ xs) (suc i) (a, s) h =
    let (up, down) = sorted_rank xs i s (omega arith) in
    let low = All-get_or x xs i a (omega arith) in (ground arith, ground arith)

-- The percentile of the latencies measured, of which there is one at least, has its rank: more
-- than the `q`-th part of them, or all of them, are no higher; and at most the `q`-th part of them
-- are lower.
pub p_rank :
    (xs : List ℕ) (q : ℕ)
    → 0 < length xs
    → (min (length xs - 1) (length xs * q / 100) < count (λ y. leb y (p xs q)) xs)
      × (count (λ y. ltb y (p xs q)) xs ≤ length xs * q / 100)
unfolding p
p_rank [] q h = omega arith
p_rank (x ∷ xs) q h =
    let l = length-sort (x ∷ xs) in
    let i = min (length (sort (x ∷ xs)) - 1) (length (sort (x ∷ xs)) * q / 100) in
    let (up, down) = sorted_rank (sort (x ∷ xs)) i (sort-IsSorted (x ∷ xs)) (omega (arith, l)) in
    let below : i ≤ length (x ∷ xs) * q / 100 = rw l (omega arith) in
    let v = get_or (sort (x ∷ xs)) i 0 in
    let r = count-sort (λ y. leb y v) (x ∷ xs) in
    let s = count-sort (λ y. ltb y v) (x ∷ xs) in (rw (← r, ← l) up, rw (← s) (omega arith))
