-- ===== src/Pages/Play/Bench/Spread.antt =====
-- How the numbers of a benchmark lie.
use nats_kv.Prelude.{
  ℕ, zero, suc, ◌+◌, ◌-◌, ◌*◌, ◌/◌, ◌≤◌, ◌<◌, ◌≡◌, refl, sym, subst, some, List, [], ◌∷◌, arith,
  length, get_or,
}
use mathlib.Core.Option.{some-injective}
use nats_kv.Pages.Percentile.{insert, sort}
use nats_kv.Pages.Percentile.Rank.{IsSorted, length-sort, sort-IsSorted, All-get_or}
use nats_kv.Pages.Play.Bench.{Stats, sum, quantile, stats}

get_or_mono :
    (xs : List ℕ) (i j : ℕ) → IsSorted xs → i ≤ j → j < length xs → get_or xs i 0 ≤ get_or xs j 0
get_or_mono [] i j s h k = omega arith
get_or_mono (x ∷ xs) zero zero s h k = omega arith
get_or_mono (x ∷ xs) zero (suc j) (a, s) h k = All-get_or x xs j a (omega arith)
get_or_mono (x ∷ xs) (suc i) zero s h k = absurd (omega arith)
get_or_mono (x ∷ xs) (suc i) (suc j) (a, s) h k = get_or_mono xs i j s (omega arith) (omega arith)

sum-insert : (x : ℕ) (ys : List ℕ) → sum (insert x ys) ≡ x + sum ys
unfolding insert
sum-insert x [] = refl
sum-insert x (y ∷ ys) = ground (arith, sum-insert x ys)

sum-sort : (xs : List ℕ) → sum (sort xs) ≡ sum xs
unfolding sort
sum-sort [] = refl
sum-sort (x ∷ xs) = omega (arith, sum-insert x (sort xs), sum-sort xs)

sum_above :
    (m : ℕ) (xs : List ℕ) → ((i : ℕ) → i < length xs → m ≤ get_or xs i 0) → m * length xs ≤ sum xs
sum_above m [] h = omega arith
sum_above m (x ∷ xs) h =
    omega (arith, h 0 (omega arith), sum_above m xs (λ i k. h (suc i) (omega arith)))

sum_below :
    (m : ℕ) (xs : List ℕ) → ((i : ℕ) → i < length xs → get_or xs i 0 ≤ m) → sum xs ≤ m * length xs
sum_below m [] h = omega arith
sum_below m (x ∷ xs) h =
    omega (arith, h 0 (omega arith), sum_below m xs (λ i k. h (suc i) (omega arith)))

abbrev pub IsSpread : Stats → Type 0
IsSpread s =
    (s.lowest ≤ s.p50)
    × (s.p50 ≤ s.p90)
    × (s.p90 ≤ s.p99)
    × (s.p99 ≤ s.highest)
    × (s.lowest * s.mean.1 ≤ s.mean.0)
    × (s.mean.0 ≤ s.highest * s.mean.1)

-- The numbers, read off a sorted list.
abbrev read_off : List ℕ → ℕ → ℕ → Stats
read_off ys total n = record {
  lowest = get_or ys 0 0;
  p50 = quantile ys 50;
  p90 = quantile ys 90;
  p99 = quantile ys 99;
  highest = get_or ys (length ys - 1) 0;
  mean = (total, n);
}

read_off-IsSpread :
    (ys : List ℕ) (total n : ℕ)
    → IsSorted ys
    → 0 < n
    → total ≡ sum ys
    → n ≡ length ys
    → IsSpread (read_off ys total n)
read_off-IsSpread ys total n sorted pos t l =
    let step : (i j : ℕ) → i ≤ j → j < length ys → get_or ys i 0 ≤ get_or ys j 0 =
      λ i j h k. get_or_mono ys i j sorted h k in
    (
      step 0 ((length ys - 1) * 50 / 100) (omega arith) (omega arith),
      step ((length ys - 1) * 50 / 100) ((length ys - 1) * 90 / 100) (omega arith) (omega arith),
      step ((length ys - 1) * 90 / 100) ((length ys - 1) * 99 / 100) (omega arith) (omega arith),
      step ((length ys - 1) * 99 / 100) (length ys - 1) (omega arith) (omega arith),
      rw (t, l) (sum_above (get_or ys 0 0) ys (λ i k. step 0 i (omega arith) k)),
      rw (t, l)
          (sum_below (get_or ys (length ys - 1) 0) ys
            (λ i k. step i (length ys - 1) (omega arith) (omega arith))),
    )

-- The five numbers of a column of the benchmark come in their order, and its mean lies between the
-- lowest and the highest.
pub stats-IsSpread : (xs : List ℕ) (s : Stats) → stats xs ≡ some s → IsSpread s
unfolding stats
stats-IsSpread [] s h = cc
stats-IsSpread (x ∷ xs) s h = subst IsSpread (some-injective _ _ h) (
    read_off-IsSpread (sort (x ∷ xs)) (sum (x ∷ xs)) (length (x ∷ xs)) (sort-IsSorted (x ∷ xs))
      (omega arith) (sym (sum-sort (x ∷ xs))) (sym (length-sort (x ∷ xs))))
