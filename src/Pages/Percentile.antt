-- ===== src/Pages/Percentile.antt =====
-- `p` of the load test page of ui/nats-kv-user/src/lib.rs: a percentile of the latencies measured.
-- A latency is a number of ticks of the browser's clock; a quantile is a number of hundredths, for
-- the code calls `p` with 0.50, 0.95 and 0.99 alone.
pub mod Rank
use nats_kv.Prelude.{
  ℕ, ◌+◌, ◌-◌, ◌*◌, ◌/◌, min, Bool, List, [], ◌∷◌, length, get_or, leb, if◌then◌else◌,
}

unfoldable pub insert : ℕ → List ℕ → List ℕ
insert x [] = x ∷ []
insert x (y ∷ ys) = let rest = insert x ys in if leb x y then x ∷ y ∷ ys else y ∷ rest

-- `[...arr].sort((a, b) => a - b)`
unfoldable pub sort : List ℕ → List ℕ
unfolding insert
sort [] = []
sort (x ∷ xs) = insert x (sort xs)

-- `p(arr, q)`
unfoldable pub p : List ℕ → ℕ → ℕ
unfolding sort
p [] q = 0
p (x ∷ xs) q =
    let sorted = sort (x ∷ xs) in
    get_or sorted (min (length sorted - 1) (length sorted * q / 100)) 0
