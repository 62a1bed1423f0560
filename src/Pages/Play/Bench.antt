-- ===== src/Pages/Play/Bench.antt =====
-- `stats` of `runBench` in ui/nats-kv-user/src/lib.rs. A time is a number of microseconds, a
-- quantile a number of hundredths, for the code asks for 0.5, 0.9 and 0.99 alone, and a mean is
-- kept as a sum and a count.
pub mod Spread
use nats_kv.Prelude.{
  ℕ, zero, suc, ◌+◌, ◌-◌, ◌*◌, ◌/◌, Option, none, some, List, [], ◌∷◌, length, get_or,
}
use nats_kv.Pages.Percentile.{sort}

pub record Stats : Type 0 where
  pub lowest : ℕ
  pub p50 : ℕ
  pub p90 : ℕ
  pub p99 : ℕ
  pub highest : ℕ
  pub mean : ℕ × ℕ

abbrev pub sum : List ℕ → ℕ
sum [] = 0
sum (x ∷ xs) = x + sum xs

-- `sorted[Math.floor((sorted.length - 1) * q)]`
abbrev pub quantile : List ℕ → ℕ → ℕ
quantile sorted q = get_or sorted ((length sorted - 1) * q / 100) 0

-- `stats`. Of no times it has no numbers, and what shows them throws.
unfoldable pub stats : List ℕ → Option Stats
unfolding sort
stats [] = none
stats (x ∷ xs) =
    let sorted = sort (x ∷ xs) in
    some (record {
      lowest = get_or sorted 0 0;
      p50 = quantile sorted 50;
      p90 = quantile sorted 90;
      p99 = quantile sorted 99;
      highest = get_or sorted (length sorted - 1) 0;
      mean = (sum (x ∷ xs), length (x ∷ xs));
    })
