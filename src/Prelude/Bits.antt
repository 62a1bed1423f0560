-- ===== src/Prelude/Bits.antt =====
-- Bit operations on words as arithmetic: the mask of six ones, and an `or` of disjoint parts.
use Prim.Native.Nat.{
  ℕ, zero, suc, ◌+◌, ◌*◌, ◌/◌, ◌%◌, ◌^◌, ◌≤◌, ◌<◌, min, max, bit_and, bit_or, digits,
  bit_and-bitwise, bit_or-bitwise,
}
use mathlib.Core.Path.{◌≡◌, refl, ap, ◌∙◌}
use native.Mathlib.Nat.{pow-suc}
use native.Mathlib.Omega.{arith}

-- Both operations walk the digits of the first number, with a count of digits to go.
module _ (z : ℕ → ℕ) (f : ℕ → ℕ → ℕ) where
  -- The count does not matter, once it is large enough.
  digits-count : (n m a b : ℕ) → a ≤ n → a ≤ m → digits z f n a b ≡ digits z f m a b
  digits-count n m zero b p q = digits-zero n b ∙ omega (arith, digits-zero m b)
    where
      digits-zero : (k c : ℕ) → digits z f k 0 c ≡ z c
      digits-zero zero c = refl
      digits-zero (suc k) c = refl
  digits-count zero m (suc a) b p q = absurd (omega arith)
  digits-count (suc n) zero (suc a) b p q = absurd (omega arith)
  digits-count (suc n) (suc m) (suc a) b p q =
      ap (λ (t : ℕ). t * 2 + f (suc a % 2) (b % 2))
        (digits-count n m (suc a / 2) (b / 2) (omega arith) (omega arith))

  digits_step :
      (a b : ℕ)
      → digits z f (suc a) (suc a) b
        ≡ digits z f (suc a / 2) (suc a / 2) (b / 2) * 2 + f (suc a % 2) (b % 2)
  digits_step a b =
      ap (λ (t : ℕ). t * 2 + f (suc a % 2) (b % 2))
        (digits-count a (suc a / 2) (suc a / 2) (b / 2) (omega arith) (omega arith))

and_step : (a b : ℕ) → bit_and a b ≡ bit_and (a / 2) (b / 2) * 2 + min (a % 2) (b % 2)
and_step zero b = omega (arith, bit_and-bitwise 0 b, bit_and-bitwise 0 (b / 2))
and_step (suc a) b = omega (
  arith,
  bit_and-bitwise (suc a) b,
  bit_and-bitwise (suc a / 2) (b / 2),
  digits_step (λ _. 0) min a b,
)

or_step : (a b : ℕ) → bit_or a b ≡ bit_or (a / 2) (b / 2) * 2 + max (a % 2) (b % 2)
or_step zero b = omega (arith, bit_or-bitwise 0 b, bit_or-bitwise 0 (b / 2))
or_step (suc a) b = omega (
  arith,
  bit_or-bitwise (suc a) b,
  bit_or-bitwise (suc a / 2) (b / 2),
  digits_step (λ c. c) max a b,
)

-- `x` bounds the number of digits, for the induction.
and-none : (x a : ℕ) → a ≤ x → bit_and a 0 ≡ 0
and-none zero a h = omega (arith, bit_and-bitwise a 0, ap (λ (t : ℕ). bit_and t 0) (is_zero a h))
  where
    is_zero : (c : ℕ) → c ≤ 0 → c ≡ 0
    is_zero c k = omega arith
and-none (suc x) a h = omega (arith, and_step a 0, and-none x (a / 2) (omega arith))

or-none : (x a : ℕ) → a ≤ x → bit_or a 0 ≡ a
or-none zero zero h = omega (arith, bit_or-bitwise 0 0)
or-none zero (suc a) h = absurd (omega arith)
or-none (suc x) a h = omega (arith, or_step a 0, or-none x (a / 2) (omega arith))

-- A mask of ones costs a step for each one.
and_three_ones : (a : ℕ) → bit_and a 7 ≡ a % 8
and_three_ones a = omega (
  arith,
  and_step a 7,
  and_step (a / 2) 3,
  and_step (a / 2 / 2) 1,
  and-none (a / 2 / 2 / 2) (a / 2 / 2 / 2) (omega arith),
)

-- `a & 0x3f` is the remainder by 64.
pub and_six_ones : (a : ℕ) → bit_and a 0x3f ≡ a % 64
and_six_ones a = omega (
  arith,
  and_step a 63,
  and_step (a / 2) 31,
  and_step (a / 2 / 2) 15,
  and_three_ones (a / 2 / 2 / 2),
)

even_part : (w y : ℕ) → bit_or w (y / 2) ≡ w + y / 2 → bit_or (w * 2) y ≡ w * 2 + y
even_part w y h = omega (arith, or_step (w * 2) y, ap (λ (t : ℕ). bit_or t (y / 2)) half)
  where
    half : w * 2 / 2 ≡ w
    half = omega arith

-- An `or` of parts that share no bit is their sum.
pub or_disjoint : (k x y : ℕ) → y < 2 ^ k → bit_or (x * 2 ^ k) y ≡ x * 2 ^ k + y
or_disjoint zero x zero h = omega (arith, or-none (x * 1) (x * 1) (omega arith))
or_disjoint zero x (suc y) h = absurd (omega arith)
or_disjoint (suc k) x y h = rw double (even_part (x * 2 ^ k) y (or_disjoint k x (y / 2) below))
  where
    double : x * 2 ^ suc k ≡ x * 2 ^ k * 2
    double = rw pow-suc (omega arith)

    below : y / 2 < 2 ^ k
    below = omega (arith, pow-suc 2 k)
