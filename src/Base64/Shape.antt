-- ===== src/Base64/Shape.antt =====
-- The length and the alphabet of what `b64encode` writes.
use nats_kv.Prelude.{
  ℕ, ◌+◌, ◌*◌, ◌/◌, ◌%◌, ◌<◌, ◌≡◌, refl, ◌≢◌, ◌⊎◌, inl, inr, none, List, [], ◌∷◌, arith, length,
  All,
}
use nats_kv.Base64.{letter, b64encode, char_value}
use nats_kv.Base64.Groups.{IsByte, char_value-letter, encode_one, encode_two, encode_three}

-- A letter of the alphabet of RFC 4648, or the pad.
abbrev pub IsAlphabet : ℕ → Type 0
IsAlphabet c = (char_value c ≢ none) ⊎ (c ≡ b'=')

letter-IsAlphabet : (i : ℕ) → i < 64 → IsAlphabet (letter i)
letter-IsAlphabet i h = let e = (char_value-letter i h).0 in inl (λ d. cc)

-- The output for a list of bytes has four characters for every three bytes begun, which is the
-- capacity that the code reserves, and every character is of the alphabet or a pad.
pub b64encode_shape :
    (bytes : List ℕ)
    → All IsByte bytes
    → (length (b64encode bytes) ≡ (length bytes + 2) / 3 * 4) × All IsAlphabet (b64encode bytes)
b64encode_shape [] h = unfold b64encode in (refl, tt)
b64encode_shape (a ∷ []) (ha, _) = rw (encode_one a ha) (
  refl,
  (
    letter-IsAlphabet (a / 4) (omega arith),
    (letter-IsAlphabet (a % 4 * 16) (omega arith), (inr refl, (inr refl, tt))),
  ),
)
b64encode_shape (a ∷ b ∷ []) (ha, (hb, _)) = rw (encode_two a ha b hb) (
  refl,
  (
    letter-IsAlphabet (a / 4) (omega arith),
    (
      letter-IsAlphabet (a % 4 * 16 + b / 16) (omega arith),
      (letter-IsAlphabet (b % 16 * 4) (omega arith), (inr refl, tt)),
    ),
  ),
)
b64encode_shape (a ∷ b ∷ c ∷ rest) (ha, (hb, (hc, h))) =
    let (size, good) = b64encode_shape rest h in
    rw (encode_three a ha b hb c rest hc) (
      omega arith,
      (
        letter-IsAlphabet (a / 4) (omega arith),
        (
          letter-IsAlphabet (a % 4 * 16 + b / 16) (omega arith),
          (
            letter-IsAlphabet (b % 16 * 4 + c / 64) (omega arith),
            (letter-IsAlphabet (c % 64) (omega arith), good),
          ),
        ),
      ),
    )
