-- ===== src/Base64/RoundTrip.antt =====
-- Decoding gives back the bytes that `b64encode` was given.
use nats_kv.Prelude.{
  ℕ, ◌+◌, ◌*◌, ◌/◌, ◌%◌, ◌<◌, ◌≡◌, refl, ap, ◌∙◌, some, List, [], ◌∷◌, arith, All,
}
use nats_kv.Base64.{letter, b64encode, b64decode}
use nats_kv.Base64.Groups.{IsByte, char_value-letter, encode_one, encode_two, encode_three}

module _ (i j : ℕ) (hi : i < 64) (hj : j < 64) where
  -- A last group of two characters and two pads is one byte.
  decode_one : b64decode (letter i ∷ letter j ∷ b'=' ∷ b'=' ∷ []) ≡ some ((i * 4 + j / 16) ∷ [])
  unfolding b64decode
  decode_one = rw ((char_value-letter i hi).0, (char_value-letter j hj).0)

  module _ (k : ℕ) (hk : k < 64) where
    -- A last group of three characters and a pad is two bytes.
    decode_two :
        b64decode (letter i ∷ letter j ∷ letter k ∷ b'=' ∷ [])
        ≡ some ((i * 4 + j / 16) ∷ (j % 16 * 16 + k / 4) ∷ [])
    unfolding b64decode
    decode_two =
        ground (arith, char_value-letter i hi, char_value-letter j hj, char_value-letter k hk)

    -- A full group is three bytes, followed by what the rest decodes to.
    decode_three :
        (l : ℕ) (rest : List ℕ) (bytes : List ℕ)
        → l < 64
        → b64decode rest ≡ some bytes
        → b64decode (letter i ∷ letter j ∷ letter k ∷ letter l ∷ rest)
          ≡ some ((i * 4 + j / 16) ∷ (j % 16 * 16 + k / 4) ∷ (k % 4 * 64 + l) ∷ bytes)
    unfolding b64decode
    decode_three l rest bytes hl h = ground (
      arith,
      char_value-letter i hi,
      char_value-letter j hj,
      char_value-letter k hk,
      char_value-letter l hl,
    )

-- The bytes that the decoder puts together from those characters.
first_byte : (a b : ℕ) → IsByte a → IsByte b → a / 4 * 4 + (a % 4 * 16 + b / 16) / 16 ≡ a
first_byte a b ha hb = omega arith

second_byte :
    (a b c : ℕ)
    → IsByte b
    → IsByte c
    → (a % 4 * 16 + b / 16) % 16 * 16 + (b % 16 * 4 + c / 64) / 4 ≡ b
second_byte a b c hb hc = omega arith

third_byte : (b c : ℕ) → IsByte c → (b % 16 * 4 + c / 64) % 4 * 64 + c % 64 ≡ c
third_byte b c hc = omega arith

decode_last :
    (a b : ℕ) → IsByte a → IsByte b → b64decode (b64encode (a ∷ b ∷ [])) ≡ some (a ∷ b ∷ [])
decode_last a b ha hb =
    let low : (a % 4 * 16 + b / 16) % 16 * 16 + b % 16 * 4 / 4 ≡ b = omega arith in
    ap b64decode (encode_two a ha b hb)
    ∙ decode_two (a / 4) (a % 4 * 16 + b / 16) (omega arith) (omega arith) (b % 16 * 4)
        (omega arith)
    ∙ cc (first_byte a b ha hb)

-- Decoding what `b64encode` wrote of a list of bytes, by RFC 4648, gives back the list.
pub b64decode-b64encode :
    (bytes : List ℕ) → All IsByte bytes → b64decode (b64encode bytes) ≡ some bytes
b64decode-b64encode [] h = unfold b64encode b64decode in refl
b64decode-b64encode (a ∷ []) (ha, _) =
    rw (encode_one a ha, decode_one (a / 4) (a % 4 * 16) (omega arith) (omega arith))
      (ap (λ x. some (x ∷ [])) (omega arith))
b64decode-b64encode (a ∷ b ∷ []) (ha, (hb, _)) = decode_last a b ha hb
b64decode-b64encode (a ∷ b ∷ c ∷ rest) (ha, (hb, (hc, h))) =
    let ih = b64decode-b64encode rest h in
    let j = a % 4 * 16 + b / 16 in
    let k = b % 16 * 4 + c / 64 in
    ap b64decode (encode_three a ha b hb c rest hc)
    ∙ decode_three (a / 4) j (omega arith) (omega arith) k (omega arith) (c % 64) (b64encode rest)
        rest (omega arith) ih
    ∙ cc (first_byte a b ha hb, second_byte a b c hb hc, third_byte b c hc)
