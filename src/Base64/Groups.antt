-- ===== src/Base64/Groups.antt =====
-- One round of the loop of `b64encode`: the words that it builds are sums of their bytes, and the
-- characters are the letters of their six-bit digits.
use nats_kv.Prelude.{
  ℕ, zero, suc, ◌+◌, ◌*◌, ◌/◌, ◌%◌, ◌^◌, ◌<◌, ◌≡◌, refl, ap, ◌∙◌, ◌≢◌, ◌&&◌, Bool, true, false,
  none, some, List, [], ◌∷◌, arith, ◌==◌, if◌then◌else◌,
}
use nats_kv.Prelude.Bits.{and_six_ones, or_disjoint}
use nats_kv.Base64.{shl, letter, sextet, word2, word3, b64encode, char_value}

abbrev pub IsByte : ℕ → Type 0
IsByte b = b < 256

-- What a six-bit value becomes is read back as that value, and is not the padding.
reads_back : ℕ → Bool
reads_back i = elim (char_value (letter i)) [
  | some v ↦ v == i && (if letter i == b'=' then false else true)
  | none ↦ false
]

all_below : ℕ → Bool
all_below zero = true
all_below (suc n) = reads_back n && all_below n

all_below_sound : (n i : ℕ) → all_below n ≡ true → i < n → reads_back i ≡ true
unfolding all_below
all_below_sound zero i h lt = absurd (omega arith)
all_below_sound (suc n) i h lt = ground (arith, all_below_sound n i)

table_checked : all_below 64 ≡ true
unfolding all_below reads_back char_value letter
table_checked = refl

pub char_value-letter : (i : ℕ) → i < 64 → (char_value (letter i) ≡ some i) × (letter i ≢ b'=')
unfolding reads_back
char_value-letter i h = let r = all_below_sound 64 i table_checked h in ground arith

-- The words that the loop builds are sums: the bytes do not overlap.
word2_lem : (a b : ℕ) → IsByte a → IsByte b → word2 a b ≡ a * 65536 + b * 256
word2_lem a b ha hb =
    rw (shl-small a ha, shl-small' b hb) (or_disjoint 16 a (b * 2 ^ 8) (omega arith))
  where
    shl-small : (x : ℕ) → x < 256 → shl x 16 ≡ x * 2 ^ 16
    shl-small x h = omega arith

    shl-small' : (x : ℕ) → x < 256 → shl x 8 ≡ x * 2 ^ 8
    shl-small' x h = omega arith

word3_lem : (a b c : ℕ) → IsByte a → IsByte b → IsByte c → word3 a b c ≡ a * 65536 + b * 256 + c
word3_lem a b c ha hb hc = rw (word2_lem a b ha hb, regroup) (or_disjoint 8 (a * 256 + b) c hc)
  where
    regroup : a * 65536 + b * 256 ≡ (a * 256 + b) * 2 ^ 8
    regroup = omega arith

sextet-eq : (n k i : ℕ) → n / 2 ^ k % 64 ≡ i → sextet n k ≡ letter i
unfolding sextet
sextet-eq n k i h = ap letter (and_six_ones (n / 2 ^ k) ∙ h)

-- Each character of a group as arithmetic on its bytes.
module _ (a : ℕ) (ha : IsByte a) where
  pub encode_one : b64encode (a ∷ []) ≡ letter (a / 4) ∷ letter (a % 4 * 16) ∷ b'=' ∷ b'=' ∷ []
  unfolding b64encode
  encode_one = cc (
    sextet-eq (shl a 16) 18 (a / 4) (omega arith),
    sextet-eq (shl a 16) 12 (a % 4 * 16) (omega arith),
  )

  module _ (b : ℕ) (hb : IsByte b) where
    pub encode_two :
        b64encode (a ∷ b ∷ [])
        ≡ letter (a / 4) ∷ letter (a % 4 * 16 + b / 16) ∷ letter (b % 16 * 4) ∷ b'=' ∷ []
    unfolding b64encode
    encode_two =
        let n = word2_lem a b ha hb in
        cc (
          sextet-eq (word2 a b) 18 (a / 4) (omega arith),
          sextet-eq (word2 a b) 12 (a % 4 * 16 + b / 16) (omega arith),
          sextet-eq (word2 a b) 6 (b % 16 * 4) (omega arith),
        )

    pub encode_three :
        (c : ℕ) (rest : List ℕ)
        → IsByte c
        → b64encode (a ∷ b ∷ c ∷ rest)
          ≡ letter (a / 4)
            ∷ letter (a % 4 * 16 + b / 16)
            ∷ letter (b % 16 * 4 + c / 64)
            ∷ letter (c % 64)
            ∷ b64encode rest
    unfolding b64encode
    encode_three c rest hc =
        let n = word3_lem a b c ha hb hc in
        cc (
          sextet-eq (word3 a b c) 18 (a / 4) (omega arith),
          sextet-eq (word3 a b c) 12 (a % 4 * 16 + b / 16) (omega arith),
          sextet-eq (word3 a b c) 6 (b % 16 * 4 + c / 64) (omega arith),
          sextet-eq (word3 a b c) 0 (c % 64) (omega arith),
        )
