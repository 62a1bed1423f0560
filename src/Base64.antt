-- ===== src/Base64.antt =====
-- `b64encode` of ui/nats-kv-user/src/lib.rs, which wraps the bytes of an upstream body in a JSON
-- string, and the decoder of RFC 4648 that its readers apply.
pub mod Groups
pub mod RoundTrip
pub mod Shape
use nats_kv.Prelude.{
  ℕ, ◌+◌, ◌-◌, ◌*◌, ◌/◌, ◌%◌, ◌^◌, ◌&&◌, Bool, true, false, Option, none, some, List, [], ◌∷◌,
  bit_and, bit_or, leb, ◌==◌, if◌then◌else◌, get_or,
}
use nats_kv.Text.{Text, codes}

abbrev tbl : Text
tbl = codes "ABCDEFGHIJKLMNOPQRSTUVWXYZabcdefghijklmnopqrstuvwxyz0123456789+/"

-- `x << k` on u32
abbrev shl : ℕ → ℕ → ℕ
shl x k = x * 2 ^ k % 2 ^ 32

-- `TBL[i]`; the masks below keep the index inside the table.
pub letter : ℕ → ℕ
letter i = get_or tbl i 0

-- `TBL[((n >> k) & 0x3f) as usize]`
sextet : ℕ → ℕ → ℕ
unfolding letter
sextet n k = letter (bit_and (n / 2 ^ k) 0x3f)

abbrev word3 : ℕ → ℕ → ℕ → ℕ
word3 a b c = bit_or (bit_or (shl a 16) (shl b 8)) c

abbrev word2 : ℕ → ℕ → ℕ
word2 a b = bit_or (shl a 16) (shl b 8)

-- The loop takes three bytes a round; the last one or two are padded.
unfoldable pub b64encode : List ℕ → Text
unfolding sextet
b64encode (a ∷ b ∷ c ∷ rest) =
    let n = word3 a b c in sextet n 18 ∷ sextet n 12 ∷ sextet n 6 ∷ sextet n 0 ∷ b64encode rest
b64encode (a ∷ b ∷ []) = let n = word2 a b in sextet n 18 ∷ sextet n 12 ∷ sextet n 6 ∷ b'=' ∷ []
b64encode (a ∷ []) = let n = shl a 16 in sextet n 18 ∷ sextet n 12 ∷ b'=' ∷ b'=' ∷ []
b64encode [] = []

-- The value of a character of the alphabet of RFC 4648, section 4.
unfoldable pub char_value : ℕ → Option ℕ
char_value c =
    if leb b'A' c && leb c b'Z'
    then some (c - 65)
    else if leb b'a' c && leb c b'z'
    then some (c - 71)
    else if leb b'0' c && leb c b'9'
    then some (c + 4)
    else if c == b'+'
    then some 62
    else if c == b'/'
    then some 63
    else none

infixl 5 ◌>>=◌
abbrev ◌>>=◌ {ℓ κ} : {A : Type ℓ} {B : Type κ} → Option A → (A → Option B) → Option B
none >>= f = none
some a >>= f = f a

abbrev is_last : Text → Bool
is_last [] = true
is_last (_ ∷ _) = false

one_byte : ℕ → ℕ → Option (List ℕ)
one_byte p q = do x ← char_value p; y ← char_value q; some ((x * 4 + y / 16) ∷ [])

two_bytes : ℕ → ℕ → ℕ → Option (List ℕ)
two_bytes p q r = do
  x ← char_value p
  y ← char_value q
  z ← char_value r
  some ((x * 4 + y / 16) ∷ (y % 16 * 16 + z / 4) ∷ [])

three_bytes : ℕ → ℕ → ℕ → ℕ → Option (List ℕ) → Option (List ℕ)
three_bytes p q r s more = do
  x ← char_value p
  y ← char_value q
  z ← char_value r
  w ← char_value s
  rest ← more
  some ((x * 4 + y / 16) ∷ (y % 16 * 16 + z / 4) ∷ (z % 4 * 64 + w) ∷ rest)

-- Groups of four characters; padding stands in the last group only.
unfoldable pub b64decode : Text → Option (List ℕ)
unfolding char_value one_byte two_bytes three_bytes
b64decode [] = some []
b64decode (p ∷ q ∷ r ∷ s ∷ rest) =
    let more = b64decode rest in
    if r == b'=' && s == b'=' && is_last rest
    then one_byte p q
    else if s == b'=' && is_last rest
    then two_bytes p q r
    else three_bytes p q r s more
b64decode _ = none
