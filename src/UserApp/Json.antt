-- ===== src/UserApp/Json.antt =====
-- A reader for the JSON that the proxies write: one flat object of strings without escapes and of
-- whole numbers, with no white space. What it accepts, `JSON.parse` of the pages reads alike.
pub mod RoundTrip
use nats_kv.Prelude.{
  ℕ, zero, suc, ◌+◌, ◌-◌, ◌*◌, Bool, ◌&&◌, ◌||◌, Option, none, some, List, [], ◌∷◌, leb, ltb, ◌==◌,
  ◌++◌, if◌then◌else◌, length,
}
use nats_kv.Text.{Text, is_empty, decimal}

pub data Json : Type 0 where
  str : Text → Json
  num : ℕ → Json

infixl 5 ◌>>=◌
abbrev ◌>>=◌ {ℓ κ} : {A : Type ℓ} {B : Type κ} → Option A → (A → Option B) → Option B
none >>= f = none
some a >>= f = f a

-- The characters up to the closing quote; an escape or a control character is refused.
read_chars : Text → Option (Text × Text)
read_chars [] = none
read_chars (c ∷ s) =
    let rest = read_chars s in
    if c == b'"'
    then some ([], s)
    else if c == b'\\' || ltb c 32
    then none
    else (do (w, s') ← rest; some (c ∷ w, s'))

is_digit : ℕ → Bool
is_digit c = leb b'0' c && leb c b'9'

-- The digits in front, added to `n`.
read_digits : ℕ → Text → ℕ × Text
read_digits n [] = (n, [])
read_digits n (c ∷ s) = if is_digit c then read_digits (n * 10 + (c - b'0')) s else (n, c ∷ s)

read_value : Text → Option (Json × Text)
read_value [] = none
read_value (c ∷ s) =
    if c == b'"'
    then (do (w, s') ← read_chars s; some (str w, s'))
    else if is_digit c
    then (let (n, s') = read_digits 0 (c ∷ s) in some (num n, s'))
    else none

expect : ℕ → Text → Option Text
expect d [] = none
expect d (c ∷ s) = if c == d then some s else none

-- `"name":value`
read_member : Text → Option (Text × Json × Text)
read_member s = do
  s₁ ← expect b'"' s
  (name, s₂) ← read_chars s₁
  s₃ ← expect b':' s₂
  (value, s₄) ← read_value s₃
  some (name, value, s₄)

-- What follows a member: another one, read by `more`, or the end.
after_member :
    Text × Json → (Text → Option (List (Text × Json))) → Text → Option (List (Text × Json))
after_member m more [] = none
after_member m more (c ∷ s) =
    if c == b','
    then (do ms ← more s; some (m ∷ ms))
    else if c == b'}' && is_empty s
    then some (m ∷ [])
    else none

-- A text has fewer members than characters, which bounds the rounds.
read_members : ℕ → Text → Option (List (Text × Json))
read_members zero s = none
read_members (suc fuel) s = do
  (name, value, s') ← read_member s
  after_member (name, value) (read_members fuel) s'

unfoldable pub read_object : Text → Option (List (Text × Json))
unfolding read_chars is_digit read_digits read_value expect read_member after_member read_members
    is_empty
read_object s = do s' ← expect b'{' s; read_members (length s') s'

-- The same objects, written.
render_member : Text × Json → Text → Text
render_member (k, str v) rest = b'"' ∷ (k ++ (b'"' ∷ b':' ∷ b'"' ∷ (v ++ b'"' ∷ rest)))
render_member (k, num n) rest = b'"' ∷ (k ++ (b'"' ∷ b':' ∷ (decimal n ++ rest)))

render_members : Text × Json → List (Text × Json) → Text
render_members m [] = render_member m (b'}' ∷ [])
render_members m (m' ∷ ms) = render_member m (b',' ∷ render_members m' ms)

unfoldable pub render : Text × Json → List (Text × Json) → Text
unfolding render_member render_members
render m ms = b'{' ∷ render_members m ms
