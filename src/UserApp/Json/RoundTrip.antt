-- ===== src/UserApp/Json/RoundTrip.antt =====
-- The reader reads back what is rendered.
use nats_kv.Prelude.{
  ℕ, zero, suc, ◌+◌, ◌-◌, ◌*◌, ◌/◌, ◌%◌, ◌≤◌, ◌<◌, ◌≡◌, refl, sym, ap, ◌∙◌, ◌≢◌, true, false, some,
  List, [], ◌∷◌, ◌++◌, arith, ltb, Bool-cases, inl, inr, ◌==◌, length, length-append, All,
}
use nats_kv.Text.{Text, is_empty, digits_of, decimal}
use nats_kv.UserApp.Json.{
  Json, str, num, read_chars, is_digit, read_digits, read_value, expect, read_member, after_member,
  read_members, read_object, render_member, render_members, render,
}

-- A character that a JSON string holds as it is.
abbrev pub IsPlain : ℕ → Type 0
IsPlain c = (c ≢ b'"') × (c ≢ b'\\') × (32 ≤ c)

read_chars-append : (w rest : Text) → All IsPlain w → read_chars (w ++ b'"' ∷ rest) ≡ some (w, rest)
unfolding read_chars
read_chars-append [] rest h = refl
read_chars-append (c ∷ w) rest (p, h) = ground (arith, read_chars-append w rest h)

digits_of-append :
    (fuel n : ℕ) (s rest : Text) → digits_of fuel n s ++ rest ≡ digits_of fuel n (s ++ rest)
unfolding digits_of
digits_of-append zero n s rest = refl
digits_of-append (suc fuel) n s rest =
    ground (arith, digits_of-append fuel (n / 10) ((b'0' + n % 10) ∷ s) rest)

digit_step :
    (acc d : ℕ) (rest : Text)
    → d < 10
    → read_digits acc ((b'0' + d) ∷ rest) ≡ read_digits (acc * 10 + d) rest
unfolding read_digits is_digit
digit_step acc d rest h = ground (arith, ap (λ (k : ℕ). read_digits (acc * 10 + k) rest) same_digit)
  where
    same_digit : b'0' + d - b'0' ≡ d
    same_digit = omega arith

-- Reading the digits of a number puts the number together again.
read_digits-digits_of :
    (fuel n : ℕ) (rest : Text)
    → n ≤ fuel
    → read_digits 0 (digits_of fuel n rest) ≡ read_digits n rest
unfolding digits_of read_digits is_digit
read_digits-digits_of zero zero rest h = refl
read_digits-digits_of zero (suc n) rest h = absurd (omega arith)
read_digits-digits_of (suc fuel) n rest h = elim (Bool-cases (ltb n 10)) [
  | inl small ↦
      rw small (
        digit_step 0 (n % 10) rest (omega arith)
        ∙ ap (λ (k : ℕ). read_digits k rest) (ground arith))
  | inr large ↦
      let ih = read_digits-digits_of fuel (n / 10) ((b'0' + n % 10) ∷ rest) (ground arith) in
      rw large (
        ih
        ∙ digit_step (n / 10) (n % 10) rest (omega arith)
        ∙ ap (λ (k : ℕ). read_digits k rest) (omega arith))
]

digits_of-cons :
    (fuel n : ℕ) (rest : Text)
    → (c : ℕ) × (s : Text) × (digits_of fuel n rest ≡ c ∷ s) × (is_digit c ≡ true)
unfolding digits_of is_digit
digits_of-cons zero n rest = (b'0' + n % 10, rest, refl, ground arith)
digits_of-cons (suc fuel) n rest = elim (Bool-cases (ltb n 10)) [
  | inl small ↦ (b'0' + n % 10, rest, rw small, ground arith)
  | inr large ↦
      let (c, s, e, d) = digits_of-cons fuel (n / 10) ((b'0' + n % 10) ∷ rest) in
      (c, s, rw large e, d)
]

read_value-digit :
    (d n : ℕ) (s rest : Text)
    → is_digit d ≡ true
    → read_digits 0 (d ∷ s) ≡ (n, rest)
    → read_value (d ∷ s) ≡ some (num n, rest)
unfolding read_value is_digit
read_value-digit d n s rest h e = elim (Bool-cases (d == b'"')) [
  | inl q ↦ absurd (ground arith)
  | inr q ↦ rw (q, h, e)
]

digits_end : (n c : ℕ) (rest : Text) → is_digit c ≡ false → read_digits n (c ∷ rest) ≡ (n, c ∷ rest)
unfolding read_digits
digits_end n c rest h = rw h

read_value-decimal :
    (n c : ℕ) (rest : Text)
    → is_digit c ≡ false
    → read_value (decimal n ++ c ∷ rest) ≡ some (num n, c ∷ rest)
unfolding decimal
read_value-decimal n c rest h =
    let (d, s, e, digit) = digits_of-cons n n (c ∷ rest) in
    let whole : read_digits 0 (d ∷ s) ≡ (n, c ∷ rest) =
      ap (read_digits 0) (sym e)
      ∙ read_digits-digits_of n n (c ∷ rest) (omega arith)
      ∙ digits_end n c rest h in
    ap read_value (digits_of-append n n [] (c ∷ rest) ∙ e)
    ∙ read_value-digit d n s (c ∷ rest) digit whole

read_value-str :
    (v rest : Text) → All IsPlain v → read_value (b'"' ∷ (v ++ b'"' ∷ rest)) ≡ some (str v, rest)
unfolding read_value
read_value-str v rest h = rw (read_chars-append v rest h)

-- The name of a member and the text of a string stand in quotes as they are.
abbrev pub IsPlainMember : Text × Json → Type 0
IsPlainMember (k, str v) = All IsPlain k × All IsPlain v
IsPlainMember (k, num n) = All IsPlain k

-- `c` ends a number: it follows each member.
read_member-render_member :
    (m : Text × Json) (c : ℕ) (rest : Text)
    → IsPlainMember m
    → is_digit c ≡ false
    → read_member (render_member m (c ∷ rest)) ≡ some (m.0, m.1, c ∷ rest)
unfolding read_member render_member expect
read_member-render_member (k, str v) c rest (hk, hv) h =
    rw (read_chars-append k _ hk, read_value-str v (c ∷ rest) hv)
read_member-render_member (k, num n) c rest hk h =
    rw (read_chars-append k _ hk, read_value-decimal n c rest h)

read_members-render_members :
    (fuel : ℕ) (m : Text × Json) (ms : List (Text × Json))
    → IsPlainMember m
    → All IsPlainMember ms
    → length ms < fuel
    → read_members fuel (render_members m ms) ≡ some (m ∷ ms)
unfolding read_members render_members after_member is_digit
read_members-render_members zero m ms h hs lt = absurd (omega arith)
read_members-render_members (suc fuel) m [] h hs lt =
    rw (read_member-render_member m b'}' [] h end) (unfold is_empty in refl)
  where
    end : is_digit b'}' ≡ false
    end = refl
read_members-render_members (suc fuel) m (m' ∷ ms) h (h', hs) lt = rw (
  read_member-render_member m b',' (render_members m' ms) h comma,
  read_members-render_members fuel m' ms h' hs (omega arith),
)
  where
    comma : is_digit b',' ≡ false
    comma = refl

length-render_member : (m : Text × Json) (rest : Text) → length rest < length (render_member m rest)
unfolding render_member
length-render_member (k, str v) rest = omega (
  arith,
  length-append k (b'"' ∷ b':' ∷ b'"' ∷ (v ++ b'"' ∷ rest)),
  length-append v (b'"' ∷ rest),
)
length-render_member (k, num n) rest =
    omega
      (arith, length-append k (b'"' ∷ b':' ∷ (decimal n ++ rest)), length-append (decimal n) rest)

length-render_members :
    (m : Text × Json) (ms : List (Text × Json)) → length ms < length (render_members m ms)
unfolding render_members
length-render_members m [] = omega (arith, length-render_member m (b'}' ∷ []))
length-render_members m (m' ∷ ms) =
    omega (arith, length-render_member m (b',' ∷ render_members m' ms), length-render_members m' ms)

-- Reading a rendered object gives back its members, if their names and strings need no escape.
pub read_object-render :
    (m : Text × Json) (ms : List (Text × Json))
    → IsPlainMember m
    → All IsPlainMember ms
    → read_object (render m ms) ≡ some (m ∷ ms)
unfolding read_object render
read_object-render m ms h hs =
    read_members-render_members (length (render_members m ms)) m ms h hs
      (length-render_members m ms)
