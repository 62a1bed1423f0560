-- ===== src/Pages/Uri/Laws.antt =====
-- Which texts `encodeURIComponent` leaves as they are, and what it never writes.
use nats_kv.Prelude.{
  ℕ, zero, suc, ◌*◌, ◌≤◌, ◌≡◌, ◌∙◌, ◌⊎◌, refl, sym, subst, ap, ◌≢◌, inl, inr, true, false, List, [],
  ◌∷◌, arith, length, length-append, All, All-append, get_or, Bool-cases,
}
use nats_kv.Text.{Text, codes}
use nats_kv.Text.Split.{Lacks}
use nats_kv.Pages.Uri.{is_unreserved, utf8, hex_digit, escape_bytes, encode_uri_component}

get_or-All : (P : ℕ → Type 0) (xs : List ℕ) (i d : ℕ) → All P xs → P d → P (get_or xs i d)
get_or-All P [] i d h p = p
get_or-All P (x ∷ xs) zero d (q, h) p = q
get_or-All P (x ∷ xs) (suc i) d (q, h) p = get_or-All P xs i d h p

abbrev IsHexOrZero : ℕ → Type 0
IsHexOrZero c = (is_unreserved c ≡ true) ⊎ (c ≡ 0)

hex_digit-IsHexOrZero : (d : ℕ) → IsHexOrZero (hex_digit d)
unfolding is_unreserved
hex_digit-IsHexOrZero d =
    get_or-All IsHexOrZero (codes "0123456789ABCDEF") d 0
      ((
        inl refl,
        (
          inl refl,
          (
            inl refl,
            (
              inl refl,
              (
                inl refl,
                (
                  inl refl,
                  (
                    inl refl,
                    (
                      inl refl,
                      (
                        inl refl,
                        (
                          inl refl,
                          (
                            inl refl,
                            (inl refl, (inl refl, (inl refl, (inl refl, (inl refl, tt))))),
                          ),
                        ),
                      ),
                    ),
                  ),
                ),
              ),
            ),
          ),
        ),
      ))
      (inr refl)

-- A reserved character other than the percent sign is never written.
module _ (x : ℕ) (reserved : is_unreserved x ≡ false) (differs : x ≢ b'%') (nonzero : x ≢ 0) where
  hex_digit_lem : (d : ℕ) → hex_digit d ≢ x
  hex_digit_lem d e = elim (hex_digit-IsHexOrZero d) [
    | inl p ↦ let q : is_unreserved x ≡ true = subst (λ c. is_unreserved c ≡ true) e p in cc
    | inr z ↦ nonzero (sym e ∙ z)
  ]

  escape_bytes-Lacks : (bs : List ℕ) → Lacks x (escape_bytes bs)
  unfolding escape_bytes
  escape_bytes-Lacks [] = tt
  escape_bytes-Lacks (b ∷ bs) =
      (λ e. differs (sym e), (hex_digit_lem _, (hex_digit_lem _, escape_bytes-Lacks bs)))

  encode_uri_component-Lacks : (s : Text) → Lacks x (encode_uri_component s)
  unfolding encode_uri_component
  encode_uri_component-Lacks [] = tt
  encode_uri_component-Lacks (c ∷ s) = elim (Bool-cases (is_unreserved c)) [
    | inl e ↦ rw e (λ q. let r = reserved in cc, encode_uri_component-Lacks s)
    | inr e ↦
        rw e
          (All-append (λ y. y ≢ x) _ _ (escape_bytes-Lacks (utf8 c)) (encode_uri_component-Lacks s))
  ]

pub encode_uri_component-Lacks_and : (s : Text) → Lacks b'&' (encode_uri_component s)
unfolding is_unreserved
encode_uri_component-Lacks_and =
    encode_uri_component-Lacks b'&' refl (λ e. omega arith) (λ e. omega arith)

pub encode_uri_component-Lacks_mark : (s : Text) → Lacks b'?' (encode_uri_component s)
unfolding is_unreserved
encode_uri_component-Lacks_mark =
    encode_uri_component-Lacks b'?' refl (λ e. omega arith) (λ e. omega arith)

length-escape_bytes : (bs : List ℕ) → length (escape_bytes bs) ≡ 3 * length bs
unfolding escape_bytes
length-escape_bytes [] = refl
length-escape_bytes (b ∷ bs) = omega (arith, length-escape_bytes bs)

length-utf8 : (c : ℕ) → 1 ≤ length (utf8 c)
unfolding utf8
length-utf8 c = ground arith

escaped : (c : ℕ) → 3 ≤ length (escape_bytes (utf8 c))
escaped c = omega (arith, length-escape_bytes (utf8 c), length-utf8 c)

length-encode_uri_component : (s : Text) → length s ≤ length (encode_uri_component s)
unfolding encode_uri_component
length-encode_uri_component [] = omega arith
length-encode_uri_component (c ∷ s) = elim (Bool-cases (is_unreserved c)) [
  | inl e ↦ rw e (omega (arith, length-encode_uri_component s))
  | inr e ↦ rw e (
      omega (
        arith,
        length-encode_uri_component s,
        escaped c,
        length-append (escape_bytes (utf8 c)) (encode_uri_component s),
      ))
]

abbrev pub IsUnreserved : ℕ → Type 0
IsUnreserved c = is_unreserved c ≡ true

pub encode_same : (s : Text) → All IsUnreserved s → encode_uri_component s ≡ s
unfolding encode_uri_component
encode_same [] h = refl
encode_same (c ∷ s) (q, h) = rw (q, encode_same s h) refl

pub same_encode : (s : Text) → encode_uri_component s ≡ s → All IsUnreserved s
unfolding encode_uri_component
same_encode [] h = tt
same_encode (c ∷ s) h = elim (Bool-cases (is_unreserved c)) [
  | inl e ↦ let k : encode_uri_component s ≡ s = let p = rw e at h in cc in (e, same_encode s k)
  | inr e ↦
      let p = rw e at h in
      let q = ap length p in
      absurd (
        omega (
          arith,
          length-encode_uri_component s,
          escaped c,
          length-append (escape_bytes (utf8 c)) (encode_uri_component s),
        ))
]
