-- ===== src/Gate/Laws.antt =====
-- Who passes the gate.
use nats_kv.Prelude.{
  ◌≡◌, refl, ◌↔◌, ◌⊎◌, inl, inr, true, false, Option, none, some, List, [], ◌∷◌, ◌++◌, Any,
  Any-or_iff, or-eq-true, or-right, Option-cases,
}
use nats_kv.Text.{Text, codes, strip_prefix, split, trim}
use nats_kv.Text.Laws.{same→eq, same_refl, strip_prefix-eq-some, strip_prefix-append}
use nats_kv.Spin.{Request}
use nats_kv.Gate.{rest_is, cookie_loop, has_cookie, query_loop, has_access, is_authed}

-- A stripped rest is the token exactly when the text is the prefix and the token.
rest_is-strip_prefix :
    (want p s : Text) → (rest_is want (strip_prefix p s) ≡ true) ↔ (s ≡ p ++ want)
unfolding rest_is
rest_is-strip_prefix want p s = (to, λ e. rw (e, strip_prefix-append p want) (same_refl want))
  where
    to : rest_is want (strip_prefix p s) ≡ true → s ≡ p ++ want
    to h = elim (Option-cases (strip_prefix p s)) [
      | inl e ↦ cc (h, e)
      | inr (r, e) ↦ rw (strip_prefix-eq-some p s r e, same→eq r want (rw e at h)) refl
    ]

-- A cookie of the header, once trimmed, is `name=want`.
abbrev pub IsCookie : Text → Text → Text → Type 0
IsCookie name want kv = trim kv ≡ (name ++ codes "=") ++ want

-- A pair of the query is `access=want`.
abbrev pub IsAccess : Text → Text → Type 0
IsAccess want pair = pair ≡ codes "access=" ++ want

-- No element is left to have `P`.
none_left {ℓ κ} : {A : Type ℓ} (P : A → Type κ) → (false ≡ true) ↔ Any P []
none_left P = (λ h. cc, λ h. elim h [ ])

cookie_loop_iff :
    (name want : Text) (kvs : List Text)
    → (cookie_loop name want kvs ≡ true) ↔ Any (IsCookie name want) kvs
unfolding cookie_loop
cookie_loop_iff name want [] = none_left (IsCookie name want)
cookie_loop_iff name want (kv ∷ kvs) =
    Any-or_iff (IsCookie name want) kv kvs _ _
      (rest_is-strip_prefix want (name ++ codes "=") (trim kv)) (cookie_loop_iff name want kvs)

query_loop_iff :
    (want : Text) (pairs : List Text) → (query_loop want pairs ≡ true) ↔ Any (IsAccess want) pairs
unfolding query_loop
query_loop_iff want [] = none_left (IsAccess want)
query_loop_iff want (pair ∷ pairs) =
    Any-or_iff (IsAccess want) pair pairs _ _ (rest_is-strip_prefix want (codes "access=") pair)
      (query_loop_iff want pairs)

-- The request has a cookie header with that cookie.
abbrev pub CarriesCookie : Text → Text → Request → Type 0
CarriesCookie name want req =
    (h : Text) × (req.header (codes "cookie") ≡ some h) × Any (IsCookie name want) (split b';' h)

abbrev pub CarriesAccess : Text → Request → Type 0
CarriesAccess want req = Any (IsAccess want) (split b'&' req.query)

has_cookie_iff :
    (name want : Text) (header : Option Text)
    → (has_cookie name want header ≡ true)
      ↔ ((h : Text) × (header ≡ some h) × Any (IsCookie name want) (split b';' h))
unfolding has_cookie
has_cookie_iff name want none = (λ h. cc, λ h. cc (h.1))
has_cookie_iff name want (some h) =
    let loop = cookie_loop_iff name want (split b';' h) in
    (λ e. (h, refl, loop.0 e), λ p. loop.1 (subst_header p.0 p.1 p.2))
  where
    subst_header :
        (k : Text)
        → some h ≡ some k
        → Any (IsCookie name want) (split b';' k)
        → Any (IsCookie name want) (split b';' h)
    subst_header k e a = let q : h ≡ k = cc in rw q a

-- A request passes exactly when it carries the token: a part of its cookie header is, trimmed, the
-- name and the token, or a part of its query is `access=` and the token.
pub is_authed_iff :
    (name want : Text) (req : Request)
    → (is_authed name want req ≡ true) ↔ (CarriesCookie name want req ⊎ CarriesAccess want req)
unfolding is_authed has_access
is_authed_iff name want req = (to, from)
  where
    cookie :
        (has_cookie name want (req.header (codes "cookie")) ≡ true) ↔ CarriesCookie name want req
    cookie = has_cookie_iff name want (req.header (codes "cookie"))

    query : (query_loop want (split b'&' req.query) ≡ true) ↔ CarriesAccess want req
    query = query_loop_iff want (split b'&' req.query)

    to : is_authed name want req ≡ true → CarriesCookie name want req ⊎ CarriesAccess want req
    to h = elim (or-eq-true _ _ h) [ inl e ↦ inl (cookie.0 e) | inr e ↦ inr (query.0 e) ]

    from : CarriesCookie name want req ⊎ CarriesAccess want req → is_authed name want req ≡ true
    from (inl c) = rw (cookie.1 c)
    from (inr a) = or-right _ _ (query.1 a)
