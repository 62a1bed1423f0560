-- ===== src/Pages/GatePage/Tokens.antt =====
-- Which tokens the gate accepts from its own page.
use nats_kv.Prelude.{
  ◌≡◌, ap, ◌∙◌, ◌↔◌, ◌≢◌, arith, All-append, inl, inr, true, none, some, [], ◌∷◌, ◌++◌, All, Any,
  here, there, Bool-cases,
}
use nats_kv.Text.{Text, codes, is_empty, split}
use nats_kv.Text.Split.{split-Lacks}
use nats_kv.Spin.{Request}
use nats_kv.Gate.{is_authed}
use nats_kv.Gate.Laws.{IsAccess, is_authed_iff}
use nats_kv.Pages.Uri.{encode_uri_component}
use nats_kv.Pages.Uri.Laws.{IsUnreserved, encode_uri_component-Lacks_and, encode_same, same_encode}
use nats_kv.Pages.GatePage.{js_trim, use_token}

use_token-query :
    (token query : Text)
    → js_trim token ≡ token
    → use_token token ≡ some (codes "/?" ++ query)
    → query ≡ codes "access=" ++ encode_uri_component token
unfolding use_token
use_token-query token query trimmed h = elim (Bool-cases (is_empty token)) [
  | inl e ↦ let p = rw (trimmed, e) at h in cc
  | inr e ↦ let p = rw (trimmed, e) at h in cc
]

-- A visitor without the gate's cookie pastes the token, without white space at its ends, and the
-- browser asks for the address that the page sends it to: the gate lets the request pass exactly
-- if every character of the token is a letter, a digit or one of `-_.!~*'()`.
pub pasted_token :
    (name token : Text) (req : Request)
    → js_trim token ≡ token
    → req.header (codes "cookie") ≡ none
    → use_token token ≡ some (codes "/?" ++ req.query)
    → (is_authed name token req ≡ true) ↔ All IsUnreserved token
pasted_token name token req trimmed no_cookie address = (to, from)
  where
    e : Text
    e = codes "access=" ++ encode_uri_component token

    query : req.query ≡ e
    query = use_token-query token req.query trimmed address

    one_pair : split b'&' req.query ≡ e ∷ []
    one_pair =
        ap (split b'&') query
        ∙ split-Lacks b'&' e (
            All-append (λ c. c ≢ b'&') (codes "access=") _ (ground arith)
              (encode_uri_component-Lacks_and token))

    by_pair : Any (IsAccess token) (e ∷ []) → encode_uri_component token ≡ token
    by_pair (here p) = cc
    by_pair (there h) = elim h [ ]

    to : is_authed name token req ≡ true → All IsUnreserved token
    to h = elim ((is_authed_iff name token req).0 h) [
      | inl (v, q, _) ↦ absurd (cc)
      | inr a ↦ same_encode token (by_pair (rw one_pair at a))
    ]

    from : All IsUnreserved token → is_authed name token req ≡ true
    from h =
        (is_authed_iff name token req).1
          (inr (rw one_pair (Any.here (ap (λ t. codes "access=" ++ t) (encode_same token h)))))
