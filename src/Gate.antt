-- ===== src/Gate.antt =====
-- The access gate in front of both applications, whose `is_ui_authed` and `is_admin_authed` differ
-- in the cookie and the token alone: `has_cookie` and `has_access` are their two loops.
pub mod Laws
pub mod Cookies
use nats_kv.Prelude.{ℕ, Bool, true, false, ◌||◌, Option, none, some, List, [], ◌∷◌, ◌++◌}
use nats_kv.Text.{Text, codes, same, strip_prefix, split, trim}
use nats_kv.Spin.{Request}

-- A rest that was stripped of its prefix is the token.
rest_is : Text → Option Text → Bool
rest_is want none = false
rest_is want (some rest) = same rest want

module _ (name want : Text) where
  -- `for kv in cookie_hdr.split(';')`
  cookie_loop : List Text → Bool
  cookie_loop [] = false
  cookie_loop (kv ∷ kvs) =
      rest_is want (strip_prefix (name ++ codes "=") (trim kv)) || cookie_loop kvs

  has_cookie : Option Text → Bool
  has_cookie none = false
  has_cookie (some header) = cookie_loop (split b';' header)

module _ (want : Text) where
  -- `for pair in q.split('&')`
  query_loop : List Text → Bool
  query_loop [] = false
  query_loop (pair ∷ pairs) = rest_is want (strip_prefix (codes "access=") pair) || query_loop pairs

  has_access : Text → Bool
  has_access q = query_loop (split b'&' q)

unfoldable pub is_authed : Text → Text → Request → Bool
unfolding rest_is cookie_loop has_cookie query_loop has_access
is_authed name want req =
    has_cookie name want (req.header (codes "cookie")) || has_access want req.query

-- `format!("{name}={token}; Path=/; …")` of the redirects and of the claim page
abbrev pub gate_cookie : Text → Text → Text
gate_cookie name token =
    name
    ++ (codes "=" ++ (token ++ codes "; Path=/; Max-Age=1209600; HttpOnly; SameSite=Lax; Secure"))
