-- ===== src/UserApp/Handler/Redirect.antt =====
-- The redirect that takes `?access=` out of the address, and the request that follows it.
use nats_kv.Prelude.{◌≡◌, ap, ◌∙◌, true, false, some, List, [], ◌∷◌, ◌++◌}
use nats_kv.Text.{Text, codes, same, trim, join, contains, starts_with}
use nats_kv.Text.Split.{Lacks}
use nats_kv.Spin.{Request, ok, Trace, Host, find_header, Response}
use nats_kv.Gate.{gate_cookie}
use nats_kv.Gate.Cookies.{kept, pair, cookie_returns}
use nats_kv.UserApp.Config.{
  ui_cookie, Assets, ui_gate_token, is_ui_authed, is_public_path, redirect_with_cookie,
}
use nats_kv.UserApp.Handler.{served, handle}

-- A browser follows a redirect: it asks for the address of the `location` header, which has no
-- query, and sends what it kept of the `set-cookie` header, among other cookies.
pub record Follows (r : Response) (before after : List Text) (req : Request) : Type 0 where
  pub set_cookie : Text
  pub sets : find_header (codes "set-cookie") r.headers ≡ some set_cookie
  pub location : find_header (codes "location") r.headers ≡ some req.path
  pub no_query : req.query ≡ []
  pub cookies :
      req.header (codes "cookie") ≡ some (join (codes "; ") (before ++ kept set_cookie ∷ after))

module _ (host : Host) (assets : Assets) (req next : Request) (before after : List Text)
    (private : is_public_path req.path ≡ false)
    (lacks : Lacks b';' (pair ui_cookie (ui_gate_token host)))
    (trimmed : trim (pair ui_cookie (ui_gate_token host)) ≡ pair ui_cookie (ui_gate_token host))
    (follows : Follows (redirect_with_cookie host req.path) before after next) where
  same_path : next.path ≡ req.path
  unfolding redirect_with_cookie find_header same
  same_path = let l = follows.location in cc

  next_private : is_public_path next.path ≡ false
  next_private = ap is_public_path same_path ∙ private

  no_access : contains (codes "access=") next.query ≡ false
  unfolding contains starts_with
  no_access = ap (contains (codes "access=")) follows.no_query

  next_authed : is_ui_authed host next ≡ true
  unfolding is_ui_authed redirect_with_cookie find_header same
  next_authed =
      let sets = follows.sets in
      let same_cookie : gate_cookie ui_cookie (ui_gate_token host) ≡ follows.set_cookie = cc in
      cookie_returns ui_cookie (ui_gate_token host) before after next lacks trimmed
        (rw same_cookie follows.cookies)

  -- A request on a private path that carries the token, and whose query has an `access=`, is
  -- redirected to its own path; and the request that follows, with the cookie among any others,
  -- is served: it is neither gated nor redirected again. This asks that the token holds no
  -- semicolon and ends in no white space, so that the cookie can carry it.
  pub redirect_lands :
      (t u : Trace)
      → is_ui_authed host req ≡ true
      → contains (codes "access=") req.query ≡ true
      → (handle host req assets t ≡ (ok (redirect_with_cookie host req.path), t))
        × (handle host next assets u ≡ served host next assets req.path u)
  unfolding handle
  redirect_lands t u authed access = (
    rw (private, authed, access),
    rw (next_private, next_authed, no_access)
        (ap (λ path. served host next assets path u) same_path),
  )
