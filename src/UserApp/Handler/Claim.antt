-- ===== src/UserApp/Handler/Claim.antt =====
-- The claim page, and the requests that follow it.
use nats_kv.Prelude.{◌≡◌, refl, ap, ◌∙◌, true, some, List, ◌∷◌, ◌++◌}
use nats_kv.Text.{Text, codes, same, trim, join, starts_with}
use nats_kv.Text.Split.{Lacks}
use nats_kv.Spin.{Request, ok, Trace, Host, find_header}
use nats_kv.Gate.{gate_cookie}
use nats_kv.Gate.Cookies.{kept, pair, cookie_returns}
use nats_kv.UserApp.Config.{ui_cookie, Assets, ui_gate_token, is_ui_authed, is_public_path}
use nats_kv.UserApp.Handler.{claim_page, served, pages, handle}

module _ (host : Host) (assets : Assets) (req : Request) (rest : Text) (t : Trace) where
  served_claim :
      served host req assets (codes "/claim/" ++ rest) t ≡ (ok (claim_page assets host), t)
  unfolding served pages same starts_with
  served_claim = refl

  public_claim : is_public_path (codes "/claim/" ++ rest) ≡ true
  unfolding is_public_path same starts_with
  public_claim = refl

  public_served :
      is_public_path req.path ≡ true → handle host req assets t ≡ served host req assets req.path t
  unfolding handle
  public_served public = rw public refl

  handle_claim :
      req.path ≡ codes "/claim/" ++ rest
      → handle host req assets t ≡ (ok (claim_page assets host), t)
  handle_claim e =
      public_served (ap is_public_path e ∙ public_claim)
      ∙ ap (λ path. served host req assets path t) e
      ∙ served_claim

  -- Any request below `/claim/`, whatever follows there and without any token, is answered by the
  -- claim page and its cookie, with no call to the control plane; and every later request that
  -- sends the cookie along, among any others, passes the gate. This asks that the gate's token
  -- holds no semicolon and ends in no white space, so that the cookie can carry it.
  pub claim_admits :
      (next : Request) (before after : List Text)
      → req.path ≡ codes "/claim/" ++ rest
      → Lacks b';' (pair ui_cookie (ui_gate_token host))
      → trim (pair ui_cookie (ui_gate_token host)) ≡ pair ui_cookie (ui_gate_token host)
      → next.header (codes "cookie")
        ≡ some (
            join (codes "; ") (before ++ kept (gate_cookie ui_cookie (ui_gate_token host)) ∷ after))
      → (handle host req assets t ≡ (ok (claim_page assets host), t))
        × (find_header (codes "set-cookie") (claim_page assets host).headers
            ≡ some (gate_cookie ui_cookie (ui_gate_token host)))
        × (is_ui_authed host next ≡ true)
  unfolding claim_page find_header same is_ui_authed
  claim_admits next before after path lacks trimmed sends = (
    handle_claim path,
    refl,
    cookie_returns ui_cookie (ui_gate_token host) before after next lacks trimmed sends,
  )
