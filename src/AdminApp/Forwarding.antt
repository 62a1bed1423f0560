-- ===== src/AdminApp/Forwarding.antt =====
-- What the control plane receives of a request under `/api/`.
use nats_kv.Prelude.{◌≡◌, refl, ap, ◌∙◌, true, false, [], ◌∷◌, ◌++◌}
use nats_kv.Text.{Text, codes, same, strip_prefix, contains}
use nats_kv.Spin.{Request, sent, Trace, Host}
use nats_kv.AdminApp.{
  Assets, unwrap_or, is_admin_authed, proxy_request, proxy, api_or_404, served, handle,
}
use nats_kv.AdminApp.Safety.{trace-proxy}

module _ (host : Host) (assets : Assets) (req : Request) (t : Trace) where
  served_api :
      (rest : Text)
      → served host assets req (codes "/api/" ++ rest) t
        ≡ proxy host req.method rest req.body (unwrap_or (req.header (codes "authorization")) []) t
  unfolding served api_or_404 same strip_prefix
  served_api rest = refl

  gate_passes :
      (rest : Text)
      → req.path ≡ codes "/api/" ++ rest
      → is_admin_authed host req ≡ true
      → contains (codes "access=") req.query ≡ false
      → handle host assets req t ≡ served host assets req (codes "/api/" ++ rest) t
  unfolding handle same is_admin_authed served nats_kv.Gate.is_authed strip_prefix
  gate_passes rest path authed no_access = rw (path, authed, no_access) refl

  -- A request under `/api/` that carries the token, and whose query has no `access=`, makes one
  -- call: the control plane receives its method, its body and its path, with its authorization.
  pub trace-handle :
      (rest : Text)
      → req.path ≡ codes "/api/" ++ rest
      → is_admin_authed host req ≡ true
      → contains (codes "access=") req.query ≡ false
      → (handle host assets req t).1
        ≡ sent (
            proxy_request req.method rest req.body
              (unwrap_or (req.header (codes "authorization")) []))
          ∷ t
  trace-handle rest path authed no_access =
      ap (λ r. r.1) (gate_passes rest path authed no_access ∙ served_api rest)
      ∙ trace-proxy host assets req t _ _ _ _

  -- Of two queries without `access=`, with the token in the cookie, neither the answer nor the
  -- calls can tell which of them the request had.
  pub handle_drops_query :
      (query : Text)
      → is_admin_authed host req ≡ true
      → is_admin_authed host (record req { query = query }) ≡ true
      → contains (codes "access=") req.query ≡ false
      → contains (codes "access=") query ≡ false
      → handle host assets (record req { query = query }) t ≡ handle host assets req t
  unfolding handle served api_or_404
  handle_drops_query query authed authed' h k = rw (authed, authed', h, k) refl
