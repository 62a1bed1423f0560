-- ===== src/UserApp/Handler/Forwarding.antt =====
-- What the adapter receives of a request under `/api/nats/`.
use nats_kv.Prelude.{◌≡◌, refl, ap, ◌∙◌, true, false, some, ◌∷◌, ◌++◌, arith}
use nats_kv.Text.{Text, codes, same, strip_prefix, starts_with, contains}
use nats_kv.Spin.{Request, OutRequest, sent, Trace, Host, find_header}
use nats_kv.UserApp.Config.{adapter_base, fallback_token, unwrap_or, Assets, is_ui_authed}
use nats_kv.UserApp.Proxy.{nats_request, call_nats}
use nats_kv.UserApp.Proxy.Traces.{trace-call_nats}
use nats_kv.UserApp.Proxy.Requests.{nats_request-headers, nats_request-fields}
use nats_kv.UserApp.Outbound.{given, location, stated, typed}
use nats_kv.UserApp.Outbound.Built.{nats_request_lem}
use nats_kv.UserApp.Handler.{
  caller_bearer, with_query, nats_route, nats_or, proxies, probes, pages, served, handle,
}

module _ (host : Host) (assets : Assets) (req : Request) (rest : Text) (t : Trace) where
  served_nats : served host req assets (codes "/api/nats/" ++ rest) t ≡ nats_route host req rest t
  unfolding served pages probes proxies nats_or same starts_with strip_prefix
  served_nats = refl

  gate_passes :
      is_ui_authed host req ≡ true
      → contains (codes "access=") req.query ≡ false
      → handle host req assets t ≡ served host req assets req.path t
  unfolding handle
  gate_passes authed no_access = ground arith

  pub handle-call_nats :
      req.path ≡ codes "/api/nats/" ++ rest
      → is_ui_authed host req ≡ true
      → contains (codes "access=") req.query ≡ false
      → handle host req assets t
        ≡ call_nats host req.method
            (with_query rest req.query)
            req.body
            (unwrap_or (req.header (codes "x-kv-key")) fallback_token)
            (req.header (codes "if-match"))
            (req.header (codes "if-none-match"))
            (req.header (codes "content-type"))
            t
  unfolding nats_route caller_bearer
  handle-call_nats path authed no_access =
      gate_passes authed no_access ∙ ap (λ p. served host req assets p t) path ∙ served_nats

  -- A request under `/api/nats/` that carries the token, and whose query has no `access=`, makes
  -- one call: the adapter, at its fixed address, receives its method, its body and its remaining
  -- path, followed by its query exactly if that is not empty; the caller's key or the shared demo
  -- key; the conditions `If-Match` and `If-None-Match` exactly as the caller stated them; and a
  -- content type, the caller's or a default, exactly if there is a body.
  pub handle_forwards :
      req.path ≡ codes "/api/nats/" ++ rest
      → is_ui_authed host req ≡ true
      → contains (codes "access=") req.query ≡ false
      → (handle host req assets t).1
        ≡ sent (record {
          method = req.method;
          uri = codes "http://edge.nats-kv.connected-cloud.io:8080/" ++ location rest req.query;
          headers =
              (
                codes "Authorization",
                codes "Bearer " ++ given (req.header (codes "x-kv-key")) (codes "akv_demo_open"),
              )
              ∷ (stated (codes "If-Match") (req.header (codes "if-match"))
                  ++ (stated (codes "If-None-Match") (req.header (codes "if-none-match"))
                      ++ typed req.body (
                          given
                            (req.header (codes "content-type"))
                            (codes "application/octet-stream"))));
          body = req.body;
        })
          ∷ t
  unfolding nats_route caller_bearer
  handle_forwards path authed no_access =
      ap (λ p. p.1) (handle-call_nats path authed no_access)
      ∙ trace-call_nats host t _ _ _ _ _ _ _
      ∙ ap (λ r. sent r ∷ t)
          (nats_request_lem req.method rest req.query req.body (req.header (codes "x-kv-key"))
            (req.header (codes "if-match")) (req.header (codes "if-none-match"))
            (req.header (codes "content-type")))

  -- The parts of that request, one by one.
  pub handle-fields :
      req.path ≡ codes "/api/nats/" ++ rest
      → is_ui_authed host req ≡ true
      → contains (codes "access=") req.query ≡ false
      → (r : OutRequest) × ((handle host req assets t).1 ≡ sent r ∷ t)
        × (r.method ≡ req.method)
        × (r.uri ≡ adapter_base ++ (codes "/" ++ with_query rest req.query))
        × (r.body ≡ req.body)
        × (find_header (codes "Authorization") r.headers
            ≡ some (codes "Bearer " ++ unwrap_or (req.header (codes "x-kv-key")) fallback_token))
  unfolding nats_route caller_bearer
  handle-fields path authed no_access =
      let (method, uri, body) = nats_request-fields _ _ _ _ _ _ _ in
      let (auth, _, _, _) = nats_request-headers _ _ _ _ _ _ _ in
      (_, trace, method, uri, body, auth)
    where
      trace :
          (handle host req assets t).1
          ≡ sent (
              nats_request req.method
                (with_query rest req.query)
                req.body
                (unwrap_or (req.header (codes "x-kv-key")) fallback_token)
                (req.header (codes "if-match"))
                (req.header (codes "if-none-match"))
                (req.header (codes "content-type")))
            ∷ t
      trace =
          ap (λ p. p.1) (handle-call_nats path authed no_access)
          ∙ trace-call_nats host t _ _ _ _ _ _ _
