-- ===== src/UserApp/Handler.antt =====
-- `handle` of ui/nats-kv-user/src/lib.rs, in the order of its tests. It is cut in four, each part
-- going on where the one above falls through: the gate, the pages, the probes and the proxies.
pub mod Invites
pub mod Safety
pub mod Reaches
pub mod Forwarding
pub mod Redirect
pub mod Credentials
pub mod Claim
use nats_kv.Prelude.{
  Bool, true, false, not, ◌&&◌, ◌||◌, Option, none, some, [], ◌∷◌, ◌++◌, if◌then◌else◌,
}
use nats_kv.Text.{Text, codes, same, is_empty, strip_prefix, starts_with, contains}
use nats_kv.Spin.{Method, post, Request, text, Response, Host}
use nats_kv.Spin.Io.{Io, pure}
use nats_kv.Gate.{gate_cookie}
use nats_kv.UserApp.Config.{
  fallback_token, ui_cookie, Assets, unwrap_or, ui_gate_token, is_ui_authed, is_public_path, page,
  html_type, json_type, rendered, html, render_gate_page, redirect_with_cookie,
}
use nats_kv.UserApp.Proxy.{call_nats, call_control, forward_invite_request, call_cosmos, probe}

pub caller_bearer : Request → Option Text
caller_bearer req = req.header (codes "x-kv-key")

-- `if qs.is_empty() { rest } else { format!("{rest}?{qs}") }`
unfoldable pub with_query : Text → Text → Text
with_query rest qs = if is_empty qs then rest else rest ++ (codes "?" ++ qs)

abbrev pub not_found : Response
not_found = record { status = 404; headers = []; body = text (codes "not found") }

abbrev pub health_body : Text
health_body = codes "{\"ok\":true,\"app\":\"nats-kv-user\",\"backends\":[\"nats\",\"cosmos\"]}"

abbrev pub expired_cookie : Text
expired_cookie = ui_cookie ++ codes "=; Path=/; Max-Age=0; HttpOnly; SameSite=Lax; Secure"

unfoldable pub openapi_page : Assets → Response
openapi_page assets = record {
  status = 200;
  headers =
      (codes "content-type", codes "application/yaml")
      ∷ (codes "access-control-allow-origin", codes "*")
      ∷ [];
  body = text assets.openapi_yaml;
}

unfoldable pub claim_page : Assets → Host → Response
claim_page assets host = record {
  status = 200;
  headers =
      (codes "content-type", html_type)
      ∷ (codes "set-cookie", gate_cookie ui_cookie (ui_gate_token host))
      ∷ [];
  body = text (rendered assets assets.claim_html);
}

unfoldable pub logout_page : Assets → Response
logout_page assets = record {
  status = 200;
  headers = (codes "content-type", html_type) ∷ (codes "set-cookie", expired_cookie) ∷ [];
  body = text assets.signed_out_html;
}

abbrev is_post : Method → Bool
is_post post = true
is_post _ = false

module _ (host : Host) (req : Request) where
  -- `/api/nats/…`
  pub nats_route : Text → Io Response
  nats_route rest =
      call_nats host req.method (with_query rest req.query) req.body
        (unwrap_or (caller_bearer req) fallback_token) (req.header (codes "if-match"))
        (req.header (codes "if-none-match")) (req.header (codes "content-type"))

  -- `/api/cosmos/…`
  pub cosmos_route : Text → Io Response
  cosmos_route rest = call_cosmos host req.method rest req.body

  -- `/api/control/…`
  pub control_route : Text → Io Response
  control_route rest =
      call_control host req.method (with_query rest req.query) req.body
        (unwrap_or (req.header (codes "authorization")) [])

  control_or_404 : Option Text → Io Response
  control_or_404 (some rest) = control_route rest
  control_or_404 none = pure not_found

  cosmos_or : Text → Option Text → Io Response
  cosmos_or path (some rest) = cosmos_route rest
  cosmos_or path none = control_or_404 (strip_prefix (codes "/api/control/") path)

  nats_or : Text → Option Text → Io Response
  nats_or path (some rest) = nats_route rest
  nats_or path none = cosmos_or path (strip_prefix (codes "/api/cosmos/") path)

  pub proxies : Text → Io Response
  unfolding nats_or cosmos_or control_or_404
  proxies path = nats_or path (strip_prefix (codes "/api/nats/") path)

  pub probes : Text → Io Response
  probes path =
      if same path (codes "/api/probe-ip")
      then probe host (codes "http://172.237.141.164/v1/health") []
      else if same path (codes "/api/probe-claudebot")
      then probe host (codes "http://172.236.104.189:8888/") []
      else if same path (codes "/api/probe-https")
      then probe host (codes "https://probe.nats-kv.connected-cloud.io:8443/") []
      else if same path (codes "/api/whereami")
      then probe host (codes "https://ipinfo.io/json") ((codes "Accept", json_type) ∷ [])
      else proxies path

  module _ (assets : Assets) where
    pub pages : Text → Io Response
    pages path =
        if same path (codes "/") || same path (codes "/index.html")
        then pure (html assets assets.index_html)
        else if same path (codes "/play") || same path (codes "/play/")
        then pure (html assets assets.play_html)
        else if same path (codes "/dash") || same path (codes "/dash/")
        then pure (html assets assets.dash_html)
        else if same path (codes "/topology") || same path (codes "/topology/")
        then pure (html assets assets.topology_html)
        else if same path (codes "/docs") || same path (codes "/docs/")
        then pure (html assets assets.docs_html)
        else if same path (codes "/loadtest") || same path (codes "/loadtest/")
        then pure (html assets assets.loadtest_html)
        else if same path (codes "/verify") || same path (codes "/verify/")
        then pure (html assets assets.verify_html)
        else if same path (codes "/api-explorer") || same path (codes "/api-explorer/")
        then pure (html assets assets.api_explorer_html)
        else if same path (codes "/openapi.yaml")
        then pure (openapi_page assets)
        else if starts_with (codes "/claim/") path
        then pure (claim_page assets host)
        else if same path (codes "/health")
        then pure (page json_type health_body)
        else if same path (codes "/logout")
        then pure (logout_page assets)
        else probes path

    -- What `handle` does once its gate has let the request through.
    pub served : Text → Io Response
    served path =
        if same path (codes "/api/request-invite") && is_post req.method
        then forward_invite_request host req
        else pages path

    pub handle : Io Response
    handle =
        let path = req.path in
        if not (is_public_path path) && not (is_ui_authed host req)
        then pure (render_gate_page assets)
        else if not (is_public_path path) && contains (codes "access=") req.query
        then pure (redirect_with_cookie host path)
        else served path
