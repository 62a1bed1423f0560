-- ===== src/AdminApp.antt =====
-- The admin application, ui/nats-kv-admin/src/lib.rs: a gate in front of everything but its health
-- check, one page, and a proxy to the control plane.
pub mod Safety
pub mod Forwarding
use nats_kv.Prelude.{
  ℕ, Bool, true, false, not, ◌||◌, Option, none, some, List, [], ◌∷◌, ◌++◌, if◌then◌else◌,
}
use nats_kv.Text.{Text, codes, same, is_empty, strip_prefix, to_lowercase, contains}
use nats_kv.Spin.{Method, Request, text, bytes, Response, OutRequest, Host}
use nats_kv.Spin.Io.{Io, pure, ◌>>=◌, send}
use nats_kv.Gate.{is_authed, gate_cookie}

abbrev pub control_base : Text
control_base = codes "https://cp.nats-kv.connected-cloud.io"

abbrev pub admin_gate_cookie : Text
admin_gate_cookie = codes "nats-kv-admin-gate"

-- The texts of the two pages.
pub record Assets : Type 0 where
  pub gate_html : Text
  pub index_html : Text

abbrev pub unwrap_or : Option Text → Text → Text
unwrap_or none d = d
unwrap_or (some a) d = a

unfoldable pub admin_gate_token : Host → Text
admin_gate_token host =
    unwrap_or (host.variable (codes "admin_gate_token")) (codes "admin-gate-2026-rotateme")

unfoldable pub is_admin_authed : Host → Request → Bool
is_admin_authed host req = is_authed admin_gate_cookie (admin_gate_token host) req

abbrev pub header_unless : Bool → Text → Text → List (Text × Text)
header_unless true name v = []
header_unless false name v = (name, v) ∷ []

abbrev pub bytes_empty : List ℕ → Bool
bytes_empty [] = true
bytes_empty (_ ∷ _) = false

-- The request that `proxy` builds.
unfoldable pub proxy_request : Method → Text → List ℕ → Text → OutRequest
proxy_request method path body auth = record {
  method = method;
  uri = control_base ++ (codes "/" ++ path);
  headers =
      header_unless (is_empty auth) (codes "Authorization") auth
      ++ header_unless (bytes_empty body) (codes "Content-Type") (codes "application/json");
  body = body;
}

-- The loop that hands on the content type of the control plane.
content_types : List (Text × Option Text) → List (Text × Text)
content_types [] = []
content_types ((k, none) ∷ hs) = content_types hs
content_types ((k, some s) ∷ hs) =
    let rest = content_types hs in
    if same (to_lowercase k) (codes "content-type") then (k, s) ∷ rest else rest

module _ (host : Host) where
  pub proxy : Method → Text → List ℕ → Text → Io Response
  unfolding proxy_request content_types
  proxy method path body auth = do
    upstream ← send host (proxy_request method path body auth)
    pure (record {
      status = upstream.status;
      headers =
          content_types upstream.headers ++ (codes "Access-Control-Allow-Origin", codes "*") ∷ [];
      body = bytes upstream.body;
    })

abbrev page : ℕ → Text → Text → Response
page status content_type body = record {
  status = status;
  headers = (codes "content-type", content_type) ∷ [];
  body = text body;
}

abbrev html_type : Text
html_type = codes "text/html; charset=utf-8"

pub gate_page : Assets → Response
gate_page assets = page 403 html_type assets.gate_html

pub health : Response
health = page 200 (codes "application/json") (codes "{\"ok\":true,\"app\":\"nats-kv-admin\"}")

abbrev not_found : Response
not_found = record { status = 404; headers = []; body = text (codes "not found") }

pub redirect : Host → Text → Response
redirect host path = record {
  status = 302;
  headers =
      (codes "location", path)
      ∷ (codes "set-cookie", gate_cookie admin_gate_cookie (admin_gate_token host))
      ∷ [];
  body = bytes [];
}

module _ (host : Host) (assets : Assets) (req : Request) where
  -- `/api/…`, with what was stripped of the path
  api_or_404 : Option Text → Io Response
  api_or_404 none = pure not_found
  api_or_404 (some rest) =
      proxy host req.method rest req.body (unwrap_or (req.header (codes "authorization")) [])

  -- What `handle` does once its gate has let the request through.
  pub served : Text → Io Response
  unfolding api_or_404
  served path =
      if same path (codes "/") || same path (codes "/index.html")
      then pure (page 200 html_type assets.index_html)
      else api_or_404 (strip_prefix (codes "/api/") path)

  pub handle : Io Response
  handle =
      let path = req.path in
      if same path (codes "/health")
      then pure health
      else if not (is_admin_authed host req)
      then pure (gate_page assets)
      else if contains (codes "access=") req.query
      then pure (redirect host path)
      else served path
