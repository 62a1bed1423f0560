-- ===== src/UserApp/Config.antt =====
-- The constants of ui/nats-kv-user/src/lib.rs, its gate, and the two answers that the gate gives.
use nats_kv.Prelude.{Bool, ◌||◌, Option, none, some, [], ◌∷◌}
use nats_kv.Text.{Text, codes, same, starts_with, replace}
use nats_kv.Spin.{Request, Response, text, bytes, Host}
use nats_kv.Gate.{is_authed, gate_cookie}

abbrev pub adapter_base : Text
adapter_base = codes "http://edge.nats-kv.connected-cloud.io:8080"

abbrev pub control_base : Text
control_base = codes "https://cp.nats-kv.connected-cloud.io"

abbrev pub fallback_token : Text
fallback_token = codes "akv_demo_open"

abbrev pub ui_cookie : Text
ui_cookie = codes "nats-kv-ui-access"

-- The texts of the pages: the theorems hold whatever they say.
pub record Assets : Type 0 where
  pub shared_css : Text
  pub nav_js : Text
  pub gate_html : Text
  pub index_html : Text
  pub play_html : Text
  pub dash_html : Text
  pub topology_html : Text
  pub docs_html : Text
  pub loadtest_html : Text
  pub verify_html : Text
  pub api_explorer_html : Text
  pub openapi_yaml : Text
  pub claim_html : Text
  pub signed_out_html : Text

-- `o.unwrap_or(d)`
abbrev pub unwrap_or {ℓ} : {A : Type ℓ} → Option A → A → A
unwrap_or none d = d
unwrap_or (some a) d = a

unfoldable pub ui_gate_token : Host → Text
ui_gate_token host = unwrap_or (host.variable (codes "ui_gate_token")) (codes "demo-open-2026")

unfoldable pub is_ui_authed : Host → Request → Bool
is_ui_authed host req = is_authed ui_cookie (ui_gate_token host) req

unfoldable pub is_public_path : Text → Bool
is_public_path path =
    same path (codes "/health")
    || same path (codes "/api/request-invite")
    || same path (codes "/logout")
    || same path (codes "/docs")
    || same path (codes "/docs/")
    || same path (codes "/api-explorer")
    || same path (codes "/api-explorer/")
    || same path (codes "/openapi.yaml")
    || starts_with (codes "/claim/") path
    || starts_with (codes "/static/") path

-- `Response::builder().status(s).header("content-type", c).body(b).build()`
abbrev pub page : Text → Text → Response
page content_type body = record {
  status = 200;
  headers = (codes "content-type", content_type) ∷ [];
  body = text body;
}

abbrev pub html_type : Text
html_type = codes "text/html; charset=utf-8"

abbrev pub json_type : Text
json_type = codes "application/json"

-- The two replacements that every page goes through.
unfoldable pub rendered : Assets → Text → Text
rendered assets body =
    replace (replace body (codes "__SHARED_CSS__") assets.shared_css) (codes "__NAV_JS__")
      assets.nav_js

unfoldable pub html : Assets → Text → Response
html assets body = page html_type (rendered assets body)

unfoldable pub render_gate_page : Assets → Response
unfolding html
render_gate_page assets = html assets assets.gate_html

unfoldable pub redirect_with_cookie : Host → Text → Response
redirect_with_cookie host path_no_query = record {
  status = 302;
  headers =
      (codes "location", path_no_query)
      ∷ (codes "set-cookie", gate_cookie ui_cookie (ui_gate_token host))
      ∷ [];
  body = bytes [];
}
