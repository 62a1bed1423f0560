-- ===== src/Tests/AdminPage.antt =====
-- Instances of the theorems on the script of the admin page.
use nats_kv.Prelude.{◌≡◌, refl, false, none, some, [], ◌∷◌, ◌++◌, All, Any, if◌then◌else◌}
use nats_kv.Text.{Text, codes, same}
use nats_kv.Spin.{get, Request, OutRequest, sent, find_header}
use nats_kv.AdminApp.{Assets, control_base, is_admin_authed, handle}
use nats_kv.AdminPage.Arrivals.{path_of, perform_arrives}
use nats_kv.AdminPage.Buttons.{check_token, load_tenants}
use nats_kv.Tests.{host}
use nats_kv.Browser.{◌>>=◌, Fetch, Browser}
use nats_kv.AdminPage.{auth_request, auth_fetch, token}
use nats_kv.AdminPage.Approval.{deletes, lists_tenants, perform}
use nats_kv.AdminPage.Calls.{IsAdminCall, perform-IsAdminCall, calls, refused_lem}
use nats_kv.AdminPage.Rows.{request_markup, request_buttons}
use nats_kv.AdminPage.Markup.{count, count-request_markup}

-- An admin who refuses every question, with a token in the browser.
abbrev pub browser : Browser
browser = record {
  storage = λ _. some (codes "secret");
  fetch = λ _ _. none;
  confirm = λ _ _. false;
  prompt = λ _ _. none;
  stringify = λ _. [];
  parse_base64 = λ _. none;
  show_date = λ _. [];
  locale_less = λ _ _. false;
  show_time = λ _. [];
  to_fixed = λ _ _. none;
  message = λ _. [];
}

perform-IsAdminCall_example :
    All (IsAdminCall (codes "secret")) (perform browser lists_tenants []).1
perform-IsAdminCall_example = perform-IsAdminCall browser lists_tenants

refused_example : calls (perform browser (deletes (codes "t1") (codes "a")) []).1 ≡ []
refused_example = refused_lem browser (deletes (codes "t1") (codes "a")) [] (λ _ _. refl) refl

count-request_markup_example :
    count b'<' (
      request_markup
        (codes "today")
        (codes "<b>")
        (codes "a@b")
        []
        (codes "pending")
        (request_buttons (codes "7") (codes "a@b")))
    ≡ count b'<'
        (request_markup (codes "today") [] [] [] (codes "pending") (request_buttons (codes "7") []))
count-request_markup_example =
    count-request_markup b'<' (λ i. i.0 refl) (codes "today") (codes "<b>") (codes "a@b") []
      (codes "pending") (codes "7")

abbrev assets : Assets
assets = record { gate_html = codes "gate"; index_html = codes "index" }

-- The first call of a load of the tenants, and its request.
abbrev call : Fetch
call = auth_request browser [] (codes "v1/admin/tenants") (codes "GET") [] none

abbrev arriving : Request
arriving = record {
  method = get;
  path = codes "/api/v1/admin/tenants";
  query = [];
  header = λ name.
      if same name (codes "cookie")
      then some (codes "nats-kv-admin-gate=admin-gate-2026-rotateme")
      else if same name (codes "authorization")
      then some (codes "Bearer secret")
      else none;
  body = [];
}

perform_arrives_example :
    (r : OutRequest) × (rest : Text) × ((handle host assets arriving []).1 ≡ sent r ∷ [])
    × (call.url ≡ codes "/api/v1/admin/" ++ rest)
    × (r.uri ≡ control_base ++ (codes "/v1/admin/" ++ path_of rest))
    × (r.method ≡ get)
    × (r.body ≡ [])
    × (find_header (codes "Authorization") r.headers ≡ some (codes "Bearer " ++ token browser []))
unfolding same perform auth_fetch find_header path_of ◌>>=◌ check_token load_tenants
    nats_kv.Text.is_empty is_admin_authed nats_kv.Gate.is_authed nats_kv.Text.split
    nats_kv.Text.strip_prefix nats_kv.Text.trim nats_kv.Text.is_whitespace
    nats_kv.AdminApp.admin_gate_token nats_kv.Text.contains
perform_arrives_example =
    perform_arrives browser lists_tenants host assets call arriving [] (Any.here refl) refl refl
      refl refl
