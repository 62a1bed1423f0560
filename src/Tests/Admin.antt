-- ===== src/Tests/Admin.antt =====
-- Instances of the theorems on the admin application.
use nats_kv.Prelude.{◌≡◌, refl, ◌⊎◌, true, some, [], ◌∷◌, ◌++◌, Any, if◌then◌else◌}
use nats_kv.Text.{Text, codes, same, split}
use nats_kv.Spin.{get, Request, ok, sent}
use nats_kv.AdminApp.{
  Assets, admin_gate_cookie, admin_gate_token, is_admin_authed, gate_page, health, handle,
}
use nats_kv.Gate.Laws.{CarriesCookie, CarriesAccess, IsAccess}
use nats_kv.AdminApp.Safety.{admin_gated, admin_reaches}
use nats_kv.Tests.{host, request_of, get_of}

abbrev assets : Assets
assets = record { gate_html = codes "gate"; index_html = codes "index" }

abbrev visitor : Request
visitor = get_of (codes "/api/v1/admin/tenants") []

no_cookie : ¬ CarriesCookie admin_gate_cookie (admin_gate_token host) visitor
unfolding same
no_cookie c = let e = c.1 in cc

nothing_in_query : (want : Text) → ¬ Any (IsAccess want) ([] ∷ [])
nothing_in_query want (Any.here e) = cc
nothing_in_query want (Any.there h) = elim h [ ]

no_access : ¬ CarriesAccess (admin_gate_token host) visitor
unfolding split
no_access a = nothing_in_query (admin_gate_token host) a

admin_gated_example : handle host assets visitor [] ≡ (
  ok (if same (codes "/api/v1/admin/tenants") (codes "/health") then health else gate_page assets),
  [],
)
admin_gated_example = admin_gated host assets visitor [] no_cookie no_access

abbrev admin : Request
admin =
    request_of get (codes "/api/v1/admin/tenants") [] (codes "cookie")
      (some (codes "nats-kv-admin-gate=admin-gate-2026-rotateme"))

admin_reaches_example :
    ((handle host assets admin []).1 ≡ [])
    ⊎ ((rest : Text) × (codes "/api/v1/admin/tenants" ≡ codes "/api/" ++ rest)
        × (is_admin_authed host admin ≡ true)
        × ((handle host assets admin []).1
            ≡ sent (record {
              method = get;
              uri = codes "https://cp.nats-kv.connected-cloud.io/" ++ rest;
              headers = [];
              body = [];
            })
              ∷ []))
unfolding same
admin_reaches_example = admin_reaches host assets admin []

abbrev asked_for_claimed : Request
asked_for_claimed = record admin { query = codes "include_claimed=true" }

is_authed_whatever : is_admin_authed host admin ≡ true
unfolding is_admin_authed nats_kv.Gate.is_authed same split nats_kv.Text.strip_prefix
    nats_kv.Text.trim nats_kv.Text.is_whitespace admin_gate_token
is_authed_whatever = refl

is_authed_claimed : is_admin_authed host asked_for_claimed ≡ true
unfolding is_admin_authed nats_kv.Gate.is_authed same split nats_kv.Text.strip_prefix
    nats_kv.Text.trim nats_kv.Text.is_whitespace admin_gate_token
is_authed_claimed = refl
