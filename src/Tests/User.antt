-- ===== src/Tests/User.antt =====
-- Instances of the theorems on the user application.
use nats_kv.Prelude.{true, ℕ, ◌≡◌, refl, ◌⊎◌, none, some, [], ◌∷◌, arith, All}
use nats_kv.Text.{
  Text, codes, same, trim, is_whitespace, strip_prefix, starts_with, split, contains, join,
  to_lowercase,
}
use nats_kv.Base64.{b64decode}
use nats_kv.Spin.{get, post, Request, ok, sent, find_header}
use nats_kv.Gate.{is_authed, gate_cookie}
use nats_kv.UserApp.Handler.Claim.{claim_admits}
use nats_kv.Gate.Cookies.{kept}
use nats_kv.UserApp.Config.{
  ui_cookie, page, json_type, ui_gate_token, is_ui_authed, is_public_path, render_gate_page,
  redirect_with_cookie,
}
use nats_kv.UserApp.Json.{str, num, read_object}
use nats_kv.UserApp.Proxy.{control_request, call_nats, json_err}
use nats_kv.UserApp.Proxy.Answers.{nats_members, call_nats_answer, IsRequoted, json_err_answer}
use nats_kv.UserApp.Handler.{claim_page, served, handle}
use nats_kv.UserApp.Handler.Safety.{handle_unauthed}
use nats_kv.UserApp.Handler.Reaches.{Reaches}
use nats_kv.UserApp.Handler.Credentials.{IsConfined, handle-IsConfined}
use nats_kv.UserApp.Handler.Redirect.{Follows, redirect_lands}
use nats_kv.UserApp.Handler.Forwarding.{handle_forwards}
use nats_kv.Tests.{host, request_of, get_of, assets, answer}

-- A visitor's invite request, without the token.
abbrev invite : Request
invite = request_of post (codes "/api/request-invite") [] [] none

handle_unauthed_example :
    (handle host invite assets [] ≡ (ok (render_gate_page assets), []))
    ⊎ ((is_public_path (codes "/api/request-invite") ≡ true)
        × (((handle host invite assets []).1 ≡ [])
            ⊎ ((handle host invite assets []).1
                ≡ sent (control_request post (codes "v1/internal/invite-requests") [] []) ∷ [])))
unfolding is_ui_authed is_authed ui_gate_token split strip_prefix same
handle_unauthed_example = handle_unauthed host invite [] assets refl

-- A read through the adapter, with the token in the query.
abbrev read_key : Request
read_key =
    request_of get (codes "/api/nats/v1/kv/demo/k") [] (codes "cookie")
      (some (codes "x=y; nats-kv-ui-access=demo-open-2026"))

handle-IsConfined_example : All (IsConfined read_key) (handle host read_key assets []).1
handle-IsConfined_example = handle-IsConfined host read_key assets

handle_forwards_example :
    (handle host read_key assets []).1
    ≡ sent (record {
      method = get;
      uri = codes "http://edge.nats-kv.connected-cloud.io:8080/v1/kv/demo/k";
      headers = (codes "Authorization", codes "Bearer akv_demo_open") ∷ [];
      body = [];
    })
      ∷ []
unfolding is_ui_authed is_authed ui_gate_token split strip_prefix same trim is_whitespace contains
    starts_with
handle_forwards_example =
    handle_forwards host assets read_key (codes "v1/kv/demo/k") [] refl refl refl

-- The first visit with the token, and the one that follows the redirect.
abbrev first_visit : Request
first_visit = get_of (codes "/play") (codes "access=demo-open-2026")

abbrev second_visit : Request
second_visit =
    request_of get (codes "/play") [] (codes "cookie")
      (some (codes "a=b; nats-kv-ui-access=demo-open-2026"))

follows : Follows (redirect_with_cookie host (codes "/play")) (codes "a=b" ∷ []) [] second_visit
unfolding redirect_with_cookie find_header same ui_gate_token join kept
follows = record {
  set_cookie =
      codes
        "nats-kv-ui-access=demo-open-2026; Path=/; Max-Age=1209600; HttpOnly; SameSite=Lax; Secure";
  sets = refl;
  location = refl;
  no_query = refl;
  cookies = refl;
}

redirect_lands_example :
    (handle host first_visit assets [] ≡ (ok (redirect_with_cookie host (codes "/play")), []))
    × (handle host second_visit assets [] ≡ served host second_visit assets (codes "/play") [])
unfolding is_public_path is_ui_authed is_authed ui_gate_token split strip_prefix same trim
    is_whitespace contains starts_with
redirect_lands_example =
    redirect_lands host assets first_visit second_visit (codes "a=b" ∷ []) [] refl (omega arith)
      refl follows [] [] refl refl

-- A stranger's visit to a claim page, and a visit that follows.
abbrev stranger : Request
stranger = get_of (codes "/claim/nothing") []

claim_admits_example :
    (handle host stranger assets [] ≡ (ok (claim_page assets host), []))
    × (find_header (codes "set-cookie") (claim_page assets host).headers
        ≡ some (gate_cookie ui_cookie (ui_gate_token host)))
    × (is_ui_authed host second_visit ≡ true)
unfolding ui_gate_token same join kept trim is_whitespace
claim_admits_example =
    claim_admits host assets stranger (codes "nothing") [] second_visit (codes "a=b" ∷ []) [] refl
      (omega arith) refl refl

call_nats_answer_example :
    (payload : Text) × (elapsed : ℕ) × (body_b64 : Text) × ((call_nats host get
        (codes "v1/kv/demo/k")
        []
        (codes "key")
        none
        none
        none
        []).0
      ≡ ok (page json_type payload))
    × (read_object payload ≡ some (nats_members 200 elapsed answer.headers body_b64))
    × (b64decode body_b64 ≡ some (codes "hi!"))
unfolding same to_lowercase
call_nats_answer_example =
    call_nats_answer host [] get (codes "v1/kv/demo/k") [] (codes "key") none none none answer refl
      (omega arith, omega arith, omega arith) (omega arith)

json_err_answer_example :
    (payload error : Text) × (json_err (codes "no \"store\"") ≡ page json_type payload)
    × (read_object payload
        ≡ some (
            (codes "backend", str (codes "cosmos"))
            ∷ (codes "status", num 500)
            ∷ (codes "upstream_us", num 0)
            ∷ (codes "body_b64", str [])
            ∷ (codes "error", str error)
            ∷ []))
    × IsRequoted (codes "no \"store\"") error
json_err_answer_example = json_err_answer (codes "no \"store\"") (omega arith)
