-- ===== src/Tests/Invite.antt =====
-- Instances of the theorem on a visitor's request for an invite.
use nats_kv.Prelude.{◌≡◌, refl, ◌||◌, none, [], ◌∷◌, if◌then◌else◌}
use nats_kv.Text.{codes, is_empty}
use nats_kv.Spin.{post, Request, sent}
use nats_kv.UserApp.Handler.{handle}
use nats_kv.AdminPage.Calls.{calls}
use nats_kv.Pages.GatePage.{js_trim}
use nats_kv.Pages.GatePage.Invite.{invite_call, submit_request}
use nats_kv.Pages.GatePage.Invite.Arrivals.{submit_arrives}
use nats_kv.Tests.{host, assets}
use nats_kv.Tests.AdminPage.{browser}

abbrev request : Request
request = record {
  method = post;
  path = codes "/api/request-invite";
  query = [];
  header = λ _. none;
  body = codes "{}";
}

submit_arrives_example :
    (calls (submit_request browser (codes " Ann ") (codes "a@b") [] []).1 ≡ (
      if is_empty (js_trim (codes " Ann ")) || is_empty (js_trim (codes "a@b"))
      then []
      else invite_call browser (js_trim (codes " Ann ")) (js_trim (codes "a@b")) (js_trim []) ∷ []))
    × ((handle host request assets []).1
        ≡ sent (record {
          method = post;
          uri = codes "https://cp.nats-kv.connected-cloud.io/v1/internal/invite-requests";
          headers = (codes "Content-Type", codes "application/json") ∷ [];
          body = codes "{}";
        })
          ∷ [])
submit_arrives_example =
    submit_arrives browser (codes " Ann ") (codes "a@b") [] [] host assets request [] refl refl
