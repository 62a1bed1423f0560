-- ===== src/UserApp/Proxy/Requests.antt =====
-- What the requests that the proxies build carry.
use nats_kv.Prelude.{ℕ, ◌≡◌, refl, true, Option, none, some, List, ◌++◌, arith, if◌then◌else◌}
use nats_kv.Text.{Text, codes, same, starts_with, is_empty}
use nats_kv.Spin.{Method, OutRequest, find_header}
use nats_kv.UserApp.Config.{adapter_base, control_base, unwrap_or, json_type}
use nats_kv.UserApp.Proxy.{bytes_empty, nats_request, control_request}

module _ (method : Method) (path : Text) (body : List ℕ) (token : Text)
    (if_match if_none_match content_type : Option Text) where
  abbrev r : OutRequest
  r = nats_request method path body token if_match if_none_match content_type

  -- The adapter is given the token, and the caller's conditions as they are.
  pub nats_request-headers :
      (find_header (codes "Authorization") r.headers ≡ some (codes "Bearer " ++ token))
      × (find_header (codes "If-Match") r.headers ≡ if_match)
      × (find_header (codes "If-None-Match") r.headers ≡ if_none_match)
      × (find_header (codes "Content-Type") r.headers ≡ (
          if bytes_empty body
          then none
          else some (unwrap_or content_type (codes "application/octet-stream"))))
  unfolding nats_request find_header same
  nats_request-headers = ground arith

  -- Method, address and body are the caller's.
  pub nats_request-fields :
      (r.method ≡ method) × (r.uri ≡ adapter_base ++ (codes "/" ++ path)) × (r.body ≡ body)
  unfolding nats_request
  nats_request-fields = (refl, refl, refl)

  pub nats_request-base : starts_with (adapter_base ++ codes "/") r.uri ≡ true
  unfolding nats_request starts_with
  nats_request-base = refl

module _ (method : Method) (path : Text) (body : List ℕ) (bearer : Text) where
  abbrev c : OutRequest
  c = control_request method path body bearer

  -- The control plane is given the caller's own credential, if there is one.
  pub control_request-headers :
      (find_header (codes "Authorization") c.headers
        ≡ (if is_empty bearer then none else some bearer))
      × (find_header (codes "Content-Type") c.headers
          ≡ (if bytes_empty body then none else some json_type))
  unfolding control_request find_header same
  control_request-headers = ground arith

  pub control_request-base : starts_with (control_base ++ codes "/") c.uri ≡ true
  unfolding control_request starts_with
  control_request-base = refl
