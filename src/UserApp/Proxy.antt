-- ===== src/UserApp/Proxy.antt =====
-- The calls that ui/nats-kv-user/src/lib.rs makes for its clients: `call_nats`, `call_control`,
-- `forward_invite_request`, `call_cosmos` and the probes of `handle`.
pub mod Traces
pub mod Requests
pub mod Answers
pub mod Store
use nats_kv.Prelude.{ℕ, Bool, true, false, Option, none, some, List, [], ◌∷◌, ◌++◌, if◌then◌else◌}
use nats_kv.Text.{Text, codes, same, is_empty, split, to_lowercase}
use nats_kv.Base64.{b64encode}
use nats_kv.Spin.{
  Method, get, put, delete, post, other, Request, bytes, Response, OutRequest, Result, ok, err,
  Host,
}
use nats_kv.Spin.Io.{
  Io, pure, ◌>>=◌, send, elapsed_us, store_open, store_get, store_set, store_delete,
}
use nats_kv.UserApp.Config.{adapter_base, control_base, unwrap_or, page, json_type}
use nats_kv.UserApp.Envelope.{nats_payload, cosmos_payload, probe_payload, json_err_payload}

abbrev pub bytes_empty : List ℕ → Bool
bytes_empty [] = true
bytes_empty (_ ∷ _) = false

-- `if let Some(v) = value { builder.header(name, v); }`
abbrev pub header_if : Text → Option Text → List (Text × Text)
header_if name none = []
header_if name (some v) = (name, v) ∷ []

abbrev pub header_unless : Bool → Text → Text → List (Text × Text)
header_unless true name v = []
header_unless false name v = (name, v) ∷ []

-- What the adapter answered with, from its headers.
pub record Seen : Type 0 where
  pub adapter_ms : Text
  pub served_by : Text
  pub revision : Text

abbrev pub nothing_seen : Seen
nothing_seen = record { adapter_ms = []; served_by = []; revision = [] }

-- `match k.to_lowercase().as_str()`
unfoldable pub note_header : Text → Text → Seen → Seen
note_header k s seen =
    if same k (codes "x-latency-ms")
    then record seen { adapter_ms = s }
    else if same k (codes "x-served-by")
    then record seen { served_by = s }
    else if same k (codes "x-revision")
    then record seen { revision = s }
    else seen

-- `for (k, v) in upstream.headers()`
unfoldable pub scan_headers : List (Text × Option Text) → Seen → Seen
scan_headers [] seen = seen
scan_headers ((k, none) ∷ hs) seen = scan_headers hs seen
scan_headers ((k, some s) ∷ hs) seen = scan_headers hs (note_header (to_lowercase k) s seen)

-- The request that `call_nats` builds.
unfoldable pub nats_request :
    Method → Text → List ℕ → Text → Option Text → Option Text → Option Text → OutRequest
nats_request method path body token if_match if_none_match caller_content_type =
    let ct = unwrap_or caller_content_type (codes "application/octet-stream") in
    record {
      method = method;
      uri = adapter_base ++ (codes "/" ++ path);
      headers =
          (codes "Authorization", codes "Bearer " ++ token)
          ∷ (header_if (codes "If-Match") if_match
              ++ (header_if (codes "If-None-Match") if_none_match
                  ++ header_unless (bytes_empty body) (codes "Content-Type") ct));
      body = body;
    }

module _ (host : Host) where
  pub call_nats :
      Method → Text → List ℕ → Text → Option Text → Option Text → Option Text → Io Response
  unfolding nats_request
  call_nats method path body token if_match if_none_match caller_content_type = do
    upstream ←
        send host (nats_request method path body token if_match if_none_match caller_content_type)
    elapsed ← elapsed_us host
    let seen = scan_headers upstream.headers nothing_seen
    pure (
        page json_type (
          nats_payload upstream.status elapsed seen.adapter_ms seen.served_by seen.revision
            (b64encode upstream.body)))

-- The request that `call_control` builds.
unfoldable pub control_request : Method → Text → List ℕ → Text → OutRequest
control_request method path body bearer = record {
  method = method;
  uri = control_base ++ (codes "/" ++ path);
  headers =
      header_unless (is_empty bearer) (codes "Authorization") bearer
      ++ header_unless (bytes_empty body) (codes "Content-Type") json_type;
  body = body;
}

-- The loop that hands on the content type of the control plane.
unfoldable pub content_types : List (Text × Option Text) → List (Text × Text)
content_types [] = []
content_types ((k, none) ∷ hs) = content_types hs
content_types ((k, some s) ∷ hs) =
    let rest = content_types hs in
    if same (to_lowercase k) (codes "content-type") then (k, s) ∷ rest else rest

module _ (host : Host) where
  pub call_control : Method → Text → List ℕ → Text → Io Response
  unfolding control_request
  call_control method path body bearer = do
    upstream ← send host (control_request method path body bearer)
    pure (record {
      status = upstream.status;
      headers = content_types upstream.headers;
      body = bytes upstream.body;
    })

  pub forward_invite_request : Request → Io Response
  unfolding call_control
  forward_invite_request req = call_control post (codes "v1/internal/invite-requests") req.body []

-- `split('/').filter(|p| !p.is_empty()).last().unwrap_or("")`; `found` is the last part so far.
unfoldable pub last_part : Text → List Text → Text
last_part found [] = found
last_part found (p ∷ ps) = last_part (if is_empty p then found else p) ps

unfoldable pub store_key : Text → Text
unfolding last_part
store_key path = last_part [] (split b'/' path)

-- `{method:?}`
abbrev pub method_name : Method → Text
method_name get = codes "Get"
method_name put = codes "Put"
method_name delete = codes "Delete"
method_name post = codes "Post"
method_name (other name) = name

-- `.map(|opt| (200, opt.unwrap_or_default()))` and `.map(|_| (200, Vec::new()))`
abbrev pub got : Result (Option (List ℕ)) → Result (ℕ × List ℕ)
got (ok opt) = ok (200, unwrap_or opt [])
got (err e) = err e

abbrev pub done : Result (Unit {0}) → Result (ℕ × List ℕ)
done (ok _) = ok (200, [])
done (err e) = err e

-- `let (status, body_bytes, error) = match result { … }`
abbrev pub outcome : Result (ℕ × List ℕ) → ℕ × List ℕ × Text
outcome (ok (s, b)) = (s, b, [])
outcome (err e) = (500, [], e)

unfoldable pub json_err : Text → Response
json_err msg = page json_type (json_err_payload msg)

module _ (host : Host) where
  -- `match method { … }` on the open store
  unfoldable pub store_call : Method → Text → List ℕ → Io (Result (ℕ × List ℕ))
  store_call get key body = do r ← store_get host key; pure (got r)
  store_call put key body = do r ← store_set host key body; pure (done r)
  store_call delete key body = do r ← store_delete host key; pure (done r)
  store_call method key body =
      pure (err (codes "method " ++ (method_name method ++ codes " not supported")))

  -- What follows `Store::open_default()`.
  unfoldable pub with_store : Result (Unit {0}) → Method → Text → List ℕ → Io Response
  with_store (err e) method key body = pure (json_err (codes "cosmos open: " ++ e))
  with_store (ok _) method key body = do
    result ← store_call method key body
    elapsed ← elapsed_us host
    let (status, body_bytes, error) = outcome result
    pure (page json_type (cosmos_payload status elapsed (b64encode body_bytes) error))

  unfoldable pub call_cosmos : Method → Text → List ℕ → Io Response
  unfolding store_call with_store
  call_cosmos method path body = do
    store ← store_open host
    with_store store method (store_key path) body

  -- A timed GET of a fixed address.
  pub probe : Text → List (Text × Text) → Io Response
  probe uri headers = do
    upstream ← send host (record { method = get; uri = uri; headers = headers; body = [] })
    elapsed ← elapsed_us host
    pure (page json_type (probe_payload elapsed upstream.status (b64encode upstream.body)))
