-- ===== src/Pages/Verify/Through.antt =====
-- The verify page of ui/nats-kv-user/src/lib.rs on top of the application that serves it: `call`
-- asks the application's `handle`, and reads the envelope that it answers with. Beside it stands
-- the adapter asked directly. What the browser adds to a call is its cookie and the type of a text
-- body.
pub mod Transparent
pub mod Contract
use nats_kv.Prelude.{ℕ, Option, none, some, List, [], ◌∷◌, ◌++◌, map, if◌then◌else◌}
use nats_kv.Text.{Text, codes, same, is_empty, concat}
use nats_kv.Base64.{b64decode}
use nats_kv.Spin.{
  Method, get, put, delete, post, other, Request, Body, text, bytes, Response, OutRequest, Upstream,
  Result, ok, err, sent, Trace, Host,
}
use nats_kv.UserApp.Config.{Assets, fallback_token}
use nats_kv.UserApp.Json.{Json, str, num, read_object}
use nats_kv.UserApp.Outbound.{told, or_else, to_adapter}
use nats_kv.UserApp.Handler.{handle}
use nats_kv.Pages.Uri.{utf8}
use nats_kv.Pages.Verify.{Call, Reply, Service}

abbrev pub method_of : Text → Method
method_of m =
    if same m (codes "GET")
    then get
    else if same m (codes "PUT")
    then put
    else if same m (codes "DELETE")
    then delete
    else if same m (codes "POST")
    then post
    else other m

abbrev pub encoded : Text → List ℕ
encoded [] = []
encoded (c ∷ s) = utf8 c ++ encoded s

-- `if (body !== undefined) init.body = body;`
abbrev pub sent_body : Option Text → List ℕ
sent_body none = []
sent_body (some b) = encoded b

-- The content type that the call asks for, or else that of a text body.
abbrev pub sent_type : Option Text → Option Text → Option Text
sent_type (some content_type) body = some content_type
sent_type none none = none
sent_type none (some _) = some (codes "text/plain;charset=UTF-8")

-- `userKey() || "akv_demo_open"`
unfoldable pub bearer_key : Text → Text
bearer_key key = if is_empty key then fallback_token else key

-- `JSON.parse` of an envelope, which is one flat object.
abbrev pub member : Text → List (Text × Json) → Option Json
member name [] = none
member name ((k, v) ∷ ms) = if same k name then some v else member name ms

abbrev pub text_or : Option Json → Text
text_or (some (str s)) = s
text_or _ = []

-- `env.body_b64 ? atob(env.body_b64) : ""`, and what `call` returns; `atob` throws on what is no
-- base64. An envelope without a status, which no route under `/api/nats/` writes, counts as thrown.
abbrev pub reply_with : Text → Option Json → Option Text → Option Reply
reply_with ms (some (num status)) (some inner) =
    some (record { status = status; adapter_ms = ms; body = inner })
reply_with ms _ _ = none

abbrev pub reply_in : Option (List (Text × Json)) → Option Reply
reply_in none = none
reply_in (some env) =
    reply_with (text_or (member (codes "adapter_ms") env)) (member (codes "status") env)
      (b64decode (text_or (member (codes "body_b64") env)))

abbrev pub json_text : Body → Text
json_text (text s) = s
json_text (bytes b) = b

-- `await r.json()`; an error of the handler is answered by the platform with no JSON.
unfoldable pub read_reply : Result Response → Option Reply
read_reply (err e) = none
read_reply (ok r) = reply_in (read_object (json_text r.body))

module _ (cookie key : Text) where
  -- The headers of `init`, as the application finds them.
  unfoldable pub header_of : Call → Text → Option Text
  unfolding bearer_key
  header_of c name =
      if same name (codes "cookie")
      then some cookie
      else if same name (codes "x-kv-key")
      then some (bearer_key key)
      else if same name (codes "if-match")
      then c.if_match
      else if same name (codes "content-type")
      then sent_type c.content_type c.body
      else none

  -- `fetch("/api" + path, init)`
  unfoldable pub request_of : Call → Request
  unfolding header_of
  request_of c = record {
    method = method_of c.method;
    path = codes "/api" ++ c.path;
    query = c.query;
    header = header_of c;
    body = sent_body c.body;
  }

  module _ (host : Host) (assets : Assets) where
    -- `call`
    unfoldable pub through : Service Trace
    unfolding read_reply request_of
    through = record {
      answer = λ t c. let (r, t') = handle host (request_of c) assets t in (read_reply r, t');
    }

-- The adapter's own reply.
abbrev pub reply_of : Result Upstream → Option Reply
reply_of (err e) = none
reply_of (ok up) = some (record {
  status = up.status;
  adapter_ms = told (codes "x-latency-ms") up.headers;
  body = up.body;
})

abbrev pub after : Text → Text → Text
after [] s = s
after (_ ∷ p) [] = []
after (_ ∷ p) (_ ∷ s) = after p s

-- The stored key, or the shared demo key.
abbrev pub key_or_demo : Text → Text
key_or_demo [] = codes "akv_demo_open"
key_or_demo (c ∷ key) = c ∷ key

-- The method of this name, the body as UTF-8, and the type of a text body, for a client that is not
-- the page.
abbrev pub verbs : List (Text × Method)
verbs =
    (codes "GET", get) ∷ (codes "PUT", put) ∷ (codes "DELETE", delete) ∷ (codes "POST", post) ∷ []

abbrev pub verb_in : List (Text × Method) → Text → Method
verb_in [] m = other m
verb_in ((name, v) ∷ vs) m = if same m name then v else verb_in vs m

abbrev pub utf8_bytes : Text → List ℕ
utf8_bytes s = concat (map utf8 s)

abbrev pub body_bytes : Option Text → List ℕ
body_bytes none = []
body_bytes (some b) = utf8_bytes b

abbrev pub text_mark : Option Text → Option Text
text_mark none = none
text_mark (some _) = some (codes "text/plain;charset=UTF-8")

-- The adapter's request for a call, as a client that knows the adapter writes it: the address is
-- what follows `/nats/`, with the query if there is one.
unfoldable pub adapter_request : Text → Call → OutRequest
adapter_request key c =
    to_adapter (verb_in verbs c.method) (after (codes "/nats/") c.path) c.query (body_bytes c.body)
      (key_or_demo key) c.if_match none (or_else c.content_type (text_mark c.body))

-- The adapter asked directly, by the same key.
unfoldable pub direct : Text → Host → Service Trace
unfolding adapter_request
direct key host = record {
  answer = λ t c. let r = adapter_request key c in (reply_of (host.send t r), sent r ∷ t);
}
