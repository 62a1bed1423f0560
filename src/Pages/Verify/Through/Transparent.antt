-- ===== src/Pages/Verify/Through/Transparent.antt =====
-- `call` through the application gives what the adapter gives.
use nats_kv.Prelude.{
  ◌∷◌, ℕ, List, Option, ◌⊎◌, inl, inr, ◌≡◌, refl, sym, ap, ◌∙◌, true, false, none, some, [], ◌++◌,
  All,
}
use nats_kv.Text.{Text, codes, same, is_empty, contains}
use nats_kv.Base64.Groups.{IsByte}
use nats_kv.Spin.{Method, Response, OutRequest, Upstream, Result, ok, err, Trace, Host}
use nats_kv.UserApp.Config.{Assets, is_ui_authed}
use nats_kv.UserApp.Outbound.{or_else, to_adapter}
use nats_kv.Pages.Uri.{utf8}
use nats_kv.UserApp.Outbound.Built.{nats_request_lem, nats_request-path}
use nats_kv.UserApp.Proxy.{nats_request, call_nats}
use nats_kv.UserApp.Proxy.Answers.{IsPlainTold, call_nats_answer, call_nats_error}
use nats_kv.UserApp.Proxy.Traces.{trace-call_nats}
use nats_kv.UserApp.Handler.{with_query}
use nats_kv.UserApp.Handler.Forwarding.{handle-call_nats}
use nats_kv.Pages.Verify.{Call}
use nats_kv.Pages.Verify.Through.{
  method_of, sent_body, sent_type, bearer_key, key_or_demo, read_reply, header_of, request_of,
  through, reply_of, adapter_request, direct, encoded, utf8_bytes, body_bytes, text_mark,
}

-- The adapter answers with bytes, and what it tells of itself in headers needs no escape in JSON.
abbrev pub IsWellFormed : Host → Type 0
IsWellFormed host =
    (t : Trace) (r : OutRequest) (up : Upstream)
    → host.send t r ≡ ok up
    → IsPlainTold up.headers × All IsByte up.body

-- The cookie that goes with every call opens the gate.
abbrev pub IsAdmitted : Text → Text → Host → Type 0
IsAdmitted cookie key host = (c : Call) → is_ui_authed host (request_of cookie key c) ≡ true

Result-cases : (r : Result Upstream) → ((up : Upstream) × (r ≡ ok up)) ⊎ ((e : Text) × (r ≡ err e))
Result-cases (ok up) = inl (up, refl)
Result-cases (err e) = inr (e, refl)

module _ (host : Host) (well_formed : IsWellFormed host) (t : Trace) where
  module _ (method : Method) (path : Text) (body : List ℕ) (token : Text)
      (if_match if_none_match content_type : Option Text) where
    abbrev asked : OutRequest
    asked = nats_request method path body token if_match if_none_match content_type

    built : asked ≡ to_adapter method path [] body token if_match if_none_match content_type
    built = nats_request-path method path body token if_match if_none_match content_type

    abbrev answered : Result Response × Trace
    answered = call_nats host method path body token if_match if_none_match content_type t

    read_reply-call_nats : read_reply answered.0 ≡ reply_of (host.send t asked)
    unfolding read_reply same
    read_reply-call_nats = elim (Result-cases (host.send t asked)) [
      | inl (up, e) ↦
          let (plain, is_bytes) = well_formed t asked up e in
          let (payload, elapsed, b64, answer, env, decoded) =
            call_nats_answer host t method path body token if_match if_none_match content_type up
              (ap (host.send t) (sym built) ∙ e) plain is_bytes in
          rw (answer, env, decoded, e) refl
      | inr (m, e) ↦
          let answer =
            call_nats_error host t method path body token if_match if_none_match content_type m
              (ap (host.send t) (sym built) ∙ e) in
          rw (answer, e) refl
    ]

bearer_key_lem : (key : Text) → bearer_key key ≡ key_or_demo key
unfolding bearer_key is_empty
bearer_key_lem [] = refl
bearer_key_lem (c ∷ key) = refl

utf8_bytes_lem : (s : Text) → encoded s ≡ utf8_bytes s
utf8_bytes_lem [] = refl
utf8_bytes_lem (c ∷ s) = ap (λ bs. utf8 c ++ bs) (utf8_bytes_lem s)

body_bytes_lem : (o : Option Text) → sent_body o ≡ body_bytes o
body_bytes_lem none = refl
body_bytes_lem (some b) = utf8_bytes_lem b

sent_type_lem : (o body : Option Text) → sent_type o body ≡ or_else o (text_mark body)
sent_type_lem (some v) body = refl
sent_type_lem none none = refl
sent_type_lem none (some b) = refl

adapter_request_lem :
    (key : Text) (c : Call) (rest : Text)
    → c.path ≡ codes "/nats/" ++ rest
    → nats_request
        (method_of c.method)
        (with_query rest c.query)
        (sent_body c.body)
        (bearer_key key)
        c.if_match
        none
        (sent_type c.content_type c.body)
      ≡ adapter_request key c
unfolding adapter_request
adapter_request_lem key c rest path =
    nats_request_lem (method_of c.method) rest c.query (sent_body c.body) (some (bearer_key key))
      c.if_match none (sent_type c.content_type c.body)
    ∙ rw (path, bearer_key_lem key, body_bytes_lem c.body, sent_type_lem c.content_type c.body) refl

module _ (cookie key : Text) (host : Host) (assets : Assets) where
  -- A call of the page under `/nats/`, whose query has no `access=`, gives through the application
  -- what the adapter itself gives, asked by the same key, with the same method, path, query, body,
  -- condition and content type: the adapter's status and body, and the last X-Latency-Ms that it
  -- tells; or throws where the adapter does not answer. It makes that one request of the adapter and
  -- no other. This holds for every
  -- host whose adapter answers with bytes and with headers that need no escape in JSON, if the
  -- cookie opens the gate.
  pub transparent :
      IsAdmitted cookie key host
      → IsWellFormed host
      → (t : Trace) (c : Call) (rest : Text) → c.path ≡ codes "/nats/" ++ rest
      → contains (codes "access=") c.query ≡ false
      → (through cookie key host assets).answer t c ≡ (direct key host).answer t c
  unfolding through direct request_of header_of adapter_request same
  transparent admitted well_formed t c rest path no_access =
      let h =
        handle-call_nats host assets (request_of cookie key c) rest t
          (ap (λ p. codes "/api" ++ p) path) (admitted c) no_access in
      let q = adapter_request_lem key c rest path in
      let r =
        read_reply-call_nats host well_formed t (method_of c.method) (with_query rest c.query)
          (sent_body c.body) (bearer_key key) c.if_match none (sent_type c.content_type c.body) in
      let traced =
        trace-call_nats host t (method_of c.method) (with_query rest c.query) (sent_body c.body)
          (bearer_key key) c.if_match none (sent_type c.content_type c.body) in
      rw (h, r, traced, q) refl
