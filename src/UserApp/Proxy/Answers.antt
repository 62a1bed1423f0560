-- ===== src/UserApp/Proxy/Answers.antt =====
-- What a client reads out of the JSON that the proxies answer with.
use nats_kv.Prelude.{
  ℕ, ◌≡◌, refl, sym, subst, Option, some, inl, inr, Bool-cases, ◌==◌, if◌then◌else◌, List, [], ◌∷◌,
  arith, All, ◌≢◌, ◌≤◌,
}
use nats_kv.Text.{Text, codes, decimal, digits_of}
use nats_kv.Base64.{b64encode, b64decode, char_value}
use nats_kv.Base64.Groups.{IsByte}
use nats_kv.Base64.RoundTrip.{b64decode-b64encode}
use nats_kv.Base64.Shape.{IsAlphabet, b64encode_shape}
use nats_kv.Spin.{Method, Upstream, ok, err, sent, Trace, Host}
use nats_kv.UserApp.Config.{page, json_type}
use nats_kv.UserApp.Envelope.{nats_payload, cosmos_payload, json_err_payload, without_quotes}
use nats_kv.UserApp.Json.{Json, str, num, read_object, render}
use nats_kv.UserApp.Json.RoundTrip.{IsPlain, read_object-render}
use nats_kv.UserApp.Outbound.{told, to_adapter}
use nats_kv.UserApp.Outbound.Built.{nats_request-path, scan_headers_lem}
use nats_kv.UserApp.Proxy.{nothing_seen, call_nats, json_err}

IsAlphabet-IsPlain : (c : ℕ) → IsAlphabet c → IsPlain c
unfolding char_value
IsAlphabet-IsPlain c h = ground arith

-- Base64 needs no escape in a JSON string.
pub b64encode-IsPlain : (bytes : List ℕ) → All IsByte bytes → All IsPlain (b64encode bytes)
b64encode-IsPlain bytes h = each (b64encode bytes) (b64encode_shape bytes h).1
  where
    each : (s : Text) → All IsAlphabet s → All IsPlain s
    each [] h = tt
    each (c ∷ s) (p, h) = (IsAlphabet-IsPlain c p, each s h)

-- The members of the object that `call_nats` answers with.
abbrev pub nats_members : ℕ → ℕ → List (Text × Option Text) → Text → List (Text × Json)
nats_members status elapsed headers body_b64 =
    (codes "backend", str (codes "nats"))
    ∷ (codes "status", num status)
    ∷ (codes "upstream_us", num elapsed)
    ∷ (codes "adapter_ms", str (told (codes "x-latency-ms") headers))
    ∷ (codes "served_by", str (told (codes "x-served-by") headers))
    ∷ (codes "revision", str (told (codes "x-revision") headers))
    ∷ (codes "body_b64", str body_b64)
    ∷ []

-- The three headers that the adapter tells of itself need no escape in a JSON string.
abbrev pub IsPlainTold : List (Text × Option Text) → Type 0
IsPlainTold headers =
    All IsPlain (told (codes "x-latency-ms") headers)
    × All IsPlain (told (codes "x-served-by") headers)
    × All IsPlain (told (codes "x-revision") headers)

read_object-nats_payload :
    (status elapsed : ℕ) (headers : List (Text × Option Text)) (bytes : List ℕ)
    → IsPlainTold headers
    → All IsByte bytes
    → read_object (
        nats_payload status elapsed
          (told (codes "x-latency-ms") headers)
          (told (codes "x-served-by") headers)
          (told (codes "x-revision") headers)
          (b64encode bytes))
      ≡ some (nats_members status elapsed headers (b64encode bytes))
unfolding nats_payload render
read_object-nats_payload status elapsed headers bytes (p, q, r) h =
    let b = b64encode-IsPlain bytes h in
    read_object-render _ _ (omega arith, omega arith)
      (
        omega arith,
        (
          omega arith,
          ((omega arith, p), ((omega arith, q), ((omega arith, r), ((omega arith, b), tt)))),
        ),
      )

-- If the adapter answers, with a body of bytes, and the headers that it tells of itself need no
-- escape, then a JSON reader finds in the answer its status; the last value of each of its headers
-- X-Latency-Ms, X-Served-By and X-Revision, in any case, or the empty text where it has none; and
-- decodes its very body from it.
pub call_nats_answer :
    (host : Host) (t : Trace) (method : Method) (path : Text) (body : List ℕ) (token : Text)
    (if_match if_none_match content_type : Option Text) (upstream : Upstream)
    → host.send t (to_adapter method path [] body token if_match if_none_match content_type)
      ≡ ok upstream
    → IsPlainTold upstream.headers
    → All IsByte upstream.body
    → (payload : Text) × (elapsed : ℕ) × (body_b64 : Text) × ((call_nats host method path body token
          if_match if_none_match content_type t).0
        ≡ ok (page json_type payload))
      × (read_object payload
          ≡ some (nats_members upstream.status elapsed upstream.headers body_b64))
      × (b64decode body_b64 ≡ some upstream.body)
unfolding call_nats
call_nats_answer host t method path body token if_match if_none_match content_type upstream answer
      plain bytes =
    let built = nats_request-path method path body token if_match if_none_match content_type in
    let (ms, by, rev) = scan_headers_lem upstream.headers nothing_seen in
    (
      _,
      host.elapsed_us
          (sent (to_adapter method path [] body token if_match if_none_match content_type) ∷ t),
      b64encode upstream.body,
      rw (built, answer, ms, by, rev) refl,
      read_object-nats_payload upstream.status _ upstream.headers upstream.body plain bytes,
      b64decode-b64encode upstream.body bytes,
    )

-- If the adapter does not answer, `call_nats` passes the error on.
pub call_nats_error :
    (host : Host) (t : Trace) (method : Method) (path : Text) (body : List ℕ) (token : Text)
    (if_match if_none_match content_type : Option Text) (e : Text)
    → host.send t (to_adapter method path [] body token if_match if_none_match content_type) ≡ err e
    → (call_nats host method path body token if_match if_none_match content_type t).0 ≡ err e
unfolding call_nats
call_nats_error host t method path body token if_match if_none_match content_type e answer =
    rw (nats_request-path method path body token if_match if_none_match content_type, answer) refl

-- The members of the objects of `call_cosmos` and `json_err`.
abbrev pub cosmos_members : ℕ → ℕ → Text → Text → List (Text × Json)
cosmos_members status elapsed body_b64 error =
    (codes "backend", str (codes "cosmos"))
    ∷ (codes "status", num status)
    ∷ (codes "upstream_us", num elapsed)
    ∷ (codes "body_b64", str body_b64)
    ∷ (codes "error", str error)
    ∷ []

pub read_object-cosmos_payload :
    (status elapsed : ℕ) (body_b64 error : Text)
    → All IsPlain body_b64
    → All IsPlain error
    → read_object (cosmos_payload status elapsed body_b64 error)
      ≡ some (cosmos_members status elapsed body_b64 error)
unfolding cosmos_payload render
read_object-cosmos_payload status elapsed body_b64 error b e =
    read_object-render _ _ (omega arith, omega arith)
      (omega arith, (omega arith, ((omega arith, b), ((omega arith, e), tt))))

-- A character that can stand in an error message: no backslash and no control character.
abbrev pub IsPlainOrQuote : ℕ → Type 0
IsPlainOrQuote c = (c ≢ b'\\') × (32 ≤ c)

-- Character by character the same text, but for single quotes in place of double ones.
pub data IsRequoted : Text → Text → Type 0 where
  ends : IsRequoted [] []
  quotes : {s r : Text} → IsRequoted s r → IsRequoted (b'"' ∷ s) (b'\'' ∷ r)
  keeps : {c : ℕ} {s r : Text} → c ≢ b'"' → IsRequoted s r → IsRequoted (c ∷ s) (c ∷ r)

without_quotes-IsPlain : (msg : Text) → All IsPlainOrQuote msg → All IsPlain (without_quotes msg)
unfolding without_quotes
without_quotes-IsPlain [] h = tt
without_quotes-IsPlain (c ∷ s) ((p, q), h) = (ground arith, without_quotes-IsPlain s h)

IsRequoted-head :
    (c : ℕ) (s r : Text)
    → IsRequoted s r
    → IsRequoted (c ∷ s) ((if c == b'"' then b'\'' else c) ∷ r)
IsRequoted-head c s r h = elim (Bool-cases (c == b'"')) [
  | inl e ↦
      let same : c ≡ b'"' = ground arith in
      subst (λ d. IsRequoted (d ∷ s) ((if d == b'"' then b'\'' else d) ∷ r)) (sym same) (quotes h)
  | inr e ↦ rw e (keeps (ground arith) h)
]

without_quotes-IsRequoted : (msg : Text) → IsRequoted msg (without_quotes msg)
unfolding without_quotes
without_quotes-IsRequoted [] = ends
without_quotes-IsRequoted (c ∷ s) = IsRequoted-head c s _ (without_quotes-IsRequoted s)

-- `json_err` answers with a JSON object that has status 500, no body, and as its error the message,
-- character by character, with a single quote for each double quote, for every message without
-- backslashes and control characters.
pub json_err_answer :
    (msg : Text)
    → All IsPlainOrQuote msg
    → (payload error : Text) × (json_err msg ≡ page json_type payload)
      × (read_object payload
          ≡ some (
              (codes "backend", str (codes "cosmos"))
              ∷ (codes "status", num 500)
              ∷ (codes "upstream_us", num 0)
              ∷ (codes "body_b64", str [])
              ∷ (codes "error", str error)
              ∷ []))
      × IsRequoted msg error
unfolding json_err json_err_payload cosmos_payload decimal digits_of
json_err_answer msg h = (
  _,
  without_quotes msg,
  refl,
  read_object-cosmos_payload 500 0 [] (without_quotes msg) tt (without_quotes-IsPlain msg h),
  without_quotes-IsRequoted msg,
)
