-- ===== src/UserApp/Outbound/Built.antt =====
-- The code builds the requests as they are written out, and reads the headers so.
use nats_kv.Prelude.{
  ℕ, ◌≡◌, refl, ap, sym, ◌∙◌, ◌≢◌, inl, inr, Bool-cases, Option-cases, append_assoc, Option, none,
  some, List, [], ◌∷◌, ◌++◌, if◌then◌else◌, arith,
}
use nats_kv.Text.{Text, codes, same, split, is_empty, to_lowercase}
use nats_kv.Text.Laws.{same→eq}
use nats_kv.Text.Split.{split-append, split-Lacks}
use nats_kv.Spin.{Method}
use nats_kv.UserApp.Config.{adapter_base, control_base, unwrap_or, fallback_token}
use nats_kv.UserApp.Proxy.{
  bytes_empty, header_if, header_unless, Seen, note_header, scan_headers, nats_request,
  control_request, last_part, store_key,
}
use nats_kv.UserApp.Handler.{with_query}
use nats_kv.UserApp.Outbound.{
  given, location, stated, typed, credential, to_adapter, to_control, named, IsPathTo,
}

location_lem :
    (base rest query : Text)
    → base ++ (codes "/" ++ with_query rest query) ≡ (base ++ codes "/") ++ location rest query
unfolding with_query is_empty
location_lem base rest [] = sym (append_assoc base (codes "/") rest)
location_lem base rest (c ∷ query) = sym (append_assoc base (codes "/") _)

stated_lem : (name : Text) (o : Option Text) → header_if name o ≡ stated name o
stated_lem name none = refl
stated_lem name (some v) = refl

typed_lem :
    (body : List ℕ) (v : Text)
    → header_unless (bytes_empty body) (codes "Content-Type") v ≡ typed body v
typed_lem [] v = refl
typed_lem (b ∷ body) v = refl

given_lem : (o : Option Text) (d : Text) → unwrap_or o d ≡ given o d
given_lem none d = refl
given_lem (some v) d = refl

credential_lem :
    (o : Option Text)
    → header_unless (is_empty (unwrap_or o [])) (codes "Authorization") (unwrap_or o [])
      ≡ credential o
unfolding is_empty
credential_lem none = refl
credential_lem (some []) = refl
credential_lem (some (c ∷ v)) = refl

-- The two requests, with the caller's parts.
pub nats_request_lem :
    (method : Method) (rest query : Text) (body : List ℕ) (key : Option Text)
    (if_match if_none_match content_type : Option Text)
    → nats_request method
        (with_query rest query)
        body
        (unwrap_or key fallback_token)
        if_match
        if_none_match
        content_type
      ≡ to_adapter method rest query body
          (given key (codes "akv_demo_open"))
          if_match
          if_none_match
          content_type
unfolding nats_request
nats_request_lem method rest query body key a b c =
    rw
      (
        location_lem adapter_base rest query,
        stated_lem (codes "If-Match") a,
        stated_lem (codes "If-None-Match") b,
        given_lem c (codes "application/octet-stream"),
        given_lem key (codes "akv_demo_open"),
        typed_lem body (given c (codes "application/octet-stream")),
      )
      refl

pub control_request_lem :
    (method : Method) (rest query : Text) (body : List ℕ) (authorization : Option Text)
    → control_request method (with_query rest query) body (unwrap_or authorization [])
      ≡ to_control method rest query body authorization
unfolding control_request
control_request_lem method rest query body o =
    rw
      (
        location_lem control_base rest query,
        credential_lem o,
        typed_lem body (codes "application/json"),
      )
      refl

-- The loop over the headers.
note_header_lem :
    (k s : Text) (seen : Seen)
    → ((note_header k s seen).adapter_ms
        ≡ given (if same k (codes "x-latency-ms") then some s else none) seen.adapter_ms)
      × ((note_header k s seen).served_by
          ≡ given (if same k (codes "x-served-by") then some s else none) seen.served_by)
      × ((note_header k s seen).revision
          ≡ given (if same k (codes "x-revision") then some s else none) seen.revision)
unfolding note_header same
note_header_lem k s seen = elim (Bool-cases (same k (codes "x-latency-ms"))) [
  | inl e ↦ rw (same→eq k _ e) (refl, refl, refl)
  | inr e ↦ elim (Bool-cases (same k (codes "x-served-by"))) [
    | inl f ↦ rw (same→eq k _ f) (refl, refl, refl)
    | inr f ↦ rw (e, f) ground arith
  ]
]

given-named :
    (name k v x d : Text) (hs : List (Text × Option Text))
    → x ≡ given (if same (to_lowercase k) name then some v else none) d
    → given (named name hs) x ≡ given (named name ((k, some v) ∷ hs)) d
given-named name k v x d hs e = elim (Option-cases (named name hs)) [
  | inl h ↦ rw h e
  | inr (w, h) ↦ rw h refl
]

pub scan_headers_lem :
    (hs : List (Text × Option Text)) (seen : Seen)
    → ((scan_headers hs seen).adapter_ms ≡ given (named (codes "x-latency-ms") hs) seen.adapter_ms)
      × ((scan_headers hs seen).served_by ≡ given (named (codes "x-served-by") hs) seen.served_by)
      × ((scan_headers hs seen).revision ≡ given (named (codes "x-revision") hs) seen.revision)
unfolding scan_headers
scan_headers_lem [] seen = (refl, refl, refl)
scan_headers_lem ((k, none) ∷ hs) seen = scan_headers_lem hs seen
scan_headers_lem ((k, some s) ∷ hs) seen =
    let (a, b, c) = note_header_lem (to_lowercase k) s seen in
    let (p, q, r) = scan_headers_lem hs (note_header (to_lowercase k) s seen) in
    (
      p ∙ given-named (codes "x-latency-ms") k s _ seen.adapter_ms hs a,
      q ∙ given-named (codes "x-served-by") k s _ seen.served_by hs b,
      r ∙ given-named (codes "x-revision") k s _ seen.revision hs c,
    )

-- The key of a path.
last_part-last :
    (found key : Text) (ps : List Text) → key ≢ [] → last_part found (ps ++ key ∷ []) ≡ key
unfolding last_part is_empty
last_part-last found [] [] h = absurd (h refl)
last_part-last found (c ∷ key) [] h = refl
last_part-last found key (p ∷ ps) h = last_part-last _ key ps h

pub store_key-IsPathTo : (key path : Text) → IsPathTo key path → store_key path ≡ key
unfolding store_key
store_key-IsPathTo key path (dir, e, filled, lacks) =
    ap (λ p. last_part [] (split b'/' p)) e
    ∙ ap (last_part [])
        (split-append b'/' dir key ∙ ap (λ ps. split b'/' dir ++ ps) (split-Lacks b'/' key lacks))
    ∙ last_part-last [] key (split b'/' dir) filled

-- A path without a query, and no authorization.
pub control_request-none :
    (method : Method) (rest : Text) (body : List ℕ)
    → control_request method rest body [] ≡ to_control method rest [] body none
unfolding with_query is_empty
control_request-none method rest body = control_request_lem method rest [] body none

-- A path that holds its query, if it has one.
pub nats_request-path :
    (method : Method) (path : Text) (body : List ℕ) (key : Text)
    (if_match if_none_match content_type : Option Text)
    → nats_request method path body key if_match if_none_match content_type
      ≡ to_adapter method path [] body key if_match if_none_match content_type
unfolding with_query is_empty
nats_request-path method path body key a b c = nats_request_lem method path [] body (some key) a b c
