-- ===== src/Pages/Play/Arrivals.antt =====
-- The way of a call of the playground through the user application to the adapter.
use nats_kv.Prelude.{
  ◌≡◌, refl, ap, ◌∙◌, append_assoc, append-nil, true, Bool-cases, inl, inr, some, [], ◌∷◌, ◌++◌,
  if◌then◌else◌,
}
use nats_kv.Text.{Text, codes, same, is_empty, contains}
use nats_kv.Spin.{Request, OutRequest, sent, Trace, Host, find_header}
use nats_kv.UserApp.Config.{Assets, adapter_base, fallback_token, unwrap_or, is_ui_authed}
use nats_kv.UserApp.Handler.{handle, with_query}
use nats_kv.UserApp.Handler.Forwarding.{handle-fields}
use nats_kv.Browser.{Browser}
use nats_kv.Pages.Uri.{encode_uri_component}
use nats_kv.Pages.Session.{user_key, key_header}
use nats_kv.Pages.Play.{nats, op, op_fetch}

-- What follows `/api/nats/` in the address of a call.
abbrev pub below_nats : Text → Text → Text → Text
below_nats verb bucket key =
    codes "v1/kv/"
    ++ (encode_uri_component bucket
        ++ (codes "/"
            ++ (encode_uri_component key
                ++ (if same verb (codes "INCR") then codes "/incr" else []))))

op_path :
    (verb bucket key value : Text)
    → (op nats verb bucket key value).path ≡ codes "nats/" ++ below_nats verb bucket key
unfolding op
op_path verb bucket key value = elim (Bool-cases (same verb (codes "INCR"))) [
  | inl incr ↦ rw incr (simp append_assoc)
  | inr other ↦ rw other (simp append-nil)
]

abbrev pub key_used : Text → Text
key_used key = if is_empty key then fallback_token else key

key_sent :
    (browser : Browser) (u : nats_kv.Browser.Trace)
    → unwrap_or (find_header (codes "X-KV-Key") (key_header browser u)) fallback_token
      ≡ key_used (user_key browser u)
unfolding find_header same
key_sent browser u = elim (Bool-cases (is_empty (user_key browser u))) [
  | inl none_kept ↦ rw none_kept refl
  | inr kept ↦ rw kept refl
]

-- A call that a button of the playground makes to NATS, if it arrives at the user application as a
-- request for its address without a query, with its `X-KV-Key` and the gate's token, makes one
-- call itself: to the key's address at the adapter, with the caller's method and body, and with
-- the visitor's key, or the shared demo key for a visitor who has none.
pub op_arrives :
    (browser : Browser) (host : Host) (assets : Assets) (req : Request) (t : Trace)
    (u : nats_kv.Browser.Trace) (verb bucket key value : Text)
    → let f = op_fetch browser (op nats verb bucket key value) u in
      req.path ≡ f.url
      → req.query ≡ []
      → req.header (codes "x-kv-key") ≡ find_header (codes "X-KV-Key") f.headers
      → is_ui_authed host req ≡ true
      → (r : OutRequest) × ((handle host req assets t).1 ≡ sent r ∷ t)
        × (r.uri ≡ adapter_base ++ (codes "/" ++ below_nats verb bucket key))
        × (r.method ≡ req.method)
        × (r.body ≡ req.body)
        × (find_header (codes "Authorization") r.headers
            ≡ some (codes "Bearer " ++ key_used (user_key browser u)))
unfolding op_fetch contains with_query is_empty
op_arrives browser host assets req t u verb bucket key value path query header authed =
    let rest = below_nats verb bucket key in
    let (r, trace, method, uri, body, auth) =
      handle-fields host assets req rest t
        (path ∙ ap (λ p. codes "/api/" ++ p) (op_path verb bucket key value)) authed
        (rw query refl) in
    (r, trace, uri ∙ (rw query refl), method, body, auth ∙ (rw (header, key_sent browser u) refl))
