-- ===== src/UserApp/Proxy/Traces.antt =====
-- The calls of the host that each proxy makes, whatever the host answers.
use nats_kv.Prelude.{ℕ, ◌≡◌, refl, Option, List, [], ◌∷◌, ◌++◌, All, arith}
use nats_kv.Text.{Text, codes}
use nats_kv.Spin.{
  Method, get, put, delete, post, other, Request, Result, ok, err, Effect, sent, opened, read,
  wrote, removed, Trace, Host,
}
use nats_kv.UserApp.Proxy.{
  nats_request, call_nats, control_request, call_control, forward_invite_request, store_key,
  store_call, with_store, call_cosmos, probe,
}

module _ (host : Host) (t : Trace) where
  pub trace-call_nats :
      (method : Method) (path : Text) (body : List ℕ) (token : Text)
      (if_match if_none_match content_type : Option Text)
      → (call_nats host method path body token if_match if_none_match content_type t).1
        ≡ sent (nats_request method path body token if_match if_none_match content_type) ∷ t
  unfolding call_nats
  trace-call_nats method path body token if_match if_none_match content_type = ground arith

  pub trace-call_control :
      (method : Method) (path : Text) (body : List ℕ) (bearer : Text)
      → (call_control host method path body bearer t).1
        ≡ sent (control_request method path body bearer) ∷ t
  unfolding call_control
  trace-call_control method path body bearer = ground arith

  pub trace-probe :
      (uri : Text) (headers : List (Text × Text))
      → (probe host uri headers t).1
        ≡ sent (record { method = get; uri = uri; headers = headers; body = [] }) ∷ t
  unfolding probe
  trace-probe uri headers = ground arith

pub trace-forward_invite_request :
    (host : Host) (req : Request) (t : Trace)
    → (forward_invite_request host req t).1
      ≡ sent (control_request post (codes "v1/internal/invite-requests") req.body []) ∷ t
unfolding forward_invite_request
trace-forward_invite_request host req t =
    trace-call_control host t post (codes "v1/internal/invite-requests") req.body []

-- A call of the platform's own store.
abbrev pub IsStoreCall : Effect → Type 0
IsStoreCall (sent r) = ⊥
IsStoreCall _ = Unit

-- `call_cosmos` opens the store, and makes one call of it at most.
pub trace-call_cosmos :
    (host : Host) (method : Method) (path : Text) (body : List ℕ) (t : Trace)
    → (es : List Effect) × ((call_cosmos host method path body t).1 ≡ es ++ t) × All IsStoreCall es
unfolding call_cosmos with_store store_call
trace-call_cosmos host method path body t = after (host.store_open t) method
  where
    after :
        (o : Result (Unit {0})) (m : Method)
        → (es : List Effect) × ((with_store host o m (store_key path) body (opened ∷ t)).1
            ≡ es ++ t)
          × All IsStoreCall es
    after (err e) m = (opened ∷ [], refl, (tt, tt))
    after (ok _) get = (read (store_key path) ∷ opened ∷ [], refl, (tt, (tt, tt)))
    after (ok _) put = (wrote (store_key path) body ∷ opened ∷ [], refl, (tt, (tt, tt)))
    after (ok _) delete = (removed (store_key path) ∷ opened ∷ [], refl, (tt, (tt, tt)))
    after (ok _) post = (opened ∷ [], refl, (tt, tt))
    after (ok _) (other name) = (opened ∷ [], refl, (tt, tt))
