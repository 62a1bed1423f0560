-- ===== src/UserApp/Handler/Reaches.antt =====
-- Every call of the outside world that one run of `handle` can make, with the path that leads to it.
use nats_kv.Prelude.{ℕ, ◌≡◌, refl, ◌⊎◌, inl, inr, none, some, List, [], ◌∷◌, ◌++◌, arith, Option}
use nats_kv.Text.{Text, codes, strip_prefix}
use nats_kv.Text.Laws.{strip_prefix-eq-some}
use nats_kv.Spin.{
  Method, get, put, delete, post, other, Request, Result, ok, err, Effect, sent, opened, read,
  wrote, removed, Trace, Host,
}
use nats_kv.UserApp.Config.{json_type, Assets}
use nats_kv.UserApp.Outbound.{given, to_adapter, to_control, IsPathTo}
use nats_kv.UserApp.Outbound.Built.{
  nats_request_lem, control_request_lem, control_request-none, store_key-IsPathTo,
}
use nats_kv.UserApp.Proxy.{
  forward_invite_request, store_key, store_call, with_store, call_cosmos, probe as probe_call,
}
use nats_kv.UserApp.Proxy.Traces.{
  trace-call_nats, trace-call_control, trace-probe, trace-forward_invite_request,
}
use nats_kv.UserApp.Handler.{
  caller_bearer, nats_route, cosmos_route, control_route, control_or_404, cosmos_or, nats_or,
  proxies, probes, pages, served, handle,
}

-- The fixed addresses that the probes call.
abbrev pub IsProbe : Text → Type 0
IsProbe uri =
    (uri ≡ codes "http://172.237.141.164/v1/health")
    ⊎ (uri ≡ codes "http://172.236.104.189:8888/")
    ⊎ (uri ≡ codes "https://probe.nats-kv.connected-cloud.io:8443/")
    ⊎ (uri ≡ codes "https://ipinfo.io/json")

-- What one operation on the platform's store does: it opens the store, and reads, writes or removes
-- this key, as the method says, or it does nothing more.
pub data StoreRun (key : Text) (body : List ℕ) : Method → List Effect → Type 0 where
  opens : {m : Method} → StoreRun key body m (opened ∷ [])
  reads : StoreRun key body get (read key ∷ opened ∷ [])
  writes : StoreRun key body put (wrote key body ∷ opened ∷ [])
  removes : StoreRun key body delete (removed key ∷ opened ∷ [])

-- The trace of a run that began with the trace `t`. Every request is written out.
pub data Reaches (req : Request) (t : Trace) : Trace → Type 0 where
  quiet : Reaches req t t
  invite :
      Reaches req t
        (sent (to_control post (codes "v1/internal/invite-requests") [] req.body none) ∷ t)
  adapter :
      (rest : Text)
      → req.path ≡ codes "/api/nats/" ++ rest
      → Reaches req t (
          sent (
            to_adapter req.method rest req.query req.body
              (given (req.header (codes "x-kv-key")) (codes "akv_demo_open"))
              (req.header (codes "if-match"))
              (req.header (codes "if-none-match"))
              (req.header (codes "content-type")))
          ∷ t)
  control :
      (rest : Text)
      → req.path ≡ codes "/api/control/" ++ rest
      → Reaches req t (
          sent (to_control req.method rest req.query req.body (req.header (codes "authorization")))
          ∷ t)
  store :
      (rest key : Text) (es : List Effect)
      → req.path ≡ codes "/api/cosmos/" ++ rest
      → ((k : Text) → IsPathTo k rest → key ≡ k)
      → StoreRun key req.body req.method es
      → Reaches req t (es ++ t)
  probe :
      (uri : Text) (headers : List (Text × Text))
      → IsProbe uri
      → (headers ≡ []) ⊎ (headers ≡ (codes "Accept", json_type) ∷ [])
      → Reaches req t (sent (record { method = get; uri = uri; headers = headers; body = [] }) ∷ t)

module _ (host : Host) (req : Request) (t : Trace) where
  -- The routes, for a path that was stripped or not.
  control-Reaches :
      (o : Option Text)
      → strip_prefix (codes "/api/control/") req.path ≡ o
      → Reaches req t (control_or_404 host req o t).1
  unfolding control_or_404 control_route
  control-Reaches none e = Reaches.quiet
  control-Reaches (some rest) e =
      rw
        (
          trace-call_control host t,
          control_request_lem req.method rest req.query req.body
              (req.header (codes "authorization")),
        )
        (Reaches.control rest (strip_prefix-eq-some _ _ rest e))

  call_cosmos-StoreRun :
      (path : Text)
      → (es : List Effect) × ((call_cosmos host req.method path req.body t).1 ≡ es ++ t)
        × StoreRun (store_key path) req.body req.method es
  unfolding call_cosmos with_store store_call
  call_cosmos-StoreRun path = after (host.store_open t) req.method
    where
      after :
          (o : Result (Unit {0})) (m : Method)
          → (es : List Effect) × ((with_store host o m (store_key path) req.body (opened ∷ t)).1
              ≡ es ++ t)
            × StoreRun (store_key path) req.body m es
      after (err e) m = (opened ∷ [], refl, opens)
      after (ok _) get = (read (store_key path) ∷ opened ∷ [], refl, reads)
      after (ok _) put = (wrote (store_key path) req.body ∷ opened ∷ [], refl, writes)
      after (ok _) delete = (removed (store_key path) ∷ opened ∷ [], refl, removes)
      after (ok _) post = (opened ∷ [], refl, opens)
      after (ok _) (other name) = (opened ∷ [], refl, opens)

  cosmos-Reaches :
      (o : Option Text)
      → strip_prefix (codes "/api/cosmos/") req.path ≡ o
      → Reaches req t (cosmos_or host req req.path o t).1
  unfolding cosmos_or cosmos_route
  cosmos-Reaches none e = control-Reaches (strip_prefix (codes "/api/control/") req.path) refl
  cosmos-Reaches (some rest) e =
      let (es, trace, runs) = call_cosmos-StoreRun rest in
      rw trace (
        Reaches.store rest (store_key rest) es (strip_prefix-eq-some _ _ rest e)
          (λ k. store_key-IsPathTo k rest) runs)

  nats-Reaches :
      (o : Option Text)
      → strip_prefix (codes "/api/nats/") req.path ≡ o
      → Reaches req t (nats_or host req req.path o t).1
  unfolding nats_or nats_route caller_bearer
  nats-Reaches none e = cosmos-Reaches (strip_prefix (codes "/api/cosmos/") req.path) refl
  nats-Reaches (some rest) e =
      rw
        (
          trace-call_nats host t,
          nats_request_lem req.method rest req.query req.body (req.header (codes "x-kv-key"))
              (req.header (codes "if-match")) (req.header (codes "if-none-match"))
              (req.header (codes "content-type")),
        )
        (Reaches.adapter rest (strip_prefix-eq-some _ _ rest e))

  proxies-Reaches : Reaches req t (proxies host req req.path t).1
  unfolding proxies
  proxies-Reaches = nats-Reaches (strip_prefix (codes "/api/nats/") req.path) refl

  probe-Reaches :
      (uri : Text) (headers : List (Text × Text))
      → IsProbe uri
      → (headers ≡ []) ⊎ (headers ≡ (codes "Accept", json_type) ∷ [])
      → Reaches req t (probe_call host uri headers t).1
  probe-Reaches uri headers p h = rw (trace-probe host t) (Reaches.probe uri headers p h)

  probes_cases :
      ((probes host req req.path t).1
        ≡ (probe_call host (codes "http://172.237.141.164/v1/health") [] t).1)
      ⊎ ((probes host req req.path t).1
          ≡ (probe_call host (codes "http://172.236.104.189:8888/") [] t).1)
      ⊎ ((probes host req req.path t).1
          ≡ (probe_call host (codes "https://probe.nats-kv.connected-cloud.io:8443/") [] t).1)
      ⊎ ((probes host req req.path t).1
          ≡ (probe_call host
              (codes "https://ipinfo.io/json")
              ((codes "Accept", json_type) ∷ [])
              t).1)
      ⊎ ((probes host req req.path t).1 ≡ (proxies host req req.path t).1)
  unfolding probes
  probes_cases = ground arith

  probes-Reaches : Reaches req t (probes host req req.path t).1
  probes-Reaches = elim probes_cases [
    | inl e ↦ rw e (probe-Reaches _ _ (inl refl) (inl refl))
    | inr (inl e) ↦ rw e (probe-Reaches _ _ (inr (inl refl)) (inl refl))
    | inr (inr (inl e)) ↦ rw e (probe-Reaches _ _ (inr (inr (inl refl))) (inl refl))
    | inr (inr (inr (inl e))) ↦ rw e (probe-Reaches _ _ (inr (inr (inr refl))) (inr refl))
    | inr (inr (inr (inr e))) ↦ rw e proxies-Reaches
  ]

  module _ (assets : Assets) where
    -- A page answers by itself.
    pages_cases :
        ((pages host req assets req.path t).1 ≡ t)
        ⊎ ((pages host req assets req.path t).1 ≡ (probes host req req.path t).1)
    unfolding pages
    pages_cases = ground arith

    handle_cases :
        ((handle host req assets t).1 ≡ t)
        ⊎ ((handle host req assets t).1 ≡ (forward_invite_request host req t).1)
        ⊎ ((handle host req assets t).1 ≡ (pages host req assets req.path t).1)
    unfolding handle served
    handle_cases = ground arith

    pub handle-Reaches : Reaches req t (handle host req assets t).1
    handle-Reaches = elim handle_cases [
      | inl e ↦ rw e Reaches.quiet
      | inr (inl e) ↦
          rw
            (
              e,
              trace-forward_invite_request host req t,
              control_request-none post (codes "v1/internal/invite-requests") req.body,
            )
            Reaches.invite
      | inr (inr e) ↦ elim pages_cases [
        | inl q ↦ rw (e, q) Reaches.quiet
        | inr q ↦ rw (e, q) probes-Reaches
      ]
    ]
