-- ===== src/UserApp/Proxy/Store.antt =====
-- `call_cosmos` as a key-value store, over a platform store that works.
use nats_kv.Prelude.{ℕ, ◌≡◌, refl, Option, none, some, List, [], ◌∷◌, if◌then◌else◌}
use nats_kv.Text.{Text, same}
use nats_kv.Base64.{b64encode}
use nats_kv.Spin.{get, put, delete, Response, Result, ok, opened, read, wrote, removed, Trace, Host}
use nats_kv.UserApp.Config.{page, json_type}
use nats_kv.UserApp.Envelope.{cosmos_payload}
use nats_kv.UserApp.Proxy.{store_key, got, outcome, store_call, with_store, call_cosmos}

-- What a store holds after the calls of a trace.
unfoldable pub contents : Trace → Text → Option (List ℕ)
contents [] key = none
contents (wrote k v ∷ t) key = if same k key then some v else contents t key
contents (removed k ∷ t) key = if same k key then none else contents t key
contents (_ ∷ t) key = contents t key

-- The store opens, and answers each call by what it holds.
pub record IsReliable (host : Host) : Type 0 where
  pub opens : (t : Trace) → host.store_open t ≡ ok tt
  pub gets : (t : Trace) (key : Text) → host.store_get t key ≡ ok (contents t key)
  pub sets : (t : Trace) (key : Text) (v : List ℕ) → host.store_set t key v ≡ ok tt
  pub deletes : (t : Trace) (key : Text) → host.store_delete t key ≡ ok tt

-- An answer of `call_cosmos` without an error, which holds these bytes.
abbrev pub success : ℕ → List ℕ → Response
success elapsed body = page json_type (cosmos_payload 200 elapsed (b64encode body) [])

abbrev pub or_default : Option (List ℕ) → List ℕ
or_default none = []
or_default (some v) = v

abbrev answer_to : ℕ → ℕ × List ℕ × Text → Text
answer_to elapsed (status, body_bytes, error) =
    cosmos_payload status elapsed (b64encode body_bytes) error

module _ (host : Host) (reliable : IsReliable host) where
  -- A GET answers what the store holds under the key, and the empty body where it holds nothing.
  pub cosmos_get :
      (path : Text) (body : List ℕ) (t : Trace)
      → (elapsed : ℕ) × ((call_cosmos host get path body t).0
          ≡ ok (success elapsed (or_default (contents t (store_key path)))))
  unfolding call_cosmos with_store store_call contents
  cosmos_get path body t =
      let key = store_key path in
      (
        host.elapsed_us (read key ∷ opened ∷ t),
        rw (reliable.opens t, reliable.gets (opened ∷ t) key) (answers (contents t key) _),
      )
    where
      answers :
          (o : Option (List ℕ)) (elapsed : ℕ)
          → ◌≡◌ {A = Result Response}
              (ok (page json_type (answer_to elapsed (outcome (got (ok o))))))
              (ok (success elapsed (or_default o)))
      answers none elapsed = refl
      answers (some v) elapsed = refl

  -- After a PUT the store holds the value under the key, and every other key as before.
  pub cosmos_put :
      (path : Text) (body : List ℕ) (t : Trace) (key : Text)
      → contents (call_cosmos host put path body t).1 key
        ≡ (if same (store_key path) key then some body else contents t key)
  unfolding call_cosmos with_store store_call contents
  cosmos_put path body t key = rw (reliable.opens t)

  pub cosmos_delete :
      (path : Text) (body : List ℕ) (t : Trace) (key : Text)
      → contents (call_cosmos host delete path body t).1 key
        ≡ (if same (store_key path) key then none else contents t key)
  unfolding call_cosmos with_store store_call contents
  cosmos_delete path body t key = rw (reliable.opens t)
