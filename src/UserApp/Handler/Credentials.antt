-- ===== src/UserApp/Handler/Credentials.antt =====
-- Where credentials go.
use nats_kv.Prelude.{
  ℕ, ◌≡◌, refl, ◌⊎◌, inl, inr, Option, none, some, List, [], ◌∷◌, ◌++◌, All, All-append,
}
use nats_kv.Text.{Text, codes}
use nats_kv.Spin.{Request, Method, Effect, sent, Trace, Host}
use nats_kv.UserApp.Config.{Assets}
use nats_kv.UserApp.Outbound.{given, stated, typed, credential, location}
use nats_kv.UserApp.Handler.{handle}
use nats_kv.UserApp.Handler.Reaches.{
  Reaches, quiet, invite, adapter, control, store, probe, StoreRun, opens, reads, writes, removes,
  handle-Reaches,
}

-- An address that starts so.
abbrev IsBelow : Text → Text → Type 0
IsBelow base uri = (rest : Text) × (uri ≡ base ++ rest)

-- A header that the adapter is sent: the caller's key or the shared demo key, a condition of the
-- caller, or a content type.
abbrev pub IsForAdapter : Request → Text × Text → Type 0
IsForAdapter req (name, v) =
    ((name ≡ codes "Authorization")
      × (v ≡ codes "Bearer " ++ given (req.header (codes "x-kv-key")) (codes "akv_demo_open")))
    ⊎ ((name ≡ codes "If-Match") × (req.header (codes "if-match") ≡ some v))
    ⊎ ((name ≡ codes "If-None-Match") × (req.header (codes "if-none-match") ≡ some v))
    ⊎ (name ≡ codes "Content-Type")

-- A header that the control plane is sent: the caller's authorization, or a content type.
abbrev pub IsForControl : Request → Text × Text → Type 0
IsForControl req (name, v) =
    ((name ≡ codes "Authorization") × (req.header (codes "authorization") ≡ some v))
    ⊎ ((name ≡ codes "Content-Type") × (v ≡ codes "application/json"))

-- A request of the adapter, of the control plane, or of somebody else, with no other header.
abbrev pub IsConfined : Request → Effect → Type 0
IsConfined req (sent r) =
    (IsBelow (codes "http://edge.nats-kv.connected-cloud.io:8080/") r.uri
      × All (IsForAdapter req) r.headers)
    ⊎ (IsBelow (codes "https://cp.nats-kv.connected-cloud.io/") r.uri
        × All (IsForControl req) r.headers)
    ⊎ All (λ h. h ≡ (codes "Accept", codes "application/json")) r.headers
IsConfined req _ = Unit

All-stated :
    (P : Text × Text → Type 0) (name : Text) (o : Option Text)
    → ((v : Text) → o ≡ some v → P (name, v))
    → All P (stated name o)
All-stated P name none h = tt
All-stated P name (some v) h = (h v refl, tt)

All-typed :
    (P : Text × Text → Type 0) (body : List ℕ) (v : Text)
    → P (codes "Content-Type", v)
    → All P (typed body v)
All-typed P [] v h = tt
All-typed P (_ ∷ _) v h = (h, tt)

All-credential :
    (P : Text × Text → Type 0) (o : Option Text)
    → ((v : Text) → o ≡ some v → P (codes "Authorization", v))
    → All P (credential o)
All-credential P none h = tt
All-credential P (some []) h = tt
All-credential P (some (c ∷ v)) h = (h (c ∷ v) refl, tt)

StoreRun-IsConfined :
    (req : Request) {key : Text} {body : List ℕ} {m : Method} {es : List Effect}
    → StoreRun key body m es
    → All (IsConfined req) es
StoreRun-IsConfined req opens = (tt, tt)
StoreRun-IsConfined req reads = (tt, (tt, tt))
StoreRun-IsConfined req writes = (tt, (tt, tt))
StoreRun-IsConfined req removes = (tt, (tt, tt))

module _ (req : Request) where
  adapter-IsConfined : All (IsForAdapter req) (
      (
        codes "Authorization",
        codes "Bearer " ++ given (req.header (codes "x-kv-key")) (codes "akv_demo_open"),
      )
      ∷ (stated (codes "If-Match") (req.header (codes "if-match"))
          ++ (stated (codes "If-None-Match") (req.header (codes "if-none-match"))
              ++ typed req.body
                  (given (req.header (codes "content-type")) (codes "application/octet-stream")))))
  adapter-IsConfined =
      let P = IsForAdapter req in
      (
        inl (refl, refl),
        All-append P (stated (codes "If-Match") (req.header (codes "if-match"))) _
            (All-stated P _ (req.header (codes "if-match")) (λ v e. inr (inl (refl, e))))
            (All-append P (stated (codes "If-None-Match") (req.header (codes "if-none-match"))) _
              (All-stated P _ (req.header (codes "if-none-match"))
                (λ v e. inr (inr (inl (refl, e)))))
              (All-typed P req.body _ (inr (inr (inr refl))))),
      )

  control-IsConfined :
      (o : Option Text)
      → ((v : Text) → o ≡ some v → req.header (codes "authorization") ≡ some v)
      → All (IsForControl req) (credential o ++ typed req.body (codes "application/json"))
  control-IsConfined o h =
      All-append (IsForControl req) (credential o) _
        (All-credential (IsForControl req) o (λ v e. inl (refl, h v e)))
        (All-typed (IsForControl req) req.body _ (inr (refl, refl)))

Reaches-IsConfined :
    {req : Request} {t u : Trace}
    → Reaches req t u
    → All (IsConfined req) t
    → All (IsConfined req) u
Reaches-IsConfined quiet h = h
Reaches-IsConfined {req} invite h =
    (inr (inl ((_, refl), control-IsConfined req none (λ v e. cc))), h)
Reaches-IsConfined {req} (adapter rest p) h =
    (inl ((location rest req.query, refl), adapter-IsConfined req), h)
Reaches-IsConfined {req} (control rest p) h = (
  inr (
      inl (
        (location rest req.query, refl),
        control-IsConfined req (req.header (codes "authorization")) (λ v e. e),
      )),
  h,
)
Reaches-IsConfined {req} {t} (store rest key es p named runs) h =
    All-append (IsConfined req) es t (StoreRun-IsConfined req runs) h
Reaches-IsConfined (probe uri headers p (inl q)) h = (inr (inr (rw q tt)), h)
Reaches-IsConfined (probe uri headers p (inr q)) h = (inr (inr (rw q (refl, tt))), h)

-- Whatever a run of `handle` sends carries no header but these: to the adapter's address, the
-- caller's key or the shared demo key, the caller's two conditions and a content type; to the
-- control plane's address, the caller's own authorization and a content type; anywhere else, that
-- JSON is accepted. So no other header of the caller, neither the cookie nor a further credential,
-- is passed on, and none goes to another address.
pub handle-IsConfined :
    (host : Host) (req : Request) (assets : Assets)
    → All (IsConfined req) (handle host req assets []).1
handle-IsConfined host req assets = Reaches-IsConfined (handle-Reaches host req [] assets) tt
