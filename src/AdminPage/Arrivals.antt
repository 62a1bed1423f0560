-- ===== src/AdminPage/Arrivals.antt =====
-- The way of a call of the admin's page through the admin application to the control plane.
use nats_kv.Prelude.{
  ◌≡◌, refl, subst, ◌∙◌, true, false, ◌||◌, some, List, [], ◌∷◌, ◌++◌, ◌==◌, Any, here, there, All,
  if◌then◌else◌,
}
use nats_kv.Text.{Text, codes, contains, starts_with}
use nats_kv.Text.Laws.{starts_with-prefix}
use nats_kv.Spin.{Request, OutRequest, sent, Host, find_header}
use nats_kv.AdminApp.{control_base, Assets, is_admin_authed, proxy_request, handle}
use nats_kv.AdminApp.Forwarding.{trace-handle}
use nats_kv.Browser.{Fetch, Effect, fetched, Browser}
use nats_kv.AdminPage.{token}
use nats_kv.AdminPage.Approval.{Operation, perform}
use nats_kv.AdminPage.Calls.{IsAdminCall, perform-carries_token}

-- The path of an address, which ends where its query or its fragment begins.
unfoldable pub path_of : Text → Text
path_of [] = []
path_of (c ∷ s) = let rest = path_of s in if c == b'?' || c == b'#' then [] else c ∷ rest

path_of_api :
    (url rest : Text)
    → url ≡ codes "/api/v1/admin/" ++ rest
    → path_of url ≡ codes "/api/" ++ (codes "v1/admin/" ++ path_of rest)
unfolding path_of
path_of_api url rest e = rw e refl

find_in : (P : Effect → Type 0) (e : Effect) (t : List Effect) → All P t → Any (λ x. x ≡ e) t → P e
find_in P e [] ps h = elim h [ ]
find_in P e (x ∷ t) (p, ps) (here same) = subst P same p
find_in P e (x ∷ t) (p, ps) (there h) = find_in P e t ps h

proxied_headers :
    (host : Host) (req : Request) (path value : Text)
    → find_header
        (codes "Authorization")
        (proxy_request req.method path req.body (codes "Bearer " ++ value)).headers
      ≡ some (codes "Bearer " ++ value)
unfolding proxy_request find_header nats_kv.Text.is_empty nats_kv.Text.same
proxied_headers host req path value = refl

module _ (browser : Browser) (op : Operation) (host : Host) (assets : Assets) where
  -- Every call that an operation of the page makes, if it arrives at the admin application as a
  -- request for the path of its address, with its authorization and the gate's token, and its
  -- query has no `access=`, makes one call itself: to the same path below `/v1/admin/` of the
  -- control plane, whatever the query, with the token that the browser has stored.
  pub perform_arrives :
      (f : Fetch) (req : Request) (t : List nats_kv.Spin.Effect)
      → Any (λ e. e ≡ fetched f) (perform browser op []).1
      → req.path ≡ path_of f.url
      → req.header (codes "authorization") ≡ find_header (codes "Authorization") f.headers
      → is_admin_authed host req ≡ true
      → contains (codes "access=") req.query ≡ false
      → (r : OutRequest) × (rest : Text) × ((handle host assets req t).1 ≡ sent r ∷ t)
        × (f.url ≡ codes "/api/v1/admin/" ++ rest)
        × (r.uri ≡ control_base ++ (codes "/v1/admin/" ++ path_of rest))
        × (r.method ≡ req.method)
        × (r.body ≡ req.body)
        × (find_header (codes "Authorization") r.headers
            ≡ some (codes "Bearer " ++ token browser []))
  unfolding proxy_request
  perform_arrives f req t made path header authed no_access =
      let (below, carries) =
        find_in (IsAdminCall (token browser [])) (fetched f) _ (perform-carries_token browser op)
          made in
      let (rest, e) = starts_with-prefix (codes "/api/v1/admin/") f.url below in
      let auth = header ∙ carries in
      (
        proxy_request req.method (codes "v1/admin/" ++ path_of rest) req.body
            (codes "Bearer " ++ token browser []),
        rest,
        trace-handle host assets req t (codes "v1/admin/" ++ path_of rest)
              (path ∙ path_of_api f.url rest e) authed no_access
            ∙ (rw auth refl),
        e,
        refl,
        refl,
        refl,
        proxied_headers host req (codes "v1/admin/" ++ path_of rest) (token browser []),
      )
