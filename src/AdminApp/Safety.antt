-- ===== src/AdminApp/Safety.antt =====
-- What the admin application does to the outside world, and for whom.
use nats_kv.Prelude.{
  ℕ, ◌≡◌, refl, ap, ◌∙◌, Option, none, some, ◌⊎◌, inl, inr, true, false, List, [], ◌∷◌, ◌++◌, arith,
  Option-cases, if◌then◌else◌, Bool-cases,
}
use nats_kv.Text.{Text, codes, same, is_empty, strip_prefix}
use nats_kv.Text.Laws.{strip_prefix-eq-some}
use nats_kv.Spin.{Method, Request, OutRequest, ok, sent, Trace, Host}
use nats_kv.Gate.{is_authed}
use nats_kv.Gate.Laws.{CarriesCookie, CarriesAccess, is_authed_iff}
use nats_kv.UserApp.Outbound.{credential, typed}
use nats_kv.AdminApp.{
  header_unless, bytes_empty, admin_gate_cookie, Assets, unwrap_or, admin_gate_token,
  is_admin_authed, proxy_request, proxy, gate_page, health, api_or_404, served, handle,
}

module _ (host : Host) (assets : Assets) (req : Request) (t : Trace) where
  -- A request that carries the token neither in its cookie nor in its query is answered by the
  -- gate page, or on `/health` by the health check, and no call is made.
  pub admin_gated :
      ¬ CarriesCookie admin_gate_cookie (admin_gate_token host) req
      → ¬ CarriesAccess (admin_gate_token host) req
      → handle host assets req t
        ≡ (ok (if same req.path (codes "/health") then health else gate_page assets), t)
  unfolding handle is_admin_authed
  admin_gated no_cookie no_access = elim (Bool-cases (same req.path (codes "/health"))) [
    | inl health ↦ rw health
    | inr other ↦ rw (other, unauthed)
  ]
    where
      unauthed : is_authed admin_gate_cookie (admin_gate_token host) req ≡ false
      unauthed = elim (Bool-cases (is_authed admin_gate_cookie (admin_gate_token host) req)) [
        | inl authed ↦ absurd (neither ((is_authed_iff _ _ req).0 authed))
        | inr e ↦ e
      ]
        where
          neither : ¬ (
              CarriesCookie admin_gate_cookie (admin_gate_token host) req
              ⊎ CarriesAccess (admin_gate_token host) req)
          neither (inl c) = no_cookie c
          neither (inr a) = no_access a

  pub trace-proxy :
      (method : Method) (path : Text) (body : List ℕ) (auth : Text)
      → (proxy host method path body auth t).1 ≡ sent (proxy_request method path body auth) ∷ t
  unfolding proxy
  trace-proxy method path body auth = ground arith

  handle_cases :
      ((handle host assets req t).1 ≡ t)
      ⊎ ((is_admin_authed host req ≡ true)
          × ((handle host assets req t).1
              ≡ (api_or_404 host assets req (strip_prefix (codes "/api/") req.path) t).1))
  unfolding handle served
  handle_cases = ground arith

  stated-credential :
      (o : Option Text)
      → header_unless (is_empty (unwrap_or o [])) (codes "Authorization") (unwrap_or o [])
        ≡ credential o
  unfolding is_empty
  stated-credential none = refl
  stated-credential (some []) = refl
  stated-credential (some (c ∷ v)) = refl

  stated-typed :
      (body : List ℕ) (v : Text)
      → header_unless (bytes_empty body) (codes "Content-Type") v ≡ typed body v
  stated-typed [] v = refl
  stated-typed (b ∷ body) v = refl

  proxy_request_lem :
      (method : Method) (rest : Text) (body : List ℕ) (o : Option Text)
      → ◌≡◌ {A = OutRequest} (proxy_request method rest body (unwrap_or o [])) (record {
        method = method;
        uri = codes "https://cp.nats-kv.connected-cloud.io/" ++ rest;
        headers = credential o ++ typed body (codes "application/json");
        body = body;
      })
  unfolding proxy_request
  proxy_request_lem method rest body o =
      rw (stated-credential o, stated-typed body (codes "application/json")) refl

  -- A run makes one call at most: on a path under `/api/`, for a request with the token, to that
  -- path of the control plane at its fixed address, with the caller's own method and body, the
  -- caller's authorization exactly if it is there and not empty, and a content type exactly if
  -- there is a body.
  pub admin_reaches :
      ((handle host assets req t).1 ≡ t)
      ⊎ ((rest : Text) × (req.path ≡ codes "/api/" ++ rest)
          × (is_admin_authed host req ≡ true)
          × ((handle host assets req t).1
              ≡ sent (record {
                method = req.method;
                uri = codes "https://cp.nats-kv.connected-cloud.io/" ++ rest;
                headers =
                    credential (req.header (codes "authorization"))
                    ++ typed req.body (codes "application/json");
                body = req.body;
              })
                ∷ t))
  unfolding api_or_404
  admin_reaches = elim handle_cases [
    | inl quiet ↦ inl quiet
    | inr (authed, e) ↦ elim (Option-cases (strip_prefix (codes "/api/") req.path)) [
      | inl missed ↦ inl (rw missed at e)
      | inr (rest, found) ↦ inr (
        rest,
        strip_prefix-eq-some _ _ rest found,
        authed,
        (rw found at e)
            ∙ trace-proxy _ _ _ _
            ∙ ap (λ r. sent r ∷ t)
                (proxy_request_lem req.method rest req.body (req.header (codes "authorization"))),
      )
    ]
  ]
