-- ===== src/UserApp/Handler/Safety.antt =====
-- What a visitor without the gate token can make the application do.
use nats_kv.Prelude.{
  ◌≡◌, refl, ◌⊎◌, inl, inr, true, false, none, [], ◌∷◌, ◌++◌, arith, Bool-cases, Option-cases,
}
use nats_kv.Text.{Text, codes, same, strip_prefix, starts_with}
use nats_kv.Text.Laws.{same→eq, strip_prefix-eq-some}
use nats_kv.Spin.{post, Request, ok, sent, Trace, Host}
use nats_kv.UserApp.Config.{Assets, is_ui_authed, is_public_path, render_gate_page}
use nats_kv.UserApp.Proxy.{control_request}
use nats_kv.UserApp.Proxy.Traces.{trace-forward_invite_request}
use nats_kv.UserApp.Handler.{
  proxies, probes, pages, served, handle, nats_or, cosmos_or, control_or_404,
}

-- A path under a prefix that the gate does not know is not public.
private_nats : (r : Text) → is_public_path (codes "/api/nats/" ++ r) ≡ false
unfolding is_public_path same starts_with
private_nats r = refl

private_cosmos : (r : Text) → is_public_path (codes "/api/cosmos/" ++ r) ≡ false
unfolding is_public_path same starts_with
private_cosmos r = refl

private_control : (r : Text) → is_public_path (codes "/api/control/" ++ r) ≡ false
unfolding is_public_path same starts_with
private_control r = refl

private_probes :
    (is_public_path (codes "/api/probe-ip") ≡ false)
    × (is_public_path (codes "/api/probe-claudebot") ≡ false)
    × (is_public_path (codes "/api/probe-https") ≡ false)
    × (is_public_path (codes "/api/whereami") ≡ false)
unfolding is_public_path same starts_with
private_probes = (refl, refl, refl, refl)

-- A public path is not stripped of a private prefix.
not_under :
    (p path : Text)
    → ((r : Text) → is_public_path (p ++ r) ≡ false)
    → is_public_path path ≡ true
    → strip_prefix p path ≡ none
not_under p path private public = elim (Option-cases (strip_prefix p path)) [
  | inl e ↦ e
  | inr (r, e) ↦
      let q : path ≡ p ++ r = strip_prefix-eq-some p path r e in
      let f : is_public_path path ≡ false = rw q (private r) in cc
]

-- Nor is it a private path.
not_at :
    (p path : Text) → is_public_path p ≡ false → is_public_path path ≡ true → same path p ≡ false
not_at p path private public = elim (Bool-cases (same path p)) [
  | inl e ↦ let q : path ≡ p = same→eq path p e in cc
  | inr e ↦ e
]

module _ (host : Host) (req : Request) (t : Trace) where
  proxies_quiet : (path : Text) → is_public_path path ≡ true → (proxies host req path t).1 ≡ t
  unfolding proxies nats_or cosmos_or control_or_404
  proxies_quiet path public = rw (
    not_under (codes "/api/nats/") path private_nats public,
    not_under (codes "/api/cosmos/") path private_cosmos public,
    not_under (codes "/api/control/") path private_control public,
  )

  probes_quiet : (path : Text) → is_public_path path ≡ true → (probes host req path t).1 ≡ t
  unfolding probes
  probes_quiet path public =
      let (a, b, c, d) = private_probes in
      rw
        (
          not_at (codes "/api/probe-ip") path a public,
          not_at (codes "/api/probe-claudebot") path b public,
          not_at (codes "/api/probe-https") path c public,
          not_at (codes "/api/whereami") path d public,
        )
        (proxies_quiet path public)

  module _ (assets : Assets) where
    pages_quiet : (path : Text) → is_public_path path ≡ true → (pages host req assets path t).1 ≡ t
    unfolding pages
    pages_quiet path public = ground (arith, probes_quiet path public)

    -- A request without the token is answered by the gate page and makes no call; or its path is
    -- public, and then it makes no call but the one that hands an invite request on.
    pub handle_unauthed :
        is_ui_authed host req ≡ false
        → (handle host req assets t ≡ (ok (render_gate_page assets), t))
          ⊎ ((is_public_path req.path ≡ true)
              × (((handle host req assets t).1 ≡ t)
                  ⊎ ((handle host req assets t).1
                      ≡ sent
                          (control_request post (codes "v1/internal/invite-requests") req.body [])
                        ∷ t)))
    unfolding handle served
    handle_unauthed unauthed =
        ground (arith, pages_quiet req.path, trace-forward_invite_request host req t)
