-- ===== src/UserApp/Handler/Invites.antt =====
-- What the control plane receives of a visitor's request for an invite.
use nats_kv.Prelude.{◌≡◌, refl, ap, ◌∙◌, [], ◌∷◌}
use nats_kv.Text.{codes, same}
use nats_kv.Spin.{post, Request, sent, Trace, Host}
use nats_kv.UserApp.Config.{Assets, is_public_path}
use nats_kv.UserApp.Proxy.{control_request, forward_invite_request}
use nats_kv.UserApp.Proxy.Traces.{trace-forward_invite_request}
use nats_kv.UserApp.Handler.{served, handle}

module _ (host : Host) (assets : Assets) (req : Request) (t : Trace) where
  handle_invite :
      req.path ≡ codes "/api/request-invite"
      → req.method ≡ post
      → handle host req assets t ≡ forward_invite_request host req t
  unfolding handle served is_public_path same
  handle_invite path method = rw (path, method) refl

  -- A visitor's request for an invite, with the gate's token or without, makes one call: the
  -- control plane receives its body, without a bearer.
  pub trace-handle_invite :
      req.path ≡ codes "/api/request-invite"
      → req.method ≡ post
      → (handle host req assets t).1
        ≡ sent (control_request post (codes "v1/internal/invite-requests") req.body []) ∷ t
  trace-handle_invite path method =
      ap (λ r. r.1) (handle_invite path method) ∙ trace-forward_invite_request host req t
