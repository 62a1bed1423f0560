-- ===== src/Pages/GatePage/Invite/Arrivals.antt =====
-- The way of a visitor's request for an invite to the control plane.
use nats_kv.Prelude.{
  ◌≡◌, refl, ap, ◌∙◌, Bool, true, false, ◌||◌, Bool-cases, inl, inr, Option, none, some, List, [],
  ◌∷◌, ◌++◌, if◌then◌else◌,
}
use nats_kv.Text.{Text, codes, is_empty}
use nats_kv.Spin.{post, Request, sent, Host}
use nats_kv.UserApp.Config.{Assets}
use nats_kv.UserApp.Outbound.{typed}
use nats_kv.UserApp.Outbound.Built.{control_request-none}
use nats_kv.UserApp.Handler.{handle}
use nats_kv.UserApp.Handler.Invites.{trace-handle_invite}
use nats_kv.Browser.Values.{str, obj, member_of, no_members}
use nats_kv.Browser.{
  Fetch, Reply, fetched, Trace, Browser, resume, recover, ◌>>=◌, emit, branch, lift, try, fetch,
}
use nats_kv.AdminPage.Calls.{calls}
use nats_kv.Pages.GatePage.{js_trim}
use nats_kv.Pages.GatePage.Invite.{
  tell, accepted, refused, refused_text, invite_call, thrown, submit_trimmed, submit_request,
}

module _ (browser : Browser) where
  calls-told :
      (o : Option Text) (t : Trace)
      → calls
          (recover
            (resume o (λ text. tell (codes "err") (codes "Submit failed: " ++ text)) t)
            (thrown browser)).1
        ≡ calls t
  unfolding ◌>>=◌ emit
  calls-told none t = refl
  calls-told (some text) t = refl

  calls-answered :
      (r : Reply) (ok : Bool) (t : Trace)
      → calls (recover (branch ok accepted (refused r) t) (thrown browser)).1 ≡ calls t
  unfolding ◌>>=◌ emit branch lift
  calls-answered r true t = refl
  calls-answered r false t = calls-told (refused_text r r.json) t

  calls-replied :
      (o : Option Reply) (t : Trace)
      → calls (recover (resume o (λ r. branch r.ok accepted (refused r)) t) (thrown browser)).1
        ≡ calls t
  unfolding ◌>>=◌ emit
  calls-replied none t = refl
  calls-replied (some r) t = calls-answered r r.ok t

  calls-submit_trimmed :
      (name email reason : Text) (t : Trace)
      → calls (submit_trimmed browser name email reason t).1 ≡ (
          if is_empty name || is_empty email
          then calls t
          else invite_call browser name email reason ∷ calls t)
  unfolding submit_trimmed branch try fetch ◌>>=◌ emit
  calls-submit_trimmed name email reason t = elim (Bool-cases (is_empty name || is_empty email)) [
    | inl missing ↦ rw missing refl
    | inr given ↦ rw given (
        calls-replied (browser.fetch t (invite_call browser name email reason))
          (fetched (invite_call browser name email reason) ∷ t))
  ]

  -- The button of the gate page makes one call if the name and the email, without the white space
  -- around them, are not empty, and none otherwise: a POST of a JSON object with the trimmed name,
  -- email and reason; and a request by POST for the address of that
  -- call makes one call itself, with the gate's token or without: a POST to the control plane's
  -- address for invite requests receives its body, with a content type exactly if the body is not
  -- empty, and no credential.
  pub submit_arrives :
      (name email reason : Text) (t : Trace) (host : Host) (assets : Assets) (req : Request)
      (u : List nats_kv.Spin.Effect)
      → let f : Fetch = record {
        url = codes "/api/request-invite";
        method = codes "POST";
        headers = (codes "Content-Type", codes "application/json") ∷ [];
        body = some (
            browser.stringify (
              obj (
                member_of (codes "name") (str (js_trim name)) (
                  member_of
                    (codes "email")
                    (str (js_trim email))
                    (member_of (codes "reason") (str (js_trim reason)) no_members)))));
      } in
        req.path ≡ f.url
        → req.method ≡ post
        → (calls (submit_request browser name email reason t).1 ≡ (
            if is_empty (js_trim name) || is_empty (js_trim email) then calls t else f ∷ calls t))
          × ((handle host req assets u).1
              ≡ sent (record {
                method = post;
                uri = codes "https://cp.nats-kv.connected-cloud.io/v1/internal/invite-requests";
                headers = typed req.body (codes "application/json");
                body = req.body;
              })
                ∷ u)
  unfolding submit_request
  submit_arrives name email reason t host assets req u path method = (
    calls-submit_trimmed (js_trim name) (js_trim email) (js_trim reason) t,
    trace-handle_invite host assets req u path method
        ∙ ap (λ r. sent r ∷ u)
            (control_request-none post (codes "v1/internal/invite-requests") req.body),
  )
