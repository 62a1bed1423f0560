-- ===== src/AdminPage/Calls.antt =====
-- What the calls of the admin page carry, and which need the admin's word.
use nats_kv.Prelude.{
  ◌≡◌, refl, Bool, true, false, not, Option, some, List, [], ◌∷◌, ◌++◌, All, if◌then◌else◌,
}
use nats_kv.Text.{Text, codes, same, decimal, starts_with, is_empty}
use nats_kv.Spin.{find_header}
use nats_kv.Pages.Uri.{encode_uri_component}
use nats_kv.Browser.{
  Fetch, Reply, Effect, fetched, alerted, shown, Trace, Browser, item, stored_or_empty, Program,
  ◌>>=◌, alert, when, branch, lift, json_of, confirm, prompt, or_text, show_in,
}
use nats_kv.Browser.Values.{Json}
use nats_kv.Browser.Keeps.{
  Keeps, Keeps-bind, Keeps-pure, Keeps-lift, Keeps-when, Keeps-branch, Keeps-try, Keeps-json_of,
  Keeps-emit, Keeps-confirm, Keeps-prompt,
}
use nats_kv.UserApp.Outbound.{given}
use nats_kv.Browser.Runs.{stored_or_empty_lem}
use nats_kv.AdminPage.{without_slash, token, auth_fetch}
use nats_kv.AdminPage.Buttons.{
  alert_status, load_invites, load_tenants, load_invite_requests, create_invite, revoke_invite,
  regen_key, suspend, delete_tenant, decline_request, check_token,
}
use nats_kv.AdminPage.Approval.{
  show_links, approve_request, Operation, checks, lists_tenants, lists_invites, lists_requests,
  revokes, regenerates, declines, creates, deletes, approves, suspends, perform,
}

-- A call goes below the control plane's admin interface, with this token.
abbrev pub IsAdminCall : Text → Effect → Type 0
IsAdminCall v (fetched f) =
    (starts_with (codes "/api/v1/admin/") f.url ≡ true)
    × (find_header (codes "Authorization") f.headers ≡ some (codes "Bearer " ++ v))
IsAdminCall v _ = Unit

module _ (browser : Browser) (v : Text) where
  -- So far every call was such a one, and the token is still the same.
  abbrev Holds : Trace → Type 0
  Holds t = All (IsAdminCall v) t × (token browser t ≡ v)

  abbrev Fine : {A : Type 0} → Program A → Type 0
  Fine m = Keeps Holds m

  Fine-alert : (text : Text) → Fine (alert text)
  unfolding token stored_or_empty item
  Fine-alert text = Keeps-emit Holds (alerted text) (λ t h. ((tt, h.0), h.1))

  Fine-show_in : (element text : Text) → Fine (show_in element text)
  unfolding token stored_or_empty item
  Fine-show_in element text = Keeps-emit Holds (shown element text) (λ t h. ((tt, h.0), h.1))

  Fine-confirm : (text : Text) → Fine (confirm browser text)
  unfolding token stored_or_empty item
  Fine-confirm text = Keeps-confirm Holds browser text (λ t h. ((tt, h.0), h.1))

  Fine-prompt : (text : Text) → Fine (prompt browser text)
  unfolding token stored_or_empty item
  Fine-prompt text = Keeps-prompt Holds browser text (λ t h. ((tt, h.0), h.1))

  Fine-auth_fetch :
      (path method : Text) (headers : List (Text × Text)) (body : Option Text)
      → Fine (auth_fetch browser (codes "v1/admin/" ++ path) method headers body)
  unfolding auth_fetch token stored_or_empty item without_slash starts_with find_header same
  Fine-auth_fetch path method headers body = record {
    keeps = λ t h. (((refl, rw (h.1) refl), h.0), h.1);
  }

  -- A call, its body, and two ways to go on.
  Fine-call :
      (path method : Text) (headers : List (Text × Text)) (body : Option Text)
      {m n : Reply → Json → Program (Unit {0})}
      → ((r : Reply) (j : Json) → Fine (m r j))
      → ((r : Reply) (j : Json) → Fine (n r j))
      → Fine (do
        r ← auth_fetch browser (codes "v1/admin/" ++ path) method headers body
        j ← json_of r
        branch r.ok (m r j) (n r j))
  Fine-call path method headers body k l =
      Keeps-bind Holds (Fine-auth_fetch path method headers body) (λ r.
        Keeps-bind Holds (Keeps-json_of Holds r) (λ j. Keeps-branch Holds r.ok (k r j) (l r j)))

  -- The rows of a list, shown.
  Fine-rows :
      (list : Option (List Json)) (rows : List Json → Option Text) (element : Text)
      (text : Text → Text)
      → Fine (do l ← lift list; r ← lift (rows l); show_in element (text r))
  Fine-rows list rows element text =
      Keeps-bind Holds (Keeps-lift Holds list)
        (λ l. Keeps-bind Holds (Keeps-lift Holds (rows l)) (λ r. Fine-show_in element (text r)))

  Fine-load_tenants : Fine (load_tenants browser)
  unfolding load_tenants
  Fine-load_tenants =
      Fine-call (codes "tenants") _ _ _ (λ r j. Fine-rows _ _ _ _) (λ r j. Fine-show_in _ _)

  Fine-load_invites : (b : Bool) → Fine (load_invites browser b)
  unfolding load_invites
  Fine-load_invites b =
      Fine-call (codes "invites" ++ (if b then codes "?include_claimed=true" else [])) _ _ _
        (λ r j. Fine-rows _ _ _ _) (λ r j. Fine-show_in _ _)

  Fine-load_invite_requests : (status : Text) → Fine (load_invite_requests browser status)
  unfolding load_invite_requests
  Fine-load_invite_requests status =
      Fine-call
        (codes "invite-requests"
          ++ (if is_empty status then [] else codes "?status=" ++ encode_uri_component status))
        _ _ _
        (λ r j. Keeps-bind Holds (Keeps-lift Holds _) (λ l.
          Keeps-bind Holds (Fine-show_in _ _)
            (λ _. Keeps-bind Holds (Keeps-lift Holds _) (λ rows. Fine-show_in _ _))))
        (λ r j. Keeps-bind Holds (Fine-show_in _ _) (λ _. Fine-show_in _ _))

  -- A call after which its status is told if it failed, and a list is loaded.
  Fine-change :
      (path method : Text) (headers : List (Text × Text)) (body : Option Text)
      {m : Program (Unit {0})}
      → Fine m
      → Fine (do
        r ← auth_fetch browser (codes "v1/admin/" ++ path) method headers body
        _ ← alert_status r
        m)
  Fine-change path method headers body k =
      Keeps-bind Holds (Fine-auth_fetch path method headers body) (λ r.
        Keeps-bind Holds
          (Keeps-when Holds (not r.ok) (Fine-alert (codes "Failed: " ++ decimal r.status)))
          (λ _. k))

  -- What is done only if the admin agrees.
  Fine-agreed :
      (text : Text) {m : Program (Unit {0})}
      → Fine m
      → Fine (do sure ← confirm browser text; when sure m)
  Fine-agreed text k = Keeps-bind Holds (Fine-confirm text) (λ sure. Keeps-when Holds sure k)

  Fine-show_links : (j : Json) → Fine (show_links browser j)
  unfolding show_links
  Fine-show_links j = record { keeps = λ t h. (Fine-show_in _ _).keeps t h }

  Fine-perform : (op : Operation) → Fine (perform browser op)
  unfolding perform check_token create_invite revoke_invite regen_key suspend delete_tenant
      decline_request approve_request
  Fine-perform checks =
      Keeps-bind Holds (Fine-auth_fetch (codes "tenants") _ _ _) (λ r. Fine-show_in _ _)
  Fine-perform lists_tenants = Fine-load_tenants
  Fine-perform (lists_invites b) = Fine-load_invites b
  Fine-perform (lists_requests status) = Fine-load_invite_requests status
  Fine-perform (revokes tk) =
      Fine-agreed _ (Fine-change (codes "invites/" ++ tk) _ _ _ (Fine-load_invites false))
  Fine-perform (regenerates id) = Fine-agreed _ (
      Fine-call (codes "tenants/" ++ (id ++ codes "/regen-key")) _ _ _
        (λ r j. Keeps-bind Holds (Fine-alert _) (λ _. Fine-load_tenants)) (λ r j. Fine-alert _))
  Fine-perform (declines id) = Keeps-bind Holds (Fine-prompt _) (λ given.
      Keeps-bind Holds
        (Fine-auth_fetch
          (codes "invite-requests/"
            ++ (encode_uri_component id
                ++ (codes "/decline"
                    ++ (if is_empty (or_text given [])
                        then []
                        else codes "?note=" ++ encode_uri_component (or_text given [])))))
          _ _ _)
        (λ r. Keeps-branch Holds r.ok (Fine-load_invite_requests (codes "pending")) (Fine-alert _)))
  Fine-perform (creates tag expires) =
      Fine-call (codes "invites") _ _ _
        (λ r j. Keeps-bind Holds (Fine-show_in _ _) (λ _. Fine-load_invites false))
        (λ r j. Fine-show_in _ _)
  Fine-perform (deletes id tag) =
      Fine-agreed _ (Fine-agreed _ (Fine-change (codes "tenants/" ++ id) _ _ _ Fine-load_tenants))
  Fine-perform (suspends id on) = Fine-agreed _ (
      Fine-change
        (codes "tenants/"
          ++ (id ++ (codes "/" ++ (if on then codes "suspend" else codes "unsuspend"))))
        _ _ _ Fine-load_tenants)
  Fine-perform (approves id email) = Fine-agreed _ (
      Fine-call (codes "invite-requests/" ++ (encode_uri_component id ++ codes "/approve")) _ _ _
        (λ r j. Keeps-bind Holds (Fine-show_links j) (λ _.
          Keeps-bind Holds
            (Keeps-try Holds (Fine-load_invite_requests (codes "pending")) (Keeps-pure Holds tt))
            (λ _. Fine-load_invites false)))
        (λ r j. Fine-alert _))

pub perform-carries_token :
    (browser : Browser) (op : Operation)
    → All (IsAdminCall (token browser [])) (perform browser op []).1
perform-carries_token browser op =
    ((Fine-perform browser (token browser []) op).keeps [] (tt, refl)).0

-- The token is the stored item.
token_lem :
    (browser : Browser)
    → token browser [] ≡ given (browser.storage (codes "nats-kv-admin-token")) []
unfolding token item
token_lem browser = stored_or_empty_lem browser [] (codes "nats-kv-admin-token")

-- Whatever the admin asks for first, every call goes below `/api/v1/admin/` and carries, as its
-- bearer, the item `nats-kv-admin-token` of the browser's storage, or the empty text if there is
-- none.
pub perform-IsAdminCall :
    (browser : Browser) (op : Operation)
    → All
        (IsAdminCall (given (browser.storage (codes "nats-kv-admin-token")) []))
        (perform browser op []).1
perform-IsAdminCall browser op = ((Fine-perform browser _ op).keeps [] (tt, token_lem browser)).0

-- The calls of a trace.
abbrev pub calls : Trace → List Fetch
calls [] = []
calls (fetched f ∷ t) = f ∷ calls t
calls (_ ∷ t) = calls t

-- What cannot be undone needs the admin's word.
abbrev pub needs_word : Operation → Bool
needs_word (revokes tk) = true
needs_word (regenerates id) = true
needs_word (deletes id tag) = true
needs_word (suspends id on) = true
needs_word (approves id email) = true
needs_word _ = false

-- If the admin refuses every question, then revoking an invite, replacing a key, suspending and
-- deleting a tenant, and approving a request make no call.
pub refused_lem :
    (browser : Browser) (op : Operation) (t : Trace)
    → ((u : Trace) (text : Text) → browser.confirm u text ≡ false)
    → needs_word op ≡ true
    → calls (perform browser op t).1 ≡ calls t
unfolding perform revoke_invite regen_key suspend delete_tenant approve_request ◌>>=◌ confirm when
refused_lem browser (revokes tk) t h w = rw (h t _) refl
refused_lem browser (regenerates id) t h w = rw (h t _) refl
refused_lem browser (deletes id tag) t h w = rw (h t _) refl
refused_lem browser (suspends id on) t h w = rw (h t _) refl
refused_lem browser (approves id email) t h w = rw (h t _) refl
refused_lem browser _ t h w = cc
