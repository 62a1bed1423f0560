-- ===== src/AdminPage/Approval.antt =====
-- `approveRequest` of ui/nats-kv-admin/src/lib.rs, all that the admin can ask for, and what the page
-- asks for when it is loaded.
use nats_kv.Prelude.{Bool, false, [], ◌++◌, not}
use nats_kv.Text.{Text, codes, is_empty}
use nats_kv.Pages.Uri.{encode_uri_component}
use nats_kv.Browser.{Browser, Program, ◌>>=◌, show_in, when, branch, json_of, confirm, stored_item}
use nats_kv.Browser.Values.{Json, field, show}
use nats_kv.AdminPage.{post, ui_gate_token, token_key}
use nats_kv.AdminPage.Buttons.{
  alert_error, unawaited, check_token, load_invites, load_tenants, load_invite_requests,
  create_invite, revoke_invite, regen_key, suspend, delete_tenant, decline_request,
}

module _ (browser : Browser) where
  -- The links to the user application that `approveRequest` builds.
  unfoldable pub share_url : Text → Text → Text → Text
  share_url origin claim gate = origin ++ (claim ++ (codes "?access=" ++ encode_uri_component gate))

  abbrev pub user_app_origin : Text
  user_app_origin = codes "https://nats-kv.connected-cloud.io"

  abbrev pub fwf_fallback : Text
  fwf_fallback = codes "https://3c5be533-8e6d-423b-9962-87d9da8d16cd.fwf.app"

  abbrev copy_box : Text → Text → Text
  copy_box style url =
      codes "<div class=\"copy\""
      ++ (style
          ++ (codes " onclick=\"navigator.clipboard.writeText('"
              ++ (url ++ (codes "')\">" ++ (url ++ codes "</div>")))))

  abbrev pub approved_markup : Text → Text → Text
  approved_markup akamai_url fwf_url =
      codes
        "<div style=\"padding:10px; border:1px solid #3fb950; border-radius:4px; background:#0e2a17;\"><b style=\"color:#3fb950\">Approved.</b> Send this URL to the requester:"
      ++ (copy_box (codes " style=\"margin-top:6px\"") akamai_url
          ++ (codes
                "<div class=\"meta\" style=\"margin-top:4px\">Or via FWF direct (works pre-Akamai-property):</div>"
              ++ (copy_box [] fwf_url
                  ++ codes
                      "<div class=\"meta\" style=\"margin-top:4px\">Click either to copy. Invite expires in 7 days.</div></div>")))

  unfoldable pub show_links : Json → Program (Unit {0})
  show_links j t =
      let claim = show (field j (codes "claim_path")) in
      let gate = ui_gate_token browser t in
      show_in (codes "pir-out")
        (approved_markup (share_url user_app_origin claim gate) (share_url fwf_fallback claim gate))
        t

  unfoldable pub approve_request : Text → Text → Program (Unit {0})
  unfolding load_invite_requests load_invites
  approve_request id email = do
    sure ← confirm browser (
        codes "Approve invite request from "
        ++ (email ++ codes "?\nMints a 7-day invite + access URL."))
    when sure (do
      r ←
          post browser
            (codes "v1/admin/invite-requests/" ++ (encode_uri_component id ++ codes "/approve"))
      j ← json_of r
      branch r.ok
          (do
            _ ← show_links j
            _ ← unawaited (load_invite_requests browser (codes "pending"))
            load_invites browser false)
          (alert_error j r))

-- What the admin can ask for by a button.
pub data Operation : Type 0 where
  checks lists_tenants : Operation
  lists_invites : Bool → Operation
  lists_requests revokes regenerates declines : Text → Operation
  creates deletes approves : Text → Text → Operation
  suspends : Text → Bool → Operation

module _ (browser : Browser) where
  unfoldable pub perform : Operation → Program (Unit {0})
  unfolding check_token load_tenants load_invites load_invite_requests revoke_invite regen_key
      decline_request create_invite delete_tenant suspend approve_request
  perform checks = check_token browser
  perform lists_tenants = load_tenants browser
  perform (lists_invites include_claimed) = load_invites browser include_claimed
  perform (lists_requests status) = load_invite_requests browser status
  perform (revokes tk) = revoke_invite browser tk
  perform (regenerates id) = regen_key browser id
  perform (declines id) = decline_request browser id
  perform (creates tag expires) = create_invite browser tag expires
  perform (deletes id tag) = delete_tenant browser id tag
  perform (suspends id on) = suspend browser id on
  perform (approves id email) = approve_request browser id email

  -- `if (token()) { … }` at the end of the script
  unfoldable pub on_load : Program (Unit {0})
  on_load = do
    token ← stored_item browser token_key
    when (not (is_empty token)) (do
      _ ← unawaited (load_tenants browser)
      _ ← unawaited (load_invites browser false)
      load_invite_requests browser (codes "pending"))
