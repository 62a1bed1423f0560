-- ===== src/AdminPage/Buttons.antt =====
-- The operations behind the buttons of the page of ui/nats-kv-admin/src/lib.rs. A list that is
-- loaded anew at the end of an operation is loaded as its last step, and may throw there.
use nats_kv.Prelude.{Bool, false, not, some, List, length, [], ◌∷◌, ◌++◌, if◌then◌else◌}
use nats_kv.Text.{Text, codes, is_empty, decimal}
use nats_kv.Pages.Uri.{encode_uri_component}
use nats_kv.Browser.{
  Reply, Browser, Program, pure, ◌>>=◌, alert, show_in, when, branch, lift, try, slice, json_of,
  or_text, confirm, prompt,
}
use nats_kv.Browser.Values.{Json, str, obj, no_members, member_of, field, list_of, show, show_or}
use nats_kv.AdminPage.{auth_fetch, get, post, delete}
use nats_kv.AdminPage.Rows.{rows_of, message_row, invite_row, tenant_row, request_row, newest_first}

-- `j.error || r.status`
abbrev pub error_text : Json → Reply → Text
error_text j r = show_or (field j (codes "error")) (decimal r.status)

-- `rows || '<tr>…</tr>'`
abbrev pub rows_or : Text → Text → Text
rows_or rows text = if is_empty rows then message_row (codes "meta") text else rows

abbrev pub alert_status : Reply → Program (Unit {0})
alert_status r = when (not r.ok) (alert (codes "Failed: " ++ decimal r.status))

-- `alert("Failed: " + (j.error || r.status))`
abbrev pub alert_error : Json → Reply → Program (Unit {0})
alert_error j r = alert (codes "Failed: " ++ error_text j r)

-- `list.length ? `(${list.length})` : ""`
abbrev pub count_text : List Json → Text
count_text [] = []
count_text (j ∷ js) = codes "(" ++ (decimal (length (j ∷ js)) ++ codes ")")

-- A load that nothing waits for.
abbrev pub unawaited : Program (Unit {0}) → Program (Unit {0})
unawaited m = try m (pure tt)

module _ (browser : Browser) where
  abbrev pub show_status : Reply → Program (Unit {0})
  show_status r = show_in (codes "token-status") (
      if r.ok
      then codes "<span class=\"ok\">valid (HTTP " ++ (decimal r.status ++ codes ")</span>")
      else codes "<span class=\"err\">HTTP " ++ (decimal r.status ++ codes "</span>"))

  unfoldable pub check_token : Program (Unit {0})
  check_token = do r ← get browser (codes "v1/admin/tenants"); show_status r

  -- `loadInvites`
  unfoldable pub load_invites : Bool → Program (Unit {0})
  load_invites include_claimed = do
    r ← get browser (
        codes "v1/admin/invites" ++ (if include_claimed then codes "?include_claimed=true" else []))
    j ← json_of r
    branch r.ok
        (do
          list ← lift (list_of (field j (codes "invites")))
          rows ← lift (rows_of (invite_row browser) list)
          show_in (codes "invites-tbl") (rows_or rows (codes "(none)")))
        (show_in (codes "invites-tbl") (message_row (codes "err") (error_text j r)))

  unfoldable pub load_tenants : Program (Unit {0})
  load_tenants = do
    r ← get browser (codes "v1/admin/tenants")
    j ← json_of r
    branch r.ok
        (do
          list ← lift (list_of (field j (codes "tenants")))
          rows ← lift (rows_of (tenant_row browser) list)
          show_in (codes "tenants-tbl") (rows_or rows (codes "(no tenants yet)")))
        (show_in (codes "tenants-tbl") (message_row (codes "err") (error_text j r)))

  -- `loadInviteRequests`
  unfoldable pub load_invite_requests : Text → Program (Unit {0})
  load_invite_requests status = do
    r ← get browser (
        codes "v1/admin/invite-requests"
        ++ (if is_empty status then [] else codes "?status=" ++ encode_uri_component status))
    j ← json_of r
    branch r.ok
        (do
          list ← lift (list_of (field j (codes "requests")))
          _ ← show_in (codes "pir-count") (count_text list)
          rows ← lift (rows_of (request_row browser) (newest_first browser list))
          show_in (codes "pir-tbl") (rows_or rows (codes "(no requests)")))
        (do
          _ ← show_in (codes "pir-tbl") (message_row (codes "err") (error_text j r))
          show_in (codes "pir-count") [])

  abbrev pub invite_body : Text → Text → Json
  invite_body tag expires = obj (
      member_of (codes "tag") (str tag)
        (member_of (codes "expires_in") (str (or_text (some expires) (codes "7d"))) no_members))

  abbrev pub created_markup : Json → Text
  created_markup j =
      let url = show (field j (codes "url")) in
      codes
        "<div><strong>Send this URL to the tester:</strong></div><div class=\"copy\" onclick=\"navigator.clipboard.writeText('"
      ++ (url
          ++ (codes "')\">"
              ++ (url
                  ++ (codes "</div><div class=\"meta\">Click to copy. Expires "
                      ++ (show (field j (codes "expires_at")) ++ codes ".</div>")))))

  -- `createInvite`, with the trimmed inputs
  unfoldable pub create_invite : Text → Text → Program (Unit {0})
  unfolding load_invites
  create_invite tag expires = do
    r ←
        auth_fetch browser (codes "v1/admin/invites") (codes "POST")
          ((codes "Content-Type", codes "application/json") ∷ [])
          (some (browser.stringify (invite_body tag expires)))
    j ← json_of r
    branch r.ok (do _ ← show_in (codes "invite-out") (created_markup j); load_invites false)
        (show_in (codes "invite-out")
          (codes "ERR " ++ (decimal r.status ++ (codes ": " ++ browser.stringify j))))

  unfoldable pub revoke_invite : Text → Program (Unit {0})
  unfolding load_invites
  revoke_invite tk = do
    sure ← confirm browser (codes "Revoke invite " ++ (slice 18 tk ++ codes "…?"))
    when sure (do
      r ← delete browser (codes "v1/admin/invites/" ++ tk)
      _ ← alert_status r
      load_invites false)

  unfoldable pub regen_key : Text → Program (Unit {0})
  unfolding load_tenants
  regen_key id = do
    sure ← confirm browser (
        codes "Regenerate API key for "
        ++ (id ++ codes "?\nAll existing keys for this tenant will be revoked."))
    when sure (do
      r ← post browser (codes "v1/admin/tenants/" ++ (id ++ codes "/regen-key"))
      j ← json_of r
      branch r.ok
          (do
            _ ← alert (
                codes "New key (copy now — won't be shown again):\n\n"
                ++ show (field j (codes "key")))
            load_tenants)
          (alert_error j r))

  unfoldable pub suspend : Text → Bool → Program (Unit {0})
  unfolding load_tenants
  suspend id on = do
    let op = if on then codes "suspend" else codes "unsuspend"
    sure ← confirm browser (op ++ (codes " " ++ (id ++ codes "?")))
    when sure (do
      r ← post browser (codes "v1/admin/tenants/" ++ (id ++ (codes "/" ++ op)))
      _ ← alert_status r
      load_tenants)

  unfoldable pub delete_tenant : Text → Text → Program (Unit {0})
  unfolding load_tenants
  delete_tenant id tag = do
    sure ← confirm browser (
        codes "PERMANENTLY DELETE tenant "
        ++ (id
            ++ (codes " ("
                ++ (tag
                    ++ codes
                        ")?\n\nThis revokes all keys and removes the tenant record. Buckets remain in NATS until manually cleaned."))))
    when sure (do
      really ← confirm browser (codes "Are you really sure?")
      when really (do
        r ← delete browser (codes "v1/admin/tenants/" ++ id)
        _ ← alert_status r
        load_tenants))

  unfoldable pub decline_request : Text → Program (Unit {0})
  unfolding load_invite_requests
  decline_request id = do
    given ← prompt browser (codes "Optional note (visible in audit log):")
    let note = or_text given []
    r ← post browser (
        codes "v1/admin/invite-requests/"
        ++ (encode_uri_component id
            ++ (codes "/decline"
                ++ (if is_empty note then [] else codes "?note=" ++ encode_uri_component note))))
    branch r.ok (load_invite_requests (codes "pending"))
        (alert (codes "Failed: " ++ decimal r.status))
