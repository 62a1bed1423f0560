-- ===== src/AdminPage/Rows.antt =====
-- The markup of the tables of the page of ui/nats-kv-admin/src/lib.rs, without the white space
-- between the tags. A row throws where a member that it needs is missing.
use nats_kv.Prelude.{
  ℕ, ◌+◌, ◌-◌, ◌/◌, ◌^◌, Bool, Option, none, some, List, [], ◌∷◌, ◌++◌, ltb, if◌then◌else◌,
}
use nats_kv.Text.{Text, codes, same, decimal}
use nats_kv.Browser.{Browser, slice}
use nats_kv.Browser.Values.{Json, field, truthy, show, show_or, text_of, number_of, is_nullish}
use nats_kv.AdminPage.{escape_html}

infixl 5 ◌>>=◌
abbrev pub ◌>>=◌ : {A B : Type 0} → Option A → (A → Option B) → Option B
none >>= f = none
some a >>= f = f a

-- `rows.map(row).join("")`, where a row begins by reading a member
unfoldable pub rows_of : (Json → Option Text) → List Json → Option Text
rows_of row [] = some []
rows_of row (j ∷ js) = do
  r ← (if is_nullish j then none else row j)
  rest ← rows_of row js
  some (r ++ rest)

abbrev pub cell : Text → Text
cell text = codes "<td>" ++ (text ++ codes "</td>")

abbrev pub meta_cell : Text → Text
meta_cell text = codes "<td class=\"meta\">" ++ (text ++ codes "</td>")

abbrev pub pill : Text → Text
pill text = codes "<span class=\"pill\">" ++ (text ++ codes "</span>")

abbrev pub actions_cell : Text → Text
actions_cell text = codes "<td class=\"actions-col\">" ++ (text ++ codes "</td>")

-- A row that says one thing.
abbrev pub message_row : Text → Text → Text
message_row cls text =
    codes "<tr><td colspan=\"6\" class=\"" ++ (cls ++ (codes "\">" ++ (text ++ codes "</td></tr>")))

abbrev pub table_row : Text → Text
table_row cells = codes "<tr>" ++ (cells ++ codes "</tr>")

module _ (browser : Browser) where
  abbrev revoke_button : Text → Text
  revoke_button token =
      codes "<button class=\"warn\" onclick=\"revokeInvite('"
      ++ (token ++ codes "')\">Revoke</button>")

  -- A row of `loadInvites`
  unfoldable pub invite_row : Json → Option Text
  invite_row inv = do
    token ← text_of (field inv (codes "token"))
    let claimed = truthy (field inv (codes "claimed_at"))
    some (
        table_row (
          cell (pill (slice 18 token ++ codes "…"))
          ++ (cell (show_or (field inv (codes "tag")) [])
              ++ (meta_cell (browser.show_date (field inv (codes "created_at")))
                  ++ (meta_cell (browser.show_date (field inv (codes "expires_at")))
                      ++ (cell (
                            if claimed
                            then codes "<span class=\"meta\">claimed → "
                              ++ (show_or (field inv (codes "tenant_id")) [] ++ codes "</span>")
                            else codes "<span class=\"ok\">unclaimed</span>")
                          ++ actions_cell (if claimed then [] else revoke_button token)))))))

  -- `(bytes / 1024 / 1024 / 1024).toFixed(0)`, which rounds a half up
  abbrev pub gibibytes : ℕ → Text
  gibibytes bytes = decimal ((bytes + 2 ^ 29) / 2 ^ 30)

  abbrev quota_text : Json → Option Text
  quota_text quotas = do
    bytes ← number_of (field quotas (codes "storage_bytes"))
    some (
        gibibytes bytes
        ++ (codes " GiB / " ++ (show (field quotas (codes "max_buckets")) ++ codes " buckets")))

  abbrev tenant_buttons : Text → Text → Bool → Text
  tenant_buttons id tag suspended =
      codes "<button class=\"warn\" onclick=\"regenKey('"
      ++ (id
          ++ (codes "')\">Regen key</button><button class=\"secondary\" onclick=\"suspend('"
              ++ (id
                  ++ (codes "', "
                      ++ ((if suspended then codes "false" else codes "true")
                          ++ (codes ")\">"
                              ++ ((if suspended then codes "Unsuspend" else codes "Suspend")
                                  ++ (codes
                                        "</button><button class=\"danger\" onclick=\"deleteTenant('"
                                      ++ (id
                                          ++ (codes "', '"
                                              ++ (tag ++ codes "')\">Delete</button>")))))))))))

  -- A row of `loadTenants`
  unfoldable pub tenant_row : Json → Option Text
  tenant_row t = do
    id ← text_of (field t (codes "id"))
    let tag = show_or (field t (codes "tag")) []
    let suspended = truthy (field t (codes "suspended"))
    quotas ← quota_text (field t (codes "quotas"))
    some (
        table_row (
          cell (pill (slice 18 id ++ codes "…"))
          ++ (cell tag
              ++ (meta_cell (browser.show_date (field t (codes "created_at")))
                  ++ (cell (
                        if suspended
                        then codes "<span class=\"warn\">SUSPENDED</span>"
                        else codes "<span class=\"ok\">active</span>")
                      ++ (meta_cell quotas ++ actions_cell (tenant_buttons id tag suspended)))))))

abbrev pub status_text : Text → Text
status_text status =
    if same status (codes "pending")
    then codes "<span class=\"warn\">pending</span>"
    else if same status (codes "approved")
    then codes "<span class=\"ok\">approved</span>"
    else codes "<span class=\"err\">declined</span>"

abbrev pub request_buttons : Text → Text → Text
request_buttons id email =
    codes "<button onclick=\"approveRequest('"
    ++ (id
        ++ (codes "','"
            ++ (escape_html email
                ++ (codes "')\">Approve</button> <button class=\"warn\" onclick=\"declineRequest('"
                    ++ (id ++ codes "')\">Decline</button>")))))

-- The link to the invite of a request that was decided.
abbrev pub invite_link : Json → Option Text
invite_link token =
    if truthy token
    then (do
      s ← text_of token
      some (codes "<span class=\"meta\">→ " ++ (slice 18 s ++ codes "…</span>")))
    else some []

abbrev pub request_actions : Text → Text → Text → Json → Option Text
request_actions status id email token =
    if same status (codes "pending") then some (request_buttons id email) else invite_link token

-- `s.length`, in units of UTF-16: a character above 0xFFFF counts two.
abbrev pub units : Text → ℕ
units [] = 0
units (c ∷ s) = (if ltb 0xFFFF c then 2 else 1) + units s

-- `s.slice(0, n)` in such units; of a pair that is cut in half the first half is left.
abbrev pub slice_units : ℕ → Text → Text
slice_units n [] = []
slice_units n (c ∷ s) =
    let wide = if ltb 0xFFFF c then 2 else 1 in
    let rest = slice_units (n - wide) s in
    if ltb n 1 then [] else if ltb n wide then (0xD800 + (c - 0x10000) / 1024) ∷ [] else c ∷ rest

abbrev pub shortened : Text → Text
shortened reason = if ltb 80 (units reason) then slice_units 80 reason ++ codes "…" else reason

-- A row of `loadInviteRequests`, of the texts in it
unfoldable pub request_markup : Text → Text → Text → Text → Text → Text → Text
request_markup date name email reason status actions = table_row (
    meta_cell date
    ++ (cell (escape_html name)
        ++ (cell (pill (escape_html email))
            ++ ((codes "<td class=\"meta\" title=\""
                  ++ (escape_html reason
                      ++ (codes "\">" ++ (escape_html (shortened reason) ++ codes "</td>"))))
                ++ (cell (status_text status) ++ actions_cell actions)))))

module _ (browser : Browser) where
  unfoldable pub request_row : Json → Option Text
  unfolding request_markup
  request_row rq = do
    let status = show_or (field rq (codes "status")) (codes "pending")
    let name = show_or (field rq (codes "name")) []
    let email = show_or (field rq (codes "email")) []
    let reason = show_or (field rq (codes "reason")) []
    actions ←
        request_actions status (show (field rq (codes "id"))) email
          (field rq (codes "invite_token"))
    some (
        request_markup (browser.show_date (field rq (codes "created_at"))) name email reason status
          actions)

  abbrev created : Json → Text
  created rq = show_or (field rq (codes "created_at")) []

  -- `.sort((a, b) => (b.created_at || "").localeCompare(a.created_at || ""))`
  unfoldable pub insert_request : Json → List Json → List Json
  insert_request rq [] = rq ∷ []
  insert_request rq (q ∷ qs) =
      let rest = insert_request rq qs in
      if browser.locale_less (created rq) (created q) then q ∷ rest else rq ∷ q ∷ qs

  unfoldable pub newest_first : List Json → List Json
  unfolding insert_request
  newest_first [] = []
  newest_first (rq ∷ rqs) = insert_request rq (newest_first rqs)
