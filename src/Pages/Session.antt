-- ===== src/Pages/Session.antt =====
-- What the pages of ui/nats-kv-user/src/lib.rs keep of the visitor in `localStorage`: NAV_JS, the
-- key form of INDEX_HTML, and CLAIM_HTML.
pub mod SignIn
pub mod Nav
pub mod Logout
use nats_kv.Prelude.{Bool, true, false, not, none, some, List, [], ◌∷◌, ◌++◌, ◌==◌, if◌then◌else◌}
use nats_kv.Text.{Text, codes, is_empty, decimal}
use nats_kv.Browser.{
  Fetch, Reply, stored, removed, put_property, went, Trace, Browser, Program, pure, ◌>>=◌, emit,
  alert, show_in, when, branch, slice, json_of, fetch, stored_or_empty,
}
use nats_kv.Browser.Values.{Json, str, obj, no_members, member_of, field, truthy, show, show_or}
use nats_kv.Pages.GatePage.{js_trim}

-- `KEY` and `TENANT`
abbrev pub key_item : Text
key_item = codes "nats-kv-user-key"

abbrev pub tenant_item : Text
tenant_item = codes "nats-kv-user-tenant"

-- `location.reload()`
abbrev reload : Program (Unit {0})
reload = emit (went (codes "."))

unfoldable pub save_trimmed : Text → Text → Program (Unit {0})
save_trimmed k t = do
  _ ← when (not (is_empty k)) (emit (stored key_item k))
  _ ← when (not (is_empty t)) (emit (stored tenant_item t))
  reload

-- `saveKey` and `clearKey` of the index page
unfoldable pub save_key : Text → Text → Program (Unit {0})
unfolding js_trim save_trimmed
save_key key tenant = save_trimmed (js_trim key) (js_trim tenant)

unfoldable pub clear_key : Program (Unit {0})
clear_key = do _ ← emit (removed key_item); _ ← emit (removed tenant_item); reload

-- The button `lo-go` of `confirmLogout`, which was opened with the key `k`
unfoldable pub log_out : Text → Bool → Program (Unit {0})
log_out k wipe = do
  _ ←
      when (if is_empty k then false else wipe)
        (do _ ← emit (removed key_item); emit (removed tenant_item))
  emit (went (codes "/logout"))

-- The token of an invite: what follows the last slash of the path.
unfoldable pub last_segment : Text → Text → Text
last_segment seen [] = seen
last_segment seen (c ∷ s) = last_segment (if c == b'/' then [] else seen ++ c ∷ []) s

-- What `doClaim` does with the new key and its tenant.
unfoldable pub keep_claim : Json → Program (Unit {0})
keep_claim j = do
  _ ← emit (stored key_item (show (field j (codes "key"))))
  _ ← emit (stored tenant_item (show (field j (codes "tenant_id"))))
  _ ← emit (put_property (codes "welcome") (codes "display") (codes "none"))
  _ ← emit (put_property (codes "result") (codes "display") (codes "block"))
  _ ← show_in (codes "r-tenant") (show (field j (codes "tenant_id")))
  show_in (codes "r-key") (show (field j (codes "key")))

module _ (browser : Browser) where
  unfoldable pub user_key : Trace → Text
  unfolding stored_or_empty
  user_key t = stored_or_empty browser key_item t

  unfoldable pub user_tenant : Trace → Text
  unfolding stored_or_empty
  user_tenant t = stored_or_empty browser tenant_item t

  -- The status that `renderNav` shows.
  unfoldable pub key_status : Trace → Text
  unfolding user_key user_tenant
  key_status t =
      let k = user_key t in
      if is_empty k
      then codes "no key (using shared demo)"
      else codes "signed in: " ++ (user_tenant t ++ (codes " • key " ++ (slice 12 k ++ codes "…")))

  abbrev pub key_header : Trace → List (Text × Text)
  key_header t = let k = user_key t in if is_empty k then [] else (codes "X-KV-Key", k) ∷ []

  -- `authedFetch`
  unfoldable pub authed_fetch : Fetch → Program Reply
  unfolding user_key
  authed_fetch f t = fetch browser (record f { headers = f.headers ++ key_header t }) t

  abbrev claim_address : Text → Text
  claim_address token = codes "/api/control/v1/claim/" ++ token

  abbrev suggestion : Json → Program (Unit {0})
  suggestion j =
      when (truthy (field j (codes "tag_suggested")))
        (emit (put_property (codes "tag") (codes "value") (show (field j (codes "tag_suggested")))))

  -- `check` of the claim page
  unfoldable pub check_invite : Text → Program (Unit {0})
  check_invite token = do
    r ←
        fetch browser
          (record { url = claim_address token; method = codes "GET"; headers = []; body = none })
    j ← json_of r
    branch r.ok
        (do
          _ ← show_in (codes "invite-status") (
              codes "<span class=\"ok\">valid</span> — suggested tag: "
              ++ (show_or (field j (codes "tag_suggested")) (codes "(none)")
                  ++ (codes ", expires " ++ browser.show_date (field j (codes "expires_at")))))
          suggestion j)
        (do
          _ ← show_in (codes "invite-status") (
              codes "<span class=\"err\">"
              ++ (show_or (field j (codes "error")) (codes "invalid") ++ codes "</span>"))
          emit (put_property (codes "claim-btn") (codes "disabled") (codes "true")))

  abbrev claim_call : Text → Text → Fetch
  claim_call token tag = record {
    url = claim_address token;
    method = codes "POST";
    headers = (codes "Content-Type", codes "application/json") ∷ [];
    body = some (browser.stringify (obj (member_of (codes "tag") (str tag) no_members)));
  }

  -- `doClaim`, with what the field for the tag holds
  unfoldable pub do_claim : Text → Text → Program (Unit {0})
  unfolding js_trim keep_claim
  do_claim token tag = do
    r ← fetch browser (claim_call token (js_trim tag))
    j ← json_of r
    branch r.ok (keep_claim j)
        (alert (codes "Claim failed: " ++ show_or (field j (codes "error")) (decimal r.status)))
