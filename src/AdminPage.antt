-- ===== src/AdminPage.antt =====
-- The script of the page of ui/nats-kv-admin/src/lib.rs: the admin's token in `localStorage`, the
-- calls that carry it, and `escapeHtml`. The operations behind the buttons stand in Buttons, the
-- markup of the tables in Rows.
pub mod Rows
pub mod Buttons
pub mod Approval
pub mod Calls
pub mod Html
pub mod Markup
pub mod Arrivals
use nats_kv.Prelude.{ℕ, ◌==◌, not, length, Option, none, List, [], ◌∷◌, ◌++◌, if◌then◌else◌}
use nats_kv.Text.{Text, codes, is_empty, decimal}
use nats_kv.Browser.{
  Fetch, Reply, fetched, stored, removed, put_property, Trace, Browser, item, or_text, Program,
  ◌>>=◌, emit, when, show_in, stored_or_empty,
}

abbrev pub token_key : Text
token_key = codes "nats-kv-admin-token"

-- `path.replace(/^\//, "")`
unfoldable pub without_slash : Text → Text
without_slash [] = []
without_slash (c ∷ s) = if c == b'/' then s else c ∷ s

module _ (browser : Browser) where
  unfoldable pub token : Trace → Text
  unfolding stored_or_empty
  token t = stored_or_empty browser token_key t

  -- `saveToken`, with the trimmed input
  unfoldable pub save_token : Text → Program (Unit {0})
  save_token input = when (not (is_empty input)) (do
    _ ← emit (stored token_key input)
    _ ← emit (put_property (codes "token") (codes "value") [])
    show_in (codes "token-status")
        (codes "<span class=\"ok\">saved (" ++ (decimal (length input) ++ codes " chars)</span>")))

  unfoldable pub clear_token : Program (Unit {0})
  clear_token = do
    _ ← emit (removed token_key)
    show_in (codes "token-status") (codes "<span class=\"warn\">cleared</span>")

  abbrev pub auth_request : Trace → Text → Text → List (Text × Text) → Option Text → Fetch
  auth_request t path method headers body = record {
    url = codes "/api/" ++ without_slash path;
    method = method;
    headers = (codes "Authorization", codes "Bearer " ++ token t) ∷ headers;
    body = body;
  }

  -- `authFetch`
  unfoldable pub auth_fetch : Text → Text → List (Text × Text) → Option Text → Program Reply
  unfolding token without_slash
  auth_fetch path method headers body t =
      let f = auth_request t path method headers body in (browser.fetch t f, fetched f ∷ t)

  abbrev pub get : Text → Program Reply
  get path = auth_fetch path (codes "GET") [] none

  abbrev pub post : Text → Program Reply
  post path = auth_fetch path (codes "POST") [] none

  abbrev pub delete : Text → Program Reply
  delete path = auth_fetch path (codes "DELETE") [] none

  -- `uiGateToken`
  unfoldable pub ui_gate_token : Trace → Text
  unfolding item or_text
  ui_gate_token t =
      or_text (item browser.storage t (codes "nats-kv-ui-gate")) (codes "demo-open-2026")

-- `escapeHtml`
unfoldable pub escape_char : ℕ → Text
escape_char c =
    if c == b'&'
    then codes "&amp;"
    else if c == b'<'
    then codes "&lt;"
    else if c == b'>'
    then codes "&gt;"
    else if c == b'"'
    then codes "&quot;"
    else if c == b'\''
    then codes "&#39;"
    else c ∷ []

unfoldable pub escape_html : Text → Text
unfolding escape_char
escape_html [] = []
escape_html (c ∷ s) = escape_char c ++ escape_html s
