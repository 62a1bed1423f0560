-- ===== src/Pages/Session/Nav.antt =====
-- `renderNav` of NAV_JS in ui/nats-kv-user/src/lib.rs, and the copying of the key in
-- `confirmLogout`.
use nats_kv.Prelude.{Bool, true, false, List, [], ◌∷◌, if◌then◌else◌}
use nats_kv.Text.{Text, codes, same, is_empty, concat}
use nats_kv.Browser.{Browser, Trace, Program, show_in}
use nats_kv.Pages.Session.{user_key, key_status}

-- A link, underlined on the page that it leads to
unfoldable pub nav_link : Text → Text → Text → Text → Text
nav_link active page href label = concat (
    codes "<a href=\""
    ∷ href
    ∷ codes "\" "
    ∷ (if same active page then codes "style=\"text-decoration:underline\"" else [])
    ∷ codes ">"
    ∷ label
    ∷ codes "</a>"
    ∷ [])

abbrev nav_links : Text → List Text
nav_links active =
    nav_link active (codes "home") (codes "/") (codes "home")
    ∷ nav_link active (codes "play") (codes "/play") (codes "playground")
    ∷ nav_link active (codes "topology") (codes "/topology") (codes "topology")
    ∷ nav_link active (codes "dash") (codes "/dash") (codes "dashboard")
    ∷ nav_link active (codes "verify") (codes "/verify") (codes "verify")
    ∷ nav_link active (codes "loadtest") (codes "/loadtest") (codes "load test")
    ∷ nav_link active (codes "docs") (codes "/docs") (codes "docs")
    ∷ nav_link active (codes "api") (codes "/api-explorer") (codes "API")
    ∷ []

module _ (browser : Browser) where
  unfoldable pub nav_markup : Text → Trace → Text
  unfolding nav_link key_status
  nav_markup active t = concat (
      codes "<nav>"
      ∷ concat (nav_links active)
      ∷ codes "<span class=\"key-status "
      ∷ (if is_empty (user_key browser t) then [] else codes "ok")
      ∷ codes "\">"
      ∷ key_status browser t
      ∷ codes "</span><a href=\"#\" onclick=\"confirmLogout(event)\" style=\"color:#f85149\">"
      ∷ codes "logout</a></nav>"
      ∷ [])

  -- `renderNav`, which puts the bar in front of the page
  unfoldable pub render_nav : Text → Program (Unit {0})
  unfolding nav_markup
  render_nav active t = show_in (codes "nav") (nav_markup active t) t

-- The button `lo-copy`, where the clipboard takes the key or refuses it
unfoldable pub copy_key : Bool → Program (Unit {0})
copy_key true = show_in (codes "lo-status") (codes "<span style=\"color:#3fb950\">copied</span>")
copy_key false =
    show_in (codes "lo-status")
      (codes "<span style=\"color:#d29922\">clipboard blocked — select the field manually</span>")
