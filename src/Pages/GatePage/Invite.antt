-- ===== src/Pages/GatePage/Invite.antt =====
-- `submitRequest` of the gate page of ui/nats-kv-user/src/lib.rs.
pub mod Arrivals
use nats_kv.Prelude.{
  Bool, true, false, ◌||◌, Option, none, some, List, [], ◌∷◌, ◌++◌, if◌then◌else◌,
}
use nats_kv.Text.{Text, codes, is_empty, decimal}
use nats_kv.Browser.{
  Fetch, Reply, put_property, Trace, Browser, readable, Program, pure, ◌>>=◌, emit, show_in, branch,
  lift, try, fetch,
}
use nats_kv.Browser.Values.{Json, str, obj, no_members, member_of}
use nats_kv.AdminPage.Buttons.{error_text}
use nats_kv.Pages.GatePage.{js_trim}

-- `out.className = …; out.textContent = …`
abbrev pub tell : Text → Text → Program (Unit {0})
tell cls text = do
  _ ← emit (put_property (codes "out") (codes "className") cls)
  show_in (codes "out") text

abbrev clear_field : Text → Program (Unit {0})
clear_field id = emit (put_property id (codes "value") [])

abbrev pub accepted : Program (Unit {0})
accepted = do
  _ ←
      tell (codes "ok")
        (codes "Thanks — request received. Brian will follow up with an access link once approved.")
  _ ← clear_field (codes "rq-name")
  _ ← clear_field (codes "rq-email")
  clear_field (codes "rq-reason")

-- The reason that a refusal gives, or its status if its body cannot be read
abbrev pub refused_text : Reply → Option Json → Option Text
refused_text r none = some (codes "HTTP " ++ decimal r.status)
refused_text r (some j) = elim (readable j) [ none ↦ none | some k ↦ some (error_text k r) ]

abbrev pub refused : Reply → Program (Unit {0})
refused r = do
  text ← lift (refused_text r r.json)
  tell (codes "err") (codes "Submit failed: " ++ text)

module _ (browser : Browser) where
  abbrev pub invite_call : Text → Text → Text → Fetch
  invite_call name email reason = record {
    url = codes "/api/request-invite";
    method = codes "POST";
    headers = (codes "Content-Type", codes "application/json") ∷ [];
    body = some (
        browser.stringify (
          obj (
            member_of (codes "name") (str name) (
              member_of (codes "email") (str email)
                (member_of (codes "reason") (str reason) no_members)))));
  }

  abbrev pub thrown : Program (Unit {0})
  thrown t = tell (codes "err") (codes "Submit failed: " ++ browser.message t) t

  -- What is done with the trimmed fields
  unfoldable pub submit_trimmed : Text → Text → Text → Program (Unit {0})
  submit_trimmed name email reason =
      branch (is_empty name || is_empty email)
        (tell (codes "err") (codes "name and email required"))
        (try
          (do r ← fetch browser (invite_call name email reason); branch r.ok accepted (refused r))
          thrown)

  -- `submitRequest`, with what the fields hold
  unfoldable pub submit_request : Text → Text → Text → Program (Unit {0})
  unfolding js_trim submit_trimmed
  submit_request name email reason = submit_trimmed (js_trim name) (js_trim email) (js_trim reason)
