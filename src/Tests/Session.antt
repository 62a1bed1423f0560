-- ===== src/Tests/Session.antt =====
-- Instances of the theorems on what the pages keep of the visitor.
use nats_kv.Prelude.{◌≡◌, true, none, some, []}
use nats_kv.Text.{codes}
use nats_kv.Browser.{Fetch, Browser}
use nats_kv.Browser.Values.{Json, str, obj, no_members, member_of}
use nats_kv.Pages.Session.SignIn.{claims, run, session, changed, answer, session-run}
use nats_kv.Tests.AdminPage.{browser}

abbrev given : Json
given = obj (
    member_of (codes "key") (str (codes "akv_1"))
      (member_of (codes "tenant_id") (str (codes "t1")) no_members))

-- A browser that no one has signed in, and whose invites are good.
abbrev pub invited : Browser
invited = record browser {
  storage = λ _. none;
  fetch = λ _ _. some (record { ok = true; status = 200; json = some given });
}

session-run_example :
    session invited (run invited (claims (codes "k_inv") (codes "me")) []).1
    ≡ changed
        (claims (codes "k_inv") (codes "me"))
        (answer invited (claims (codes "k_inv") (codes "me")) [])
        (session invited [])
session-run_example = session-run invited (claims (codes "k_inv") (codes "me")) []

abbrev request : Fetch
request = record { url = codes "/api/x"; method = codes "GET"; headers = []; body = none }
