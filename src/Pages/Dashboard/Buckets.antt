-- ===== src/Pages/Dashboard/Buckets.antt =====
-- `createBucket`, `loadBuckets` and `loadMe` of the dashboard of ui/nats-kv-user/src/lib.rs.
pub mod Button
use nats_kv.Prelude.{
  ℕ, Bool, true, false, not, ◌&&◌, Option, none, some, List, [], ◌∷◌, ◌++◌, length, if◌then◌else◌,
}
use nats_kv.Text.{Text, codes, same, is_empty, decimal, strip_prefix, join}
use nats_kv.Browser.{
  Fetch, Reply, Effect, put_property, shown, Trace, Browser, or_text, readable, Program, pure,
  ◌>>=◌, emit, alert, show_in, branch, lift, try, json_of, fetch,
}
use nats_kv.Browser.Values.{
  Json, bool, num, str, obj, no_members, Members, member_of, field, truthy, list_of, show, show_or,
  text_of, text_or_empty, is_nullish,
}
use nats_kv.AdminPage.Rows.{rows_of}
use nats_kv.AdminPage.Buttons.{error_text, unawaited}
use nats_kv.Pages.GatePage.{js_trim}
use nats_kv.Pages.Session.{user_key, authed_fetch}
use nats_kv.Pages.Dashboard.Preview.{error_span}
use nats_kv.Pages.Dashboard.Placement.{render_placement}
use nats_kv.Pages.Dashboard.BucketRows.{bucket_row, with_demo}

-- What the form for a new bucket says.
pub record NewBucket : Type 0 where
  pub name : Text
  pub replicas : ℕ
  pub geo : Text
  pub mirrors : Bool
  pub anchor : Text

-- `element.disabled` of the button
unfoldable pub is_disabled : Trace → Bool
is_disabled [] = false
is_disabled (put_property e p v ∷ t) =
    let rest = is_disabled t in
    if same e (codes "b-create-btn") && same p (codes "disabled")
    then same v (codes "true")
    else rest
is_disabled (_ ∷ t) = is_disabled t

-- `element.textContent` of the button
unfoldable pub button_label : Trace → Text
button_label [] = codes "Create"
button_label (shown e text ∷ t) =
    let rest = button_label t in if same e (codes "b-create-btn") then text else rest
button_label (_ ∷ t) = button_label t

abbrev set_button : Text → Text → Program (Unit {0})
set_button property value = emit (put_property (codes "b-create-btn") property value)

abbrev pub lock : Program (Unit {0})
lock = do
  _ ← set_button (codes "disabled") (codes "true")
  _ ← show_in (codes "b-create-btn") (codes "Creating…")
  _ ← set_button (codes "opacity") (codes "0.6")
  _ ← set_button (codes "cursor") (codes "wait")
  show_in (codes "create-out") (
      codes
        "<span style=\"color:#58a6ff\">provisioning bucket — picking placement, creating source stream, fanning out mirrors…</span>")

-- The `finally`
abbrev pub restore : Text → Program (Unit {0})
restore label = do
  _ ← set_button (codes "disabled") (codes "false")
  _ ← show_in (codes "b-create-btn") label
  _ ← set_button (codes "opacity") []
  set_button (codes "cursor") []

abbrev with_anchor : NewBucket → Members
with_anchor form =
    if same form.geo (codes "auto")
    then member_of (codes "anchor") (str form.anchor) no_members
    else no_members

-- The body of the request, with its members in the order of the code
abbrev pub bucket_body : NewBucket → Json
bucket_body form = obj (
    member_of (codes "name") (str (js_trim form.name)) (
      member_of (codes "replicas") (num form.replicas) (
        member_of (codes "geo") (str form.geo) (
          member_of (codes "no_mirrors") (bool (not form.mirrors))
            (member_of (codes "history") (num 8) (with_anchor form))))))

module _ (browser : Browser) where
  abbrev with_bearer : Trace → List (Text × Text)
  with_bearer t = (codes "Authorization", codes "Bearer " ++ user_key browser t) ∷ []

  abbrev buckets_call : Trace → Fetch
  buckets_call t = record {
    url = codes "/api/control/v1/me/buckets";
    method = codes "GET";
    headers = with_bearer t;
    body = none;
  }

  abbrev pub all_buckets_call : Text → Fetch
  all_buckets_call key = record {
    url = codes "/api/nats/v1/admin/buckets";
    method = codes "GET";
    headers = (codes "X-KV-Key", key) ∷ [];
    body = none;
  }

  -- `JSON.parse(atob(j.body_b64 || "")).buckets || []`
  abbrev pub listed_buckets : Json → Option (List Json)
  listed_buckets j = elim (browser.parse_base64 (show_or (field j (codes "body_b64")) [])) [
    | none ↦ none
    | some payload ↦ if is_nullish payload then none else list_of (field payload (codes "buckets"))
  ]

  -- The tenant's buckets and the shared one; if that is not found for whatever reason, the
  -- tenant's alone.
  unfoldable pub details_shown : List Json → Program (List Json)
  unfolding with_demo
  details_shown details =
      try
        (do
          r ← (λ t. fetch browser (all_buckets_call (user_key browser t)) t)
          j ← json_of r
          all ← lift (listed_buckets j)
          lift (with_demo all details))
        (pure details)

  abbrev pub rows_or_none : List Json → Text → Text
  rows_or_none [] rows =
      codes "<tr><td colspan=\"4\" class=\"meta\">(no buckets yet — create one above)</td></tr>"
  rows_or_none (b ∷ bs) rows = rows

  -- `loadBuckets`
  unfoldable pub load_buckets : Program (Unit {0})
  unfolding details_shown
  load_buckets = do
    r ← (λ t. authed_fetch browser (buckets_call t) t)
    j ← json_of r
    branch r.ok
        (do
          own ← lift (list_of (field j (codes "details")))
          details ← details_shown own
          rows ← lift (rows_of bucket_row details)
          show_in (codes "b-tbl") (rows_or_none details rows))
        (show_in (codes "b-tbl")
          (codes "<tr><td colspan=\"4\" class=\"err\">" ++ (error_text j r ++ codes "</td></tr>")))

  -- `loadMe`
  unfoldable pub load_me : Program (Unit {0})
  load_me = do
    r ← (λ t.
        authed_fetch browser
          (record {
            url = codes "/api/control/v1/me";
            method = codes "GET";
            headers = with_bearer t;
            body = none;
          })
          t)
    j ← json_of r
    _ ← show_in (codes "t-id") (show_or (field j (codes "tenant_id")) (codes "(unknown)"))
    show_in (codes "t-tag") (show_or (field j (codes "tag")) (codes "(no tag)"))

  abbrev pub create_call : NewBucket → Trace → Fetch
  create_call form t = record {
    url = codes "/api/control/v1/me/buckets";
    method = codes "POST";
    headers = (codes "Content-Type", codes "application/json") ∷ with_bearer t;
    body = some (browser.stringify (bucket_body form));
  }

  -- The placement that was applied, if the answer has one
  abbrev pub show_decision : Json → Program (Unit {0})
  show_decision placement =
      branch (truthy placement)
        (do
          _ ← emit (put_property (codes "create-decision") (codes "display") (codes "block"))
          markup ← lift (render_placement browser placement)
          show_in (codes "create-decision") (
              codes
                "<div style=\"padding:8px; border:1px solid #30363d; border-radius:4px; background:#0d1117\">"
              ++ (markup ++ codes "</div>")))
        (emit (put_property (codes "create-decision") (codes "display") (codes "none")))

  abbrev pub show_created : Json → Program (Unit {0})
  show_created j = do
    mirrors ← lift (list_of (field j (codes "mirrors")))
    _ ← show_in (codes "create-out") (
        codes "<span class=\"ok\">created "
        ++ (show (field j (codes "bucket"))
            ++ (codes "</span> · " ++ (decimal (length mirrors) ++ codes " mirrors"))))
    _ ← show_decision (field j (codes "placement"))
    _ ← emit (put_property (codes "b-name") (codes "value") [])
    unawaited load_buckets

  -- The `try` of `createBucket`
  unfoldable pub provision : NewBucket → Program (Unit {0})
  unfolding load_buckets
  provision form = do
    r ← (λ t. authed_fetch browser (create_call form t) t)
    j ← json_of r
    branch r.ok (show_created j) (show_in (codes "create-out") (error_span (error_text j r)))

  abbrev pub failed : Program (Unit {0})
  failed t =
      show_in (codes "create-out") (error_span (codes "create failed: " ++ browser.message t)) t

  -- `createBucket`; the list that it loads at last is loaded before the `finally`, where the code
  -- does not wait for it.
  unfoldable pub create_bucket : NewBucket → Program (Unit {0})
  unfolding is_disabled button_label provision
  create_bucket form t =
      branch (is_disabled t) (pure tt)
        (branch (is_empty (js_trim form.name)) (alert (codes "name required"))
          (do _ ← lock; _ ← try (provision form) failed; restore (button_label t)))
        t
