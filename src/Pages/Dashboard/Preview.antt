-- ===== src/Pages/Dashboard/Preview.antt =====
-- `refreshPlacementPreview` and `onGeoChange` of ui/nats-kv-user/src/lib.rs: each preview is a call
-- of its own, and the answers of several come in any order. A step is what happens between two
-- awaits.
pub mod Order
pub mod Ending
use nats_kv.Prelude.{
  ℕ, ◌≡◌, suc, Bool, true, false, ◌==◌, Option, none, some, List, [], ◌∷◌, ◌++◌, if◌then◌else◌,
}
use nats_kv.Text.{Text, codes, same, decimal}
use nats_kv.Pages.Uri.{encode_uri_component}
use nats_kv.Browser.{Fetch, Reply, Browser, readable, body_of}
use nats_kv.Browser.Values.{Json, field, show_or}
use nats_kv.AdminPage.Rows.{◌>>=◌}
use nats_kv.AdminPage.Buttons.{error_text}
use nats_kv.Pages.Dashboard.Placement.{render_placement}

-- What the form asks for.
pub record Form : Type 0 where
  pub geo : Text
  pub anchor : Text
  pub replicas : ℕ

-- A preview waits for its response, or for the body of its response; each has its number.
pub data Call : Type 0 where
  awaiting : ℕ → Call
  reading : ℕ → Reply → Call

pub record Preview : Type 0 where
  -- `_previewSeq`
  pub seq : ℕ
  pub anchor_shown : Bool
  pub shown : Bool
  pub html : Text
  -- The preview that wrote the text, and whether that was its result; no code reads these.
  pub author : ℕ
  pub settled : Bool
  pub waiting : List Call

-- The page when it is loaded.
abbrev pub fresh : Preview
fresh = record {
  seq = 0;
  anchor_shown = true;
  shown = false;
  html = [];
  author = 0;
  settled = true;
  waiting = [];
}

abbrev pub error_span : Text → Text
error_span text = codes "<span class=\"err\">" ++ (text ++ codes "</span>")

abbrev pub computing : Form → Text
computing form =
    codes "<span class=\"meta\">computing placement for anchor="
    ++ (form.anchor ++ (codes " R" ++ (decimal form.replicas ++ codes "…</span>")))

-- What is fetched for a preview.
abbrev pub preview_call : Form → Fetch
preview_call form = record {
  url =
      codes "/api/control/v1/placement/preview?anchor="
      ++ (encode_uri_component form.anchor ++ (codes "&replicas=" ++ decimal form.replicas));
  method = codes "GET";
  headers = [];
  body = none;
}

-- `refreshPlacementPreview` up to its first await
unfoldable pub refresh : Form → Preview → Preview
refresh form p =
    if same form.geo (codes "auto")
    then record p {
      seq = suc p.seq;
      shown = true;
      html = computing form;
      author = suc p.seq;
      settled = false;
      waiting = awaiting (suc p.seq) ∷ p.waiting;
    }
    else record p { shown = false }

unfoldable pub on_geo_change : Form → Preview → Preview
unfolding refresh
on_geo_change form p = refresh form (record p { anchor_shown = same form.geo (codes "auto") })

abbrev pub write : ℕ → Text → Preview → Preview
write n text p = record p { html = text; author = n; settled = true }

-- The `catch`, with the message of the exception
unfoldable pub on_error : ℕ → Text → Preview → Preview
on_error n message p =
    if n == p.seq then write n (error_span (codes "preview failed: " ++ message)) p else p

-- What a refusal says, if its body can be read.
abbrev pub refusal : Reply → Option Json → Option Text
refusal r none = some (error_span (codes "HTTP " ++ decimal r.status))
refusal r (some j) = do k ← readable j; some (error_span (error_text k r))

-- What preview `n` does with its response, once it no longer waits for it.
unfoldable pub on_response : ℕ → Text → Option Reply → Preview → Preview
unfolding on_error
on_response n message none p = on_error n message p
on_response n message (some r) p =
    if n == p.seq then record p { waiting = reading n r ∷ p.waiting } else p

-- What a preview shows.
unfoldable pub outcome_text : Browser → Reply → Option Text
outcome_text browser r =
    if r.ok then (do j ← body_of r.json; render_placement browser j) else refusal r r.json

abbrev pub show_outcome : ℕ → Text → Option Text → Preview → Preview
show_outcome n message none p = on_error n message p
show_outcome n message (some text) p = write n text p

-- What preview `n` does with the body: its number is not compared again.
unfoldable pub on_body : Browser → ℕ → Text → Reply → Preview → Preview
unfolding on_error outcome_text
on_body browser n message r p = show_outcome n message (outcome_text browser r) p

abbrev pub without : List Call → List Call → Preview → Preview
without before after p = record p { waiting = before ++ after }

-- What may happen next.
pub data Answer (browser : Browser) : Preview → Preview → Type 0 where
  responds :
      {p : Preview} (before after : List Call) (n : ℕ) (message : Text) (r : Option Reply)
      → p.waiting ≡ before ++ awaiting n ∷ after
      → Answer browser p (on_response n message r (without before after p))
  reads :
      {p : Preview} (before after : List Call) (n : ℕ) (message : Text) (r : Reply)
      → p.waiting ≡ before ++ reading n r ∷ after
      → Answer browser p (on_body browser n message r (without before after p))

-- The pages that are reached, and how.
pub data Run (browser : Browser) : Preview → Type 0 where
  loaded : Run browser fresh
  asks : {p : Preview} (form : Form) → Run browser p → Run browser (on_geo_change form p)
  refreshes : {p : Preview} (form : Form) → Run browser p → Run browser (refresh form p)
  answers : {p q : Preview} → Run browser p → Answer browser p q → Run browser q
