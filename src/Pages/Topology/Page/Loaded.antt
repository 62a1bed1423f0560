-- ===== src/Pages/Topology/Page/Loaded.antt =====
-- Which buckets `loadAll` shows.
use nats_kv.Prelude.{Option, ◌≡◌, none, some, List, [], ◌∷◌}
use nats_kv.Text.{Text, codes}
use nats_kv.Browser.{Fetch, Trace, Browser, item, readable}
use nats_kv.UserApp.Outbound.{given}
use nats_kv.Pages.Topology.Page.Owned.{IsOwn}
use nats_kv.Browser.Values.{Json, show_or, field, list_of}
use nats_kv.Pages.Topology.Confined.{IsExact}

module _ (browser : Browser) where
  -- The key that the visitor has stored, or the empty text
  abbrev pub stored_key : Trace → Text
  stored_key t = given (item browser.storage t (codes "nats-kv-user-key")) []

  -- The header that carries it, if there is one
  abbrev pub own_header : Text → List (Text × Text)
  own_header [] = []
  own_header (c ∷ k) = (codes "X-KV-Key", c ∷ k) ∷ []

  -- The listing in the body of the envelope, or else the answer itself
  abbrev pub listed_in : Option Json → Json → Json
  listed_in none j = j
  listed_in (some payload) j = payload

  -- What is shown of a listing: exactly the allowed ones of its buckets, where the visitor's own
  -- are those that the control plane tells after the trace `t`
  abbrev pub IsShownOf : Json → Trace → List Json → Type 0
  IsShownOf j t out =
      (payload : Json) × (all : List Json) × (own : List Text) × (readable
          (listed_in (browser.parse_base64 (show_or (field j (codes "body_b64")) [])) j)
        ≡ some payload)
      × (list_of (field payload (codes "buckets")) ≡ some all)
      × IsOwn browser (stored_key t) t own
      × IsExact (codes "demo" ∷ own) all out

  -- The request for the listing, with the visitor's key if there is one
  abbrev pub listing_call : Trace → Fetch
  listing_call t = record {
    url = codes "/api/nats/v1/admin/buckets";
    method = codes "GET";
    headers = own_header (stored_key t);
    body = none;
  }
