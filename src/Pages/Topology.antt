-- ===== src/Pages/Topology.antt =====
-- The topology page of ui/nats-kv-user/src/lib.rs: which buckets of the cluster it shows to a
-- visitor, and where on its map.
pub mod Regions
pub mod Confined
pub mod Peers
pub mod Drawing
pub mod Detail
pub mod Page
pub mod Refresh
use nats_kv.Prelude.{
  ℕ, Bool, true, false, not, ◌&&◌, ◌||◌, Option, none, some, List, [], ◌∷◌, ◌++◌, leb, length,
  if◌then◌else◌,
}
use nats_kv.Text.{Text, codes, same, is_empty, decimal, strip_prefix, starts_with, join}
use nats_kv.Browser.{
  Fetch, Reply, Trace, Browser, readable, Program, pure, ◌>>=◌, branch, lift, try, show_in, json_of,
  fetch, stored_item,
}
use nats_kv.Browser.Values.{
  Json, str, num, field, truthy, list_of, show, show_or, text_of, number_of, is_nullish,
}
use nats_kv.Pages.Session.{key_item, authed_fetch}
use nats_kv.Pages.Picker.{own_call}
use nats_kv.Pages.Picker.Names.{without_prefix}

-- The texts among what `allowed.add` is given
unfoldable pub texts_of : List Json → List Text
texts_of [] = []
texts_of (j ∷ js) = let rest = texts_of js in elim (text_of j) [ none ↦ rest | some s ↦ s ∷ rest ]

-- `allowed.has(name)`
unfoldable pub has : List Text → Text → Bool
has [] name = false
has (n ∷ ns) name = same n name || has ns name

-- The test of the filter
abbrev pub is_shown : List Text → Text → Bool
is_shown allowed name = not (starts_with (codes "kv-admin") name) && has allowed name

-- The name of a bucket; the filter throws where it is no text.
abbrev pub name_of : Json → Option Text
name_of b = if is_nullish b then none else text_of (field b (codes "name"))

abbrev pub keep_if : Bool → Json → List Json → List Json
keep_if true b bs = b ∷ bs
keep_if false b bs = bs

abbrev pub kept_or_none : List Text → Json → Option Text → Option (List Json) → Option (List Json)
kept_or_none allowed b none rest = none
kept_or_none allowed b (some name) none = none
kept_or_none allowed b (some name) (some out) = some (keep_if (is_shown allowed name) b out)

-- `currentBuckets`
unfoldable pub current_buckets : List Text → List Json → Option (List Json)
unfolding has
current_buckets allowed [] = some []
current_buckets allowed (b ∷ bs) =
    let rest = current_buckets allowed bs in kept_or_none allowed b (name_of b) rest

-- What the page says when the listing failed
abbrev failure_text : Json → Reply → Text
failure_text j r =
    if truthy (field j (codes "error"))
    then show (field j (codes "error"))
    else show_or (field j (codes "body_b64")) (codes "HTTP " ++ decimal r.status)

-- `j.status >= 400`
abbrev is_failure : Json → Bool
is_failure j = elim (number_of (field j (codes "status"))) [ none ↦ false | some n ↦ leb 400 n ]

-- The request of `loadAll`
abbrev pub listing : Fetch
listing = record {
  url = codes "/api/nats/v1/admin/buckets";
  method = codes "GET";
  headers = [];
  body = none;
}

module _ (browser : Browser) where
  abbrev reported : Json → Program (List Text)
  reported j = do list ← lift (list_of (field j (codes "buckets"))); pure (texts_of list)

  -- The names that the control plane reports for the tenant who is signed in
  unfoldable pub own_names : Text → Program (List Text)
  unfolding texts_of
  own_names key = branch (is_empty key) (pure []) (
      try
        (do
          r ← fetch browser (own_call browser key)
          branch r.ok (do j ← json_of r; reported j) (pure []))
        (pure []))

  -- `allowed`
  unfoldable pub allowed_names : Program (List Text)
  unfolding own_names
  allowed_names = do
    key ← stored_item browser key_item
    own ← own_names key
    pure (codes "demo" ∷ own)

  -- The body of the listing, or the listing itself where that is no JSON
  abbrev payload_of : Json → Json
  payload_of j = elim (browser.parse_base64 (show_or (field j (codes "body_b64")) [])) [
    | none ↦ j
    | some payload ↦ payload
  ]

  -- `loadAll`, from `payload` to `currentBuckets` and their number
  unfoldable pub show_allowed : Json → Program (Option (List Json))
  unfolding allowed_names current_buckets
  show_allowed j = do
    allowed ← allowed_names
    payload ← lift (readable (payload_of j))
    all ← lift (list_of (field payload (codes "buckets")))
    shown ← lift (current_buckets allowed all)
    _ ← show_in (codes "b-count") (codes "(" ++ (decimal (length shown) ++ codes ")"))
    pure (some shown)

  -- `loadAll`, from the listing to `currentBuckets`
  unfoldable pub load_listed : Program (Option (List Json))
  unfolding show_allowed
  load_listed = do
    r ← authed_fetch browser listing
    j ← json_of r
    branch (not r.ok || is_failure j)
        (do
          _ ← show_in (codes "bucket-list") (
              codes "<div class=\"err\" style=\"padding:8px\">"
              ++ (failure_text j r ++ codes "</div>"))
          pure none)
        (show_allowed j)
