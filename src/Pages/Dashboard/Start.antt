-- ===== src/Pages/Dashboard/Start.antt =====
-- How the dashboard of ui/nats-kv-user/src/lib.rs starts: ALL_REGIONS, which the load test page
-- repeats, `populateAnchors`, and the code that runs when the page is loaded.
use nats_kv.Prelude.{◌≡◌, refl, none, List, [], ◌∷◌, map}
use nats_kv.Text.{Text, codes, is_empty, concat}
use nats_kv.Browser.{
  Browser, Program, put_property, pure, ◌>>=◌, emit, branch, show_in, fetch, stored_item,
}
use nats_kv.AdminPage.Buttons.{unawaited}
use nats_kv.Pages.Session.{key_item}
use nats_kv.Pages.Session.Nav.{render_nav}
use nats_kv.Pages.Dashboard.Buckets.{load_buckets, load_me}
use nats_kv.Pages.Topology.Regions.{regions}

-- `ALL_REGIONS`
abbrev pub all_regions : List Text
all_regions =
    codes "us-ord"
    ∷ codes "us-east"
    ∷ codes "us-central"
    ∷ codes "us-west"
    ∷ codes "us-southeast"
    ∷ codes "us-lax"
    ∷ codes "us-mia"
    ∷ codes "us-sea"
    ∷ codes "ca-central"
    ∷ codes "br-gru"
    ∷ codes "gb-lon"
    ∷ codes "eu-central"
    ∷ codes "de-fra-2"
    ∷ codes "fr-par-2"
    ∷ codes "nl-ams"
    ∷ codes "se-sto"
    ∷ codes "it-mil"
    ∷ codes "ap-south"
    ∷ codes "sg-sin-2"
    ∷ codes "ap-northeast"
    ∷ codes "jp-tyo-3"
    ∷ codes "jp-osa"
    ∷ codes "ap-west"
    ∷ codes "in-bom-2"
    ∷ codes "in-maa"
    ∷ codes "id-cgk"
    ∷ codes "ap-southeast"
    ∷ []

-- They are the regions of the topology page's map, in the same order.
all_regions_lem : all_regions ≡ map (λ r. r.name) regions
all_regions_lem = refl

abbrev pub anchor_option : Text → Text
anchor_option r = concat (codes "<option value=\"" ∷ r ∷ codes "\">" ∷ r ∷ codes "</option>" ∷ [])

abbrev block : Text → Program (Unit {0})
block element = emit (put_property element (codes "display") (codes "block"))

module _ (browser : Browser) where
  -- The page asks where it is, and makes nothing of the answer.
  abbrev where_am_i : Program (Unit {0})
  where_am_i = do
    _ ←
        fetch browser
          (record { url = codes "/api/whereami"; method = codes "GET"; headers = []; body = none })
    pure tt

  -- `populateAnchors`
  unfoldable pub populate_anchors : Program (Unit {0})
  populate_anchors = do
    _ ← show_in (codes "b-anchor") (concat (map anchor_option all_regions))
    _ ← unawaited where_am_i
    emit (put_property (codes "b-anchor") (codes "value") (codes "us-ord"))

  -- The page is loaded; `preview` stands for `onGeoChange`, whose answers come in steps of their
  -- own.
  unfoldable pub start_dashboard : Program (Unit {0}) → Program (Unit {0})
  unfolding populate_anchors
  start_dashboard preview = do
    _ ← render_nav browser (codes "dash")
    key ← stored_item browser key_item
    branch (is_empty key) (block (codes "signed-out")) (do
      _ ← block (codes "info")
      _ ← block (codes "create-bucket")
      _ ← block (codes "buckets")
      _ ← populate_anchors
      _ ← preview
      _ ← unawaited (load_me browser)
      unawaited (load_buckets browser))
