-- ===== src/Pages/Topology/Page.antt =====
-- `loadAll` and `selectBucket` of the topology page of ui/nats-kv-user/src/lib.rs. Where the code
-- inserts into an element, the element is shown with all that it then holds; a class that is
-- switched is a property of its element.
pub mod Owned
pub mod Loaded
use nats_kv.Prelude.{
  ℕ, suc, Bool, true, false, Option, none, some, List, [], ◌∷◌, ◌++◌, ◌==◌, if◌then◌else◌,
}
use nats_kv.Text.{Text, codes, decimal}
use nats_kv.Browser.{Browser, Program, pure, ◌>>=◌, lift, emit, put_property, show_in}
use nats_kv.Browser.Values.{Json, field, list_of, is_nullish}
use nats_kv.Pages.Topology.{load_listed}
use nats_kv.Pages.Topology.Peers.{active_regions, pts, mirror_places, color}
use nats_kv.Pages.Topology.Drawing.{dots, dot_labels, outline, overlay}
use nats_kv.Pages.Topology.Detail.{bucket_list, detail}

-- `el.classList.toggle("active", j === i)` for each row, whose numbers begin with `j`
unfoldable pub toggle_rows : ℕ → ℕ → List Json → Program (Unit {0})
toggle_rows i j [] = pure tt
toggle_rows i j (b ∷ bs) = do
  _ ← emit (
      put_property (codes "bucket-row-" ++ decimal j) (codes "active")
        (if j == i then codes "true" else codes "false"))
  toggle_rows i (suc j) bs

module _ (fixed raw : ℕ × ℕ → Text) where
  -- `drawDots`
  unfoldable pub draw_dots : List Text → Program (Unit {0})
  draw_dots active = do
    _ ← show_in (codes "dots") (dots fixed raw active)
    show_in (codes "labels") (dot_labels fixed raw)

  -- `selectBucket(i)`, of the bucket `b` of the list
  unfoldable pub select_bucket : List Json → ℕ → Json → Program (Unit {0})
  unfolding toggle_rows
  select_bucket buckets i b = do
    _ ← toggle_rows i 0 buckets
    _ ← show_in (codes "overlay") []
    ps ← lift (pts b)
    _ ← show_in (codes "overlay") (outline fixed raw (color b) ps)
    ms ← lift (mirror_places b)
    _ ← show_in (codes "overlay") (overlay fixed raw (color b) ps ms)
    text ← lift (detail b)
    _ ← show_in (codes "detail-out") text
    emit (put_property (codes "bucket-detail") (codes "display") (codes "block"))

  -- `if (currentBuckets.length > 0) selectBucket(0);`
  abbrev select_first : List Json → Program (Unit {0})
  select_first [] = pure tt
  select_first (b ∷ bs) = select_bucket (b ∷ bs) 0 b

  -- What `loadAll` does with the buckets that it shows
  unfoldable pub show_buckets : Option (List Json) → Program (Unit {0})
  unfolding draw_dots select_bucket
  show_buckets none = pure tt
  show_buckets (some buckets) = do
    rows ← lift (bucket_list buckets)
    _ ← show_in (codes "bucket-list") rows
    active ← lift (active_regions buckets)
    _ ← draw_dots active
    select_first buckets

  -- `loadAll`
  unfoldable pub load_all : Browser → Program (Unit {0})
  unfolding show_buckets
  load_all browser = do _ ← draw_dots []; listed ← load_listed browser; show_buckets listed
