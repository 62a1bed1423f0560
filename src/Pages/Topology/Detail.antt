-- ===== src/Pages/Topology/Detail.antt =====
-- The detail of a bucket that `selectBucket` of ui/nats-kv-user/src/lib.rs shows, and the rows of
-- the list, without the white space between tags.
use nats_kv.Prelude.{ℕ, suc, Option, some, List, [], ◌∷◌, ◌++◌, length, ◌==◌, if◌then◌else◌}
use nats_kv.Text.{concat, Text, codes, is_empty, decimal, join}
use nats_kv.Browser.Values.{Json, field, truthy, list_of, show, show_or}
use nats_kv.AdminPage.Rows.{◌>>=◌}
use nats_kv.Pages.Dashboard.Placement.{joined}
use nats_kv.Pages.Dashboard.BucketRows.{map_all}
use nats_kv.Pages.Topology.Peers.{rep_class, peer_region}

abbrev pub replicas_pill : Json → Text
replicas_pill b = concat (
    codes "<span class=\"pill "
    ∷ rep_class b
    ∷ codes "\">R"
    ∷ show_or (field b (codes "replicas")) (codes "1")
    ∷ codes "</span>"
    ∷ [])

-- `(b.peers || []).map(p => p.name.replace(/^kv-/,'')).join(", ")`
unfoldable pub peer_names : Json → Option Text
unfolding map_all peer_region
peer_names b = do
  list ← list_of (field b (codes "peers"))
  names ← map_all peer_region list
  some (join (codes ", ") names)

-- A row of the list
unfoldable pub list_row : ℕ → Json → Option Text
unfolding peer_names
list_row i b = do
  peers ← peer_names b
  some (
      concat (
        codes "<div class=\"bucket-row\" onclick=\"selectBucket("
        ∷ decimal i
        ∷ codes ")\" id=\"bucket-row-"
        ∷ decimal i
        ∷ codes "\">"
        ∷ replicas_pill b
        ∷ codes "<strong>"
        ∷ show (field b (codes "name"))
        ∷ codes "</strong><span class=\"meta\"> · "
        ∷ show_or (field b (codes "values")) (codes "0")
        ∷ codes " values · "
        ∷ show_or (field b (codes "bytes")) (codes "0")
        ∷ codes " bytes · peers: "
        ∷ (if is_empty peers then codes "(none)" else peers)
        ∷ codes "</span></div>"
        ∷ []))

-- The rows, the first of them with the number `i`
unfoldable pub list_rows : ℕ → List Json → Option Text
unfolding list_row
list_rows i [] = some []
list_rows i (b ∷ bs) = do row ← list_row i b; rows ← list_rows (suc i) bs; some (row ++ rows)

unfoldable pub bucket_list : List Json → Option Text
unfolding list_rows
bucket_list bs = do
  rows ← list_rows 0 bs
  some (
      if is_empty rows
      then codes "<div class=\"meta\" style=\"padding:8px\">no buckets yet</div>"
      else rows)

abbrev peer_row : Json → Option Text
peer_row p = some (
    concat (
      codes "<tr><td>"
      ∷ show (field p (codes "name"))
      ∷ codes "</td><td>"
      ∷ show (field p (codes "role"))
      ∷ codes "</td><td>"
      ∷ (if truthy (field p (codes "current"))
          then codes "<span class=\"ok\">✓</span>"
          else codes "<span class=\"err\">✗</span>")
      ∷ codes "</td></tr>"
      ∷ []))

abbrev mirror_row : Json → Option Text
mirror_row m = do
  tags ← list_of (field m (codes "placement_tags"))
  some (
      concat (
        codes "<tr><td>"
        ∷ show (field m (codes "stream"))
        ∷ codes "</td><td>"
        ∷ show_or (field m (codes "leader")) (codes "?")
        ∷ codes "</td><td>"
        ∷ joined (codes ",") tags
        ∷ codes "</td></tr>"
        ∷ []))

abbrev mirror_table : ℕ → Text → Text
mirror_table count rows = concat (
    codes "<h3 style=\"font-size:13px; margin:12px 0 4px\">Async mirrors (read replicas) "
    ∷ codes "<span class=\"meta\" style=\"font-weight:normal;font-size:11px\">— "
    ∷ decimal count
    ∷ codes " of 27 regions</span></h3><table style=\"width:100%; font-size:12px;\">"
    ∷ codes "<thead><tr><th style=\"text-align:left\">Stream</th><th>Leader</th><th>Tags</th>"
    ∷ codes "</tr></thead><tbody>"
    ∷ rows
    ∷ codes "</tbody></table>"
    ∷ [])

abbrev mirrors_pill : ℕ → Text
mirrors_pill count =
    codes "<span class=\"pill mirror\">+" ++ (decimal count ++ codes " mirrors</span>")

-- The detail; a part about the mirrors is there only if there are any.
unfoldable pub detail : Json → Option Text
unfolding map_all joined
detail b = do
  peers ← list_of (field b (codes "peers"))
  peer_rows ← map_all peer_row peers
  mirrors ← list_of (field b (codes "mirrors"))
  mirror_rows ← map_all mirror_row mirrors
  let count = length mirrors
  some (
      concat (
        codes "<div><strong>"
        ∷ show (field b (codes "name"))
        ∷ codes "</strong> "
        ∷ replicas_pill b
        ∷ codes " "
        ∷ (if count == 0 then [] else mirrors_pill count)
        ∷ codes "</div><div class=\"meta\">cluster: "
        ∷ show_or (field b (codes "cluster")) (codes "?")
        ∷ codes " · values: "
        ∷ show_or (field b (codes "values")) (codes "0")
        ∷ codes " · bytes: "
        ∷ show_or (field b (codes "bytes")) (codes "0")
        ∷ codes " · history: "
        ∷ show_or (field b (codes "history")) (codes "0")
        ∷ codes "</div><h3 style=\"font-size:13px; margin:12px 0 4px\">RAFT replicas</h3>"
        ∷ codes "<table style=\"width:100%; font-size:12px;\"><thead><tr>"
        ∷ codes "<th style=\"text-align:left\">Peer</th><th>Role</th><th>Current</th>"
        ∷ codes "</tr></thead><tbody>"
        ∷ concat peer_rows
        ∷ codes "</tbody></table>"
        ∷ (if count == 0 then [] else mirror_table count (concat mirror_rows))
        ∷ []))
