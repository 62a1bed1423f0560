-- ===== src/Pages/Picker/Names.antt =====
-- What the pickers show of a bucket: its short name in a list, and where it stands.
use nats_kv.Prelude.{Option, none, some, List, [], ◌∷◌, ◌++◌, length, if◌then◌else◌}
use nats_kv.Text.{Text, codes, is_empty, decimal, strip_prefix, join}
use nats_kv.Browser.{or_text}
use nats_kv.Browser.Values.{
  Json, absent, field, list_of, show, show_or, text_of, text_or_empty, is_nullish,
}
use nats_kv.AdminPage.Rows.{◌>>=◌}
use nats_kv.Pages.Dashboard.Placement.{joined}
use nats_kv.Pages.Dashboard.BucketRows.{map_all}

-- What follows the first `mark`, if there is one
unfoldable pub after_mark : Text → Text → Option Text
after_mark mark [] = none
after_mark mark (c ∷ s) =
    let rest = after_mark mark s in
    elim (strip_prefix mark (c ∷ s)) [ none ↦ rest | some r ↦ some r ]

abbrev or_whole : Option Text → Text → Text
or_whole none s = s
or_whole (some r) s = r

-- `name.includes("__") ? name.split("__").slice(1).join("__") : name`
unfoldable pub short_name : Text → Text
unfolding after_mark
short_name name = or_whole (after_mark (codes "__") name) name

-- What a picker offers.
pub record Offer : Type 0 where
  pub name : Text
  pub label : Text
  pub details : Option Json

abbrev pub demo_offer : Offer
demo_offer = record {
  name = codes "demo";
  label = codes "demo (shared, R3 NA, 27 mirrors)";
  details = none;
}

-- An offer of a bucket of the tenant
abbrev pub offer_named : Json → Text → Offer
offer_named d name = record {
  name = name;
  label =
      short_name name
      ++ (codes " (R"
          ++ (show_or (field d (codes "replicas")) (codes "1")
              ++ (codes ", "
                  ++ (show_or (field d (codes "mirror_count")) (codes "0") ++ codes " mirrors)"))));
  details = some d;
}

-- That offer, unless the name is missing
unfoldable pub offer_of : Json → Option Offer
unfolding short_name
offer_of d = do
  name ← (if is_nullish d then none else text_of (field d (codes "name")))
  some (offer_named d name)

-- The loop that fills the list, up to where it throws
unfoldable pub offers_of : List Json → List Offer
unfolding offer_of
offers_of [] = []
offers_of (d ∷ ds) = let rest = offers_of ds in elim (offer_of d) [ none ↦ [] | some o ↦ o ∷ rest ]

-- `.map(o => `<option value="…">…</option>`).join("")`
unfoldable pub options_markup : List Offer → Text
options_markup [] = []
options_markup (o ∷ os) =
    codes "<option value=\""
    ++ (o.name ++ (codes "\">" ++ (o.label ++ (codes "</option>" ++ options_markup os))))

-- `s.replace(/^kv-/, '')`
abbrev pub without_prefix : Text → Text
without_prefix s = or_whole (strip_prefix (codes "kv-") s) s

abbrev pub peer_or_empty : Json → Option Text
peer_or_empty p = do name ← text_or_empty (field p (codes "name")); some (without_prefix name)

-- The names of the peers of a bucket
unfoldable pub peers_of : Json → Option Text
unfolding map_all
peers_of d = do
  list ← list_of (field d (codes "peers"))
  names ← map_all peer_or_empty list
  some (join (codes ", ") names)

-- The peers, or the leader, or a question mark
unfoldable pub peers_or_leader : Json → Option Text
unfolding peers_of
peers_or_leader d = do
  peers ← peers_of d
  (if is_empty peers
      then (do
        leader ← text_or_empty (field d (codes "leader"))
        some (or_text (some (without_prefix leader)) (codes "?")))
      else some peers)

unfoldable pub mirror_count : Json → Option Text
mirror_count d = elim (field d (codes "mirror_count")) [
  | absent ↦ (do mirrors ← list_of (field d (codes "mirrors")); some (decimal (length mirrors)))
  | j ↦ some (show j)
]

-- The line about a bucket whose details are known, with its peers
unfoldable pub info_text : Text → Json → Text → Option Text
unfolding joined mirror_count
info_text name d peers = do
  tags ← list_of (field d (codes "placement_tags"))
  mirrors ← mirror_count d
  some (
      codes "<code>"
      ++ (name
          ++ (codes "</code> · R"
              ++ (show_or (field d (codes "replicas")) (codes "1")
                  ++ (codes " · placement <code>"
                      ++ (or_text (some (joined (codes ",") tags)) (codes "(none)")
                          ++ (codes "</code> · peers <code>"
                              ++ (peers
                                  ++ (codes "</code> · "
                                      ++ (mirrors ++ codes " read mirrors"))))))))))
