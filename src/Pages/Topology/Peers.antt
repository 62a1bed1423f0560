-- ===== src/Pages/Topology/Peers.antt =====
-- Where the replicas and the mirrors of a bucket stand on the map of the topology page of
-- ui/nats-kv-user/src/lib.rs.
use nats_kv.Prelude.{
  ℕ, ◌+◌, ◌*◌, Bool, false, Option, none, some, List, [], ◌∷◌, ◌++◌, length, ◌==◌, if◌then◌else◌,
}
use nats_kv.Text.{Text, codes, same}
use nats_kv.Browser.Values.{Json, field, truthy, list_of, show_or, text_of, number_of, is_nullish}
use nats_kv.AdminPage.Rows.{◌>>=◌}
use nats_kv.Pages.Picker.Names.{without_prefix}
use nats_kv.Pages.Topology.Regions.{Region, regions, proj}

-- A point of the map: each coordinate is a quotient.
abbrev pub Point : Type 0
Point = (ℕ × ℕ) × (ℕ × ℕ)

-- `list.map(f)`, where `f` begins by reading a member
unfoldable pub each : {A : Type 0} → (Json → Option A) → List Json → Option (List A)
each f [] = some []
each f (j ∷ js) = do a ← (if is_nullish j then none else f j); rest ← each f js; some (a ∷ rest)

-- `.filter(Boolean)`
unfoldable pub present : {A : Type 0} → List (Option A) → List A
present [] = []
present (none ∷ os) = present os
present (some a ∷ os) = a ∷ present os

-- `REGIONS[r]`
unfoldable pub find_region : Text → List Region → Option Region
find_region name [] = none
find_region name (r ∷ rs) = if same r.name name then some r else find_region name rs

-- `regionFromPeer(p.name)`
unfoldable pub peer_region : Json → Option Text
peer_region p = do name ← text_of (field p (codes "name")); some (without_prefix name)

-- The regions of the peers of some buckets
unfoldable pub active_regions : List Json → Option (List Text)
unfolding each peer_region
active_regions [] = some []
active_regions (b ∷ bs) = do
  list ← list_of (field b (codes "peers"))
  names ← each peer_region list
  rest ← active_regions bs
  some (names ++ rest)

-- A peer that has a place on the map
pub record Peer : Type 0 where
  pub spot : Region
  pub role : Json

abbrev at_region : Json → Option Region → Option Peer
at_region p none = none
at_region p (some r) = some (record { spot = r; role = field p (codes "role") })

unfoldable pub peer_of : Json → Option (Option Peer)
unfolding peer_region find_region
peer_of p = do name ← peer_region p; some (at_region p (find_region name regions))

-- `pts`
unfoldable pub pts : Json → Option (List Peer)
unfolding each present peer_of
pts b = do
  list ← list_of (field b (codes "peers"))
  places ← each peer_of list
  some (present places)

pub record Mirror : Type 0 where
  pub spot : Region
  pub lag_msgs : Text

abbrev mirror_at : Json → Option Region → Option Mirror
mirror_at m none = none
mirror_at m (some r) =
    some (record { spot = r; lag_msgs = show_or (field m (codes "lag_msgs")) (codes "0") })

-- A mirror without a leader, or whose leader is in no region of the map, is left out.
unfoldable pub mirror_of : Json → Option (Option Mirror)
unfolding find_region
mirror_of m =
    if truthy (field m (codes "leader"))
    then (do
      leader ← text_of (field m (codes "leader"))
      some (mirror_at m (find_region (without_prefix leader) regions)))
    else some none

-- `mirrors`
unfoldable pub mirror_places : Json → Option (List Mirror)
unfolding each present mirror_of
mirror_places b = do
  list ← list_of (field b (codes "mirrors"))
  places ← each mirror_of list
  some (present places)

abbrev sum_x : List Peer → ℕ
sum_x [] = 0
sum_x (p ∷ ps) = (proj p.spot).0.0 + sum_x ps

abbrev sum_y : List Peer → ℕ
sum_y [] = 0
sum_y (p ∷ ps) = (proj p.spot).1.0 + sum_y ps

-- The centre of the replicas, or the corner if there are none
unfoldable pub centroid : List Peer → Point
centroid [] = ((0, 1), (0, 1))
centroid (p ∷ ps) =
    let n = length (p ∷ ps) in ((sum_x (p ∷ ps), 3600000 * n), (sum_y (p ∷ ps), 1800000 * n))

abbrev is_count : ℕ → Json → Bool
is_count n j = elim (number_of j) [ none ↦ false | some m ↦ m == n ]

-- `b.replicas === 5 ? … : b.replicas === 3 ? … : …`
abbrev pub by_replicas : {A : Type 0} → A → A → A → Json → A
by_replicas five three other b =
    let r = field b (codes "replicas") in
    if is_count 5 r then five else if is_count 3 r then three else other

abbrev pub rep_class : Json → Text
rep_class b = by_replicas (codes "r5") (codes "r3") (codes "r1") b

abbrev pub color : Json → Text
color b = by_replicas (codes "#d29922") (codes "#3fb950") (codes "#8b949e") b

abbrev pub is_leader : Json → Bool
is_leader role = elim (text_of role) [ none ↦ false | some s ↦ same s (codes "leader") ]
