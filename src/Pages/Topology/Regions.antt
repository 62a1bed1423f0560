-- ===== src/Pages/Topology/Regions.antt =====
-- The map of the topology page of ui/nats-kv-user/src/lib.rs. A degree is ten thousand units.
use nats_kv.Prelude.{ℕ, ◌+◌, ◌-◌, ◌*◌, ◌≤◌, List, [], ◌∷◌, String, arith}
use nats_kv.Text.{Text, codes}

-- North and east are above, south and west are below.
pub data Degrees : Type 0 where
  above below : ℕ → Degrees

pub record Region : Type 0 where
  pub name : Text
  pub lat : Degrees
  pub lon : Degrees
  pub geo : Text

abbrev region : String → Degrees → Degrees → String → Region
region name lat lon geo = record { name = codes name; lat = lat; lon = lon; geo = codes geo }

-- `REGIONS`
abbrev pub regions : List Region
regions =
    region "us-ord" (above 418781) (below 876298) "na"
    ∷ region "us-east" (above 407357) (below 741724) "na"
    ∷ region "us-central" (above 327767) (below 967970) "na"
    ∷ region "us-west" (above 375485) (below 1219886) "na"
    ∷ region "us-southeast" (above 337490) (below 843880) "na"
    ∷ region "us-lax" (above 340522) (below 1182437) "na"
    ∷ region "us-mia" (above 257617) (below 801918) "na"
    ∷ region "us-sea" (above 476062) (below 1223321) "na"
    ∷ region "ca-central" (above 436532) (below 793832) "na"
    ∷ region "br-gru" (below 235505) (below 466333) "sa"
    ∷ region "gb-lon" (above 515074) (below 1278) "eu"
    ∷ region "eu-central" (above 501109) (above 86821) "eu"
    ∷ region "de-fra-2" (above 501109) (above 86821) "eu"
    ∷ region "fr-par-2" (above 488566) (above 23522) "eu"
    ∷ region "nl-ams" (above 523676) (above 49041) "eu"
    ∷ region "se-sto" (above 593293) (above 180686) "eu"
    ∷ region "it-mil" (above 454642) (above 91900) "eu"
    ∷ region "ap-south" (above 13521) (above 1038198) "ap"
    ∷ region "sg-sin-2" (above 13521) (above 1038198) "ap"
    ∷ region "ap-northeast" (above 356762) (above 1396503) "ap"
    ∷ region "jp-tyo-3" (above 356762) (above 1396503) "ap"
    ∷ region "jp-osa" (above 346937) (above 1355023) "ap"
    ∷ region "ap-west" (above 190760) (above 728777) "ap"
    ∷ region "in-bom-2" (above 190760) (above 728777) "ap"
    ∷ region "in-maa" (above 130827) (above 802707) "ap"
    ∷ region "id-cgk" (below 62088) (above 1068456) "ap"
    ∷ region "ap-southeast" (below 338688) (above 1512093) "oc"
    ∷ []

-- `lon + 180`
abbrev pub east_of_edge : Degrees → ℕ
east_of_edge (above n) = n + 1800000
east_of_edge (below n) = 1800000 - n

-- `90 - lat`
abbrev pub south_of_edge : Degrees → ℕ
south_of_edge (above n) = 900000 - n
south_of_edge (below n) = 900000 + n

-- `proj`, each coordinate with its denominator
abbrev pub proj : Region → (ℕ × ℕ) × (ℕ × ℕ)
proj r = ((east_of_edge r.lon * 1000, 3600000), (south_of_edge r.lat * 500, 1800000))

-- A point within the map, which is 1000 wide and 500 high
abbrev pub IsOnMap : Region → Type 0
IsOnMap r = ((proj r).0.0 ≤ 1000 * (proj r).0.1) × ((proj r).1.0 ≤ 500 * (proj r).1.1)

abbrev pub magnitude : Degrees → ℕ
magnitude (above n) = n
magnitude (below n) = n

east_of_edge_le : (d : Degrees) → magnitude d ≤ 1800000 → east_of_edge d ≤ 3600000
east_of_edge_le (above n) h = omega arith
east_of_edge_le (below n) h = omega arith

south_of_edge_le : (d : Degrees) → magnitude d ≤ 900000 → south_of_edge d ≤ 1800000
south_of_edge_le (above n) h = omega arith
south_of_edge_le (below n) h = omega arith

-- A place on earth is drawn within the map.
pub proj-IsOnMap : (r : Region) → magnitude r.lon ≤ 1800000 → magnitude r.lat ≤ 900000 → IsOnMap r
proj-IsOnMap r h k =
    (omega (arith, east_of_edge_le r.lon h), omega (arith, south_of_edge_le r.lat k))
