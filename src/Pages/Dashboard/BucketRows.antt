-- ===== src/Pages/Dashboard/BucketRows.antt =====
-- The rows of the table of buckets of the dashboard of ui/nats-kv-user/src/lib.rs, and the shared
-- bucket `demo` among them.
pub mod Demo
use nats_kv.Prelude.{Bool, true, false, Option, none, some, List, [], ◌∷◌, ◌++◌, if◌then◌else◌}
use nats_kv.Text.{Text, codes, is_empty, strip_prefix, join}
use nats_kv.Browser.Values.{
  Json, bool, str, obj, no_members, member_of, field, truthy, list_of, show, show_or, text_of,
  text_or_empty, is_nullish,
}
use nats_kv.AdminPage.Rows.{◌>>=◌}
use nats_kv.Pages.Dashboard.Placement.{same_text}

-- `s.replace(mark, "")`, which takes the first occurrence
unfoldable pub without_first : Text → Text → Text
without_first mark [] = []
without_first mark (c ∷ s) =
    let rest = without_first mark s in
    elim (strip_prefix mark (c ∷ s)) [ none ↦ c ∷ rest | some r ↦ r ]

-- `list.map(f)`, where `f` begins by reading a member and yields a text
unfoldable pub map_all : (Json → Option Text) → List Json → Option (List Text)
map_all f [] = some []
map_all f (j ∷ js) = do
  text ← (if is_nullish j then none else f j)
  rest ← map_all f js
  some (text ∷ rest)

-- `p.name.replace('kv-','')`
abbrev pub peer_name : Json → Option Text
peer_name p = do name ← text_of (field p (codes "name")); some (without_first (codes "kv-") name)

abbrev leader_text : Json → Option Text
leader_text b = do
  leader ← text_or_empty (field b (codes "leader"))
  some (without_first (codes "kv-") leader)

-- The peers of a bucket, or its leader
unfoldable pub peers_text : Json → Option Text
unfolding map_all without_first
peers_text b = do
  list ← list_of (field b (codes "peers"))
  names ← map_all peer_name list
  let text = join (codes ", ") names
  (if is_empty text then leader_text b else some text)

abbrev table_cell : Text → Text → Text
table_cell attributes text = codes "<td" ++ (attributes ++ (codes ">" ++ (text ++ codes "</td>")))

-- A row of the table of buckets
unfoldable pub bucket_row : Json → Option Text
unfolding peers_text
bucket_row b = do
  peers ← peers_text b
  let name = show (field b (codes "name"))
  some (
      codes "<tr>"
      ++ (table_cell (codes " style=\"padding:6px;border-bottom:1px solid #30363d\"") (
            if truthy (field b (codes "shared"))
            then name ++ codes " <span class=\"meta\">(shared)</span>"
            else name)
          ++ (table_cell
                (codes " style=\"text-align:center;padding:6px;border-bottom:1px solid #30363d\"")
                (codes "R" ++ show_or (field b (codes "replicas")) (codes "?"))
              ++ (table_cell
                    (codes " class=\"meta\" style=\"padding:6px;border-bottom:1px solid #30363d\"")
                    peers
                  ++ (table_cell
                        (codes
                          " style=\"text-align:center;padding:6px;border-bottom:1px solid #30363d\"")
                        (show_or (field b (codes "mirror_count")) (codes "0"))
                      ++ codes "</tr>")))))

-- `list.find(b => b.name === name)`, which throws where it meets null
unfoldable pub find_named : Text → List Json → Option (Option Json)
find_named name [] = some none
find_named name (b ∷ bs) =
    let rest = find_named name bs in
    if is_nullish b
    then none
    else if same_text (field b (codes "name")) (str name)
    then some (some b)
    else rest

-- `{ ...b, shared: true }`
abbrev pub as_shared : Json → Json
as_shared (obj ms) = obj (member_of (codes "shared") (bool true) ms)
as_shared _ = obj (member_of (codes "shared") (bool true) no_members)

abbrev pub add_demo : Option Json → Option Json → List Json → List Json
add_demo none own details = details
add_demo (some demo) (some b) details = details
add_demo (some demo) none details = as_shared demo ∷ details

abbrev is_some : Option Json → Bool
is_some none = false
is_some (some j) = true

-- The tenant's buckets, with the shared one in front if it is found and not theirs
unfoldable pub with_demo : List Json → List Json → Option (List Json)
unfolding find_named
with_demo all details = do
  demo ← find_named (codes "demo") all
  -- Without a demo bucket the code does not look at the tenant's own.
  own ← (if is_some demo then find_named (codes "demo") details else some none)
  some (add_demo demo own details)
