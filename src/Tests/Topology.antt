-- ===== src/Tests/Topology.antt =====
-- Instances of the theorems on the topology page.
use nats_kv.Prelude.{true, none, some}
use nats_kv.Text.{Text, codes}
use nats_kv.Browser.{Browser}
use nats_kv.Browser.Values.{Json, str, obj, arr, no_items, item_of, no_members, member_of}
use nats_kv.Tests.AdminPage.{browser}

abbrev named : Json → Json
named name = obj (member_of (codes "name") name no_members)

-- The shared bucket and one of another tenant.
abbrev cluster : Json
cluster = obj (
    member_of (codes "buckets")
      (arr (item_of (named (str (codes "demo"))) (item_of (named (str (codes "t2__b"))) no_items)))
      no_members)

-- A visitor without a key, whose listing succeeds.
abbrev visitor : Browser
visitor = record browser {
  storage = λ _. none;
  fetch = λ _ _. some (record { ok = true; status = 200; json = some cluster });
  parse_base64 = λ _. some cluster;
}
