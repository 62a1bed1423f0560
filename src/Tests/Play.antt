-- ===== src/Tests/Play.antt =====
-- Instances of the theorems on the playground and on the pickers of a bucket.
use nats_kv.Prelude.{List, true, ◌≡◌, refl, none, some, [], ◌∷◌, ◌++◌, if◌then◌else◌}
use nats_kv.Text.{Text, decimal, is_empty, codes, same}
use nats_kv.Spin.{get, Request, OutRequest, sent, find_header}
use nats_kv.UserApp.Config.{adapter_base, is_ui_authed}
use nats_kv.UserApp.Handler.{handle}
use nats_kv.Pages.Session.{user_key}
use nats_kv.Pages.Play.Arrivals.{below_nats, key_used, op_arrives}
use nats_kv.Pages.Play.Bench.{Stats, stats}
use nats_kv.Pages.Play.Bench.Spread.{IsSpread, stats-IsSpread}
use nats_kv.Browser.{Browser}
use nats_kv.Browser.Values.{absent, str, obj, arr, no_items, item_of, no_members, member_of}
use nats_kv.AdminPage.Markup.{count}
use nats_kv.Pages.Play.{Backend, nats, cosmos, op}
use nats_kv.Pages.Play.Answer.{Platform, answer_markup}
use nats_kv.Pages.Play.Answer.Inert.{count-answer_markup}
use nats_kv.Pages.Play.Columns.{BenchAnswer, run_columns, start_columns}
use nats_kv.Pages.Play.Columns.Lockstep.{IsLockstep, run_columns-IsLockstep}
use nats_kv.Tests.{host, assets}
use nats_kv.Tests.Session.{invited}

-- A tenant who has one bucket.
abbrev tenant : Browser
tenant = record invited {
  storage = λ _. some (codes "k");
  fetch = λ _ _. some (record {
    ok = true;
    status = 200;
    json = some (
        obj (
          member_of (codes "details")
            (arr
              (item_of (obj (member_of (codes "name") (str (codes "t__b")) no_members)) no_items))
            no_members));
  });
}

abbrev numbers : Stats
numbers = record { lowest = 2; p50 = 3; p90 = 3; p99 = 3; highest = 7; mean = (12, 3) }

stats-IsSpread_example : IsSpread numbers
unfolding stats
stats-IsSpread_example = stats-IsSpread (3 ∷ 7 ∷ 2 ∷ []) numbers refl

-- A visitor without a key of their own reads a key.
abbrev reading : Request
reading = record {
  method = get;
  path = codes "/api/nats/v1/kv/demo/k";
  query = [];
  header = λ name.
      if same name (codes "cookie") then some (codes "nats-kv-ui-access=demo-open-2026") else none;
  body = [];
}

op_arrives_example :
    (r : OutRequest) × ((handle host reading assets []).1 ≡ sent r ∷ [])
    × (r.uri ≡ adapter_base ++ (codes "/" ++ below_nats (codes "GET") (codes "demo") (codes "k")))
    × (r.method ≡ get)
    × (r.body ≡ [])
    × (find_header (codes "Authorization") r.headers
        ≡ some (codes "Bearer " ++ key_used (user_key invited [])))
unfolding nats_kv.Pages.Play.op_fetch nats_kv.Pages.Play.op same
    nats_kv.Pages.Uri.encode_uri_component find_header nats_kv.Text.is_empty user_key is_ui_authed
    nats_kv.Gate.is_authed nats_kv.Text.split nats_kv.Text.strip_prefix nats_kv.Text.trim
    nats_kv.Text.is_whitespace nats_kv.UserApp.Config.ui_gate_token
op_arrives_example =
    op_arrives invited host assets reading [] [] (codes "GET") (codes "demo") (codes "k") [] refl
      refl refl refl

-- What the platform computes, and the texts of times.
abbrev platform : Platform
platform = record {
  now = λ _. 0;
  date = λ _. 7;
  atob = λ s. some s;
  two_digits = λ _. codes "1.00";
  one_digit = λ _. codes "1.0";
  elapsed = λ ms. decimal ms;
  overhead = λ ms _. decimal ms;
}

count-answer_markup_example :
    count b'<' (
      answer_markup platform
        (op nats (codes "GET") (codes "demo") (codes "k") [])
        5
        absent
        (codes "<b>x</b>"))
    ≡ count b'<' (
        answer_markup platform
          (op nats (codes "GET") (codes "demo") (codes "k") [])
          5
          absent
          (codes "y"))
unfolding is_empty
count-answer_markup_example =
    count-answer_markup platform (op nats (codes "GET") (codes "demo") (codes "k") []) 5 absent
      (codes "<b>x</b>") (codes "y") refl

-- One call of each column: the store of the platform answers first.
abbrev two_answers : List BenchAnswer
two_answers =
    record { backend = cosmos; responded = 8; now = 9; upstream_us = some 4 }
    ∷ record { backend = nats; responded = 11; now = 11; upstream_us = some 2 }
    ∷ []

run_columns-IsLockstep_example : IsLockstep 1 (run_columns 1 two_answers (start_columns 1 3))
run_columns-IsLockstep_example = run_columns-IsLockstep 1 3 two_answers
