-- ===== src/Tests/Pages.antt =====
-- Instances of the theorems on the scripts of the pages.
use nats_kv.Prelude.{
  some, ℕ, ◌+◌, ◌-◌, ◌*◌, ◌/◌, ◌≤◌, ◌<◌, min, ◌≡◌, refl, ◌↔◌, true, none, List, [], ◌∷◌, arith, leb,
  ltb, All,
}
use nats_kv.Text.{codes, same, is_empty, is_whitespace}
use nats_kv.Spin.{get, Request}
use nats_kv.Gate.{is_authed}
use nats_kv.Pages.Percentile.{p}
use nats_kv.Pages.Percentile.Rank.{count, p_rank}
use nats_kv.Pages.LoadTest.{
  Settings, Worker, looping, fetching, reading, Counters, loops, responds, conc, dur_ms, is_fwf,
  loop_test, on_response, react, react_at, start, spin_up, stop_load, Reach, begins, goes_on,
  worker,
}
use nats_kv.Pages.LoadTest.Buttons.{Panel, at_rest, Digits, reset, stop, press_run}
use nats_kv.Pages.LoadTest.Buttons.OneRun.{
  Presses, loaded, pressed_run, pressed_stop, IsGuarded, Presses-IsGuarded,
}
use nats_kv.Pages.LoadTest.Counts.{IsConsistent, Reach-IsConsistent}
use nats_kv.Pages.LoadTest.Stopping.{Steps, stays, works, load, stop_ends}
use nats_kv.Pages.Uri.{is_unreserved, encode_uri_component}
use nats_kv.Pages.Uri.Laws.{IsUnreserved}
use nats_kv.Pages.GatePage.{js_trim, use_token}
use nats_kv.Pages.GatePage.Tokens.{pasted_token}
use nats_kv.Tests.{request_of}

abbrev latencies : List ℕ
latencies = 30 ∷ 10 ∷ 20 ∷ 40 ∷ []

p_rank_example :
    (min (4 - 1) (4 * 50 / 100) < count (λ y. leb y (p latencies 50)) latencies)
    × (count (λ y. ltb y (p latencies 50)) latencies ≤ 4 * 50 / 100)
p_rank_example = p_rank latencies 50 (omega arith)

-- Two workers through the application's proxy, with one key.
abbrev settings : Settings
settings = record {
  bucket = codes "demo";
  op = codes "MIX";
  conc_input = some 2;
  dur_input = some 1;
  value_blob = codes "xx";
  keyspace = 1;
  path = codes "fwf";
  user_key = [];
}

-- The first worker has started its first operation.
abbrev under_way : Counters × List Worker
under_way = (record (start 0) { op_counter = 1 }, fetching 0 5 ∷ looping ∷ [])

under_way-Reach : Reach settings 0 under_way
unfolding conc dur_ms react_at react loop_test start spin_up
under_way-Reach = goes_on begins (worker 0 (loops 5 5) under_way refl)

Reach-IsConsistent_example : IsConsistent settings under_way
Reach-IsConsistent_example = Reach-IsConsistent settings 0 under_way-Reach

-- It then has the headers of the response, after a stop was requested.
abbrev answered : Counters × List Worker
answered = (record (start 0) { op_counter = 1; stop_requested = true }, reading 0 5 ∷ looping ∷ [])

answering : Steps settings 0 (stop_load under_way.0, under_way.1) 1 answered
unfolding react_at react on_response is_fwf same stop_load
answering = works stays 0 (responds 200) answered refl

stop_ends_example : 1 + load answered.1 ≤ 3 * conc settings
stop_ends_example = stop_ends settings 0 under_way-Reach answering

abbrev pasted : Request
pasted = request_of get (codes "/") (codes "access=demo-open-2026") (codes "") none

pasted_token_example :
    (is_authed (codes "nats-kv-ui-access") (codes "demo-open-2026") pasted ≡ true)
    ↔ All IsUnreserved (codes "demo-open-2026")
unfolding js_trim use_token is_empty is_whitespace encode_uri_component is_unreserved same
pasted_token_example =
    pasted_token (codes "nats-kv-ui-access") (codes "demo-open-2026") pasted refl refl refl

-- A run that began and was stopped, while the button was pressed once more.
abbrev no_digits : Digits
no_digits = record { rate = λ _. []; seconds = λ _. []; millis = λ _. [] }

abbrev pressed_once : ℕ × Panel
pressed_once = (1, (press_run settings at_rest).1)

twice : Presses no_digits (1, stop pressed_once.1)
unfolding press_run reset
twice =
    Presses.goes_on
      (Presses.goes_on (Presses.goes_on loaded (pressed_run settings 0 at_rest))
        (pressed_run settings 1 pressed_once.1))
      (pressed_stop 1 pressed_once.1)

Presses-IsGuarded_example : IsGuarded (1, stop pressed_once.1)
Presses-IsGuarded_example = Presses-IsGuarded no_digits (1, stop pressed_once.1) twice
