-- ===== src/Pages/LoadTest.antt =====
-- The load test page of ui/nats-kv-user/src/lib.rs: `runLoad`, its workers and its ticker, and
-- `stopLoad`. The code between two awaits is one step, and the steps of the workers, the ticks and
-- a stop come in any order; the test of the loop is a step of its own, which adds orders. Times
-- are microseconds of the browser's clock. A rate is kept as its count and its time, for the
-- rounding that shows it is left out.
pub mod Counts
pub mod Stopping
pub mod Summary
pub mod Buttons
use nats_kv.Prelude.{
  ℕ, ◌≡◌, zero, suc, ◌+◌, ◌-◌, ◌*◌, ◌%◌, max, Bool, true, false, not, ◌&&◌, ◌||◌, Option, none,
  some, List, [], ◌∷◌, ◌++◌, length, leb, ltb, ◌==◌, if◌then◌else◌,
}
use nats_kv.Text.{Text, codes, same, is_empty, decimal}
use nats_kv.Browser.{Fetch}
use nats_kv.Pages.Uri.{encode_uri_component}
use nats_kv.Pages.Percentile.{p}

-- What the form of the page says, and the key of the visitor, which is empty without one. A field
-- without a number is NaN for the page.
pub record Settings : Type 0 where
  pub bucket : Text
  pub op : Text
  pub conc_input : Option ℕ
  pub dur_input : Option ℕ
  pub value_blob : Text
  pub keyspace : ℕ
  pub path : Text
  pub user_key : Text

abbrev pub adapter_direct_url : Text
adapter_direct_url = codes "https://edge.nats-kv.connected-cloud.io"

pub data Worker : Type 0 where
  looping : Worker
  -- The operation's number and the time of its start.
  fetching : ℕ → ℕ → Worker
  reading : ℕ → ℕ → Worker
  finished : Worker

-- A row of the table of ticks.
pub record Row : Type 0 where
  pub elapsed : ℕ
  pub tick_ops : ℕ
  pub tick_elapsed : ℕ
  pub percentiles : ℕ × ℕ × ℕ
  pub row_errs : ℕ

pub record Counters : Type 0 where
  pub total : ℕ
  pub errs : ℕ
  pub op_counter : ℕ
  pub lats : List ℕ
  pub tick_lats : List ℕ
  pub last_tick : ℕ
  pub last_tick_total : ℕ
  pub rows : List Row
  pub stop_requested : Bool

-- What a worker waits for.
pub data Event : Type 0 where
  -- The loop is tested, at the first time, and the operation starts, at the second.
  loops : ℕ → ℕ → Event
  -- The headers of a response, with its status.
  responds : ℕ → Event
  -- The body, with the status of its envelope, if it has one, and the time.
  reads : Option ℕ → ℕ → Event
  -- `fetch`, or the read of the body, throws.
  fails : Event

-- `if (…) errs++`
abbrev pub count_error : Bool → Counters → Counters
count_error true c = record c { errs = suc c.errs }
count_error false c = c

-- `!r.ok && r.status !== 404`
unfoldable pub is_error_response : ℕ → Bool
is_error_response status =
    let r_ok = leb 200 status && leb status 299 in not r_ok && not (status == 404)

-- `j.status >= 400 && j.status !== 404`; a comparison with a missing status is false.
unfoldable pub is_error_status : Option ℕ → Bool
is_error_status none = false
is_error_status (some s) = leb 400 s && not (s == 404)

-- `lats.push(dt); tickLats.push(dt); total++`
abbrev pub record_latency : ℕ → Counters → Counters
record_latency dt c = record c {
  lats = c.lats ++ dt ∷ [];
  tick_lats = c.tick_lats ++ dt ∷ [];
  total = suc c.total;
}

module _ (cfg : Settings) where
  -- No worker is below NaN.
  unfoldable pub conc : ℕ
  conc = elim cfg.conc_input [ none ↦ 0 | some n ↦ max 1 n ]

  -- No time is below a deadline of NaN, as none of a run is below its start.
  unfoldable pub dur_ms : ℕ
  dur_ms = elim cfg.dur_input [ none ↦ 0 | some n ↦ max 1000 (n * 1000) ]

  unfoldable pub is_fwf : Bool
  is_fwf = same cfg.path (codes "fwf")

  -- `key(i)`; a number modulo 0 is NaN.
  unfoldable pub key : ℕ → Text
  key i =
      if cfg.keyspace == 1
      then codes "lt-key"
      else if cfg.keyspace == 0
      then codes "lt-NaN"
      else codes "lt-" ++ decimal (i % cfg.keyspace)

  unfoldable pub build_url : Text → Text
  build_url k =
      (if is_fwf then codes "/api/nats/v1/kv/" else adapter_direct_url ++ codes "/v1/kv/")
      ++ (encode_uri_component cfg.bucket ++ (codes "/" ++ encode_uri_component k))

  unfoldable pub build_headers : List (Text × Text)
  build_headers =
      if is_fwf
      then if is_empty cfg.user_key then [] else (codes "X-KV-Key", cfg.user_key) ∷ []
      else (
        codes "Authorization",
        codes "Bearer " ++ (if is_empty cfg.user_key then codes "akv_demo_open" else cfg.user_key),
      )
        ∷ []

  unfoldable pub is_put : ℕ → Bool
  is_put i = same cfg.op (codes "PUT") || (same cfg.op (codes "MIX") && i % 10 == 0)

  -- What operation `i` asks for.
  unfoldable pub operation : ℕ → Fetch
  operation i = record {
    url = build_url (key i);
    method = if is_put i then codes "PUT" else codes "GET";
    headers = build_headers;
    body = if is_put i then some cfg.value_blob else none;
  }

  -- `while (performance.now() < deadline && !stopRequested)`, up to the first await
  unfoldable pub loop_test : ℕ → ℕ → ℕ → Counters → Counters × Worker
  loop_test deadline now t1 c =
      if ltb now deadline && not c.stop_requested
      then (record c { op_counter = suc c.op_counter }, fetching c.op_counter t1)
      else (c, finished)

  -- The direct path counts an error before it drains the body.
  unfoldable pub on_response : ℕ → Counters → Counters
  on_response status c = count_error (not is_fwf && is_error_response status) c

  -- What follows the read of the body.
  unfoldable pub on_body : Option ℕ → ℕ → ℕ → Counters → Counters
  on_body envelope now t1 c =
      record_latency (now - t1) (count_error (is_fwf && is_error_status envelope) c)

  unfoldable pub on_failure : Counters → Counters
  on_failure c = record c { errs = suc c.errs }

  -- A worker goes on with an event that it waits for.
  unfoldable pub react : ℕ → Event → Counters → Worker → Option (Counters × Worker)
  unfolding loop_test on_response on_body on_failure
  react deadline (loops now t1) c looping = some (loop_test deadline now t1 c)
  react deadline (responds status) c (fetching i t1) = some (on_response status c, reading i t1)
  react deadline (reads envelope now) c (reading i t1) = some (on_body envelope now t1 c, looping)
  react deadline fails c (fetching i t1) = some (on_failure c, looping)
  react deadline fails c (reading i t1) = some (on_failure c, looping)
  react deadline _ c _ = none

  abbrev pub keep : Worker → Option (Counters × List Worker) → Option (Counters × List Worker)
  keep w none = none
  keep w (some (c, ws)) = some (c, w ∷ ws)

  abbrev pub place : List Worker → Option (Counters × Worker) → Option (Counters × List Worker)
  place ws none = none
  place ws (some (c, w)) = some (c, w ∷ ws)

  -- The event of one worker among all.
  unfoldable pub react_at : ℕ → ℕ → Event → Counters → List Worker → Option (Counters × List Worker)
  unfolding react
  react_at deadline j e c [] = none
  react_at deadline zero e c (w ∷ ws) = place ws (react deadline e c w)
  react_at deadline (suc j) e c (w ∷ ws) = keep w (react_at deadline j e c ws)

-- `while (tb.children.length > 30) tb.removeChild(tb.firstChild)`
unfoldable pub last_rows : List Row → List Row
last_rows [] = []
last_rows (r ∷ rs) = let rest = last_rows rs in if ltb 30 (length (r ∷ rs)) then rest else r ∷ rs

abbrev pub percentiles_of : List ℕ → ℕ × ℕ × ℕ
percentiles_of ls = (p ls 50, p ls 95, p ls 99)

abbrev pub row_of : ℕ → ℕ → Counters → Row
row_of t0 now c = record {
  elapsed = now - t0;
  tick_ops = c.total - c.last_tick_total;
  tick_elapsed = now - c.last_tick;
  percentiles = percentiles_of c.tick_lats;
  row_errs = c.errs;
}

-- `if (tickLats.length) { … }` of the ticker
unfoldable pub add_row : ℕ → ℕ → Counters → List Row
unfolding last_rows
add_row t0 now c =
    if length c.tick_lats == 0 then c.rows else last_rows (c.rows ++ row_of t0 now c ∷ [])

-- The ticker, every half second.
unfoldable pub tick : ℕ → ℕ → Counters → Counters
unfolding add_row
tick t0 now c = record c {
  rows = add_row t0 now c;
  tick_lats = [];
  last_tick = now;
  last_tick_total = c.total;
}

unfoldable pub stop_load : Counters → Counters
stop_load c = record c { stop_requested = true }

unfoldable pub start : ℕ → Counters
start t0 = record {
  total = 0;
  errs = 0;
  op_counter = 0;
  lats = [];
  tick_lats = [];
  last_tick = t0;
  last_tick_total = 0;
  rows = [];
  stop_requested = false;
}

unfoldable pub spin_up : ℕ → List Worker
spin_up zero = []
spin_up (suc n) = looping ∷ spin_up n

-- One step of a run that began at `t0`.
pub data Step (cfg : Settings) (t0 : ℕ) (s : Counters × List Worker)
    : Counters × List Worker → Type 0 where
  worker :
      (j : ℕ) (e : Event) (u : Counters × List Worker)
      → react_at cfg (t0 + dur_ms cfg * 1000) j e s.0 s.1 ≡ some u
      → Step cfg t0 s u
  ticker : (now : ℕ) → Step cfg t0 s (tick t0 now s.0, s.1)
  stopper : Step cfg t0 s (stop_load s.0, s.1)

-- What a run can come to.
pub data Reach (cfg : Settings) (t0 : ℕ) : Counters × List Worker → Type 0 where
  begins : Reach cfg t0 (start t0, spin_up (conc cfg))
  goes_on : {s u : Counters × List Worker} → Reach cfg t0 s → Step cfg t0 s u → Reach cfg t0 u
