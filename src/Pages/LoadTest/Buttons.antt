-- ===== src/Pages/LoadTest/Buttons.antt =====
-- The buttons and the numbers of the load test page of ui/nats-kv-user/src/lib.rs: what `runLoad`
-- shows when it begins and when it ends, `stopLoad`, and the guard that keeps runs apart.
pub mod OneRun
use nats_kv.Prelude.{
  ℕ, ◌+◌, ◌-◌, ◌*◌, ◌/◌, Bool, true, false, Option, none, some, List, [], ◌∷◌, ◌++◌, if◌then◌else◌,
}
use nats_kv.Text.{Text, codes, concat, decimal}
use nats_kv.Pages.LoadTest.{Settings, conc, dur_ms}
use nats_kv.Pages.LoadTest.Summary.{Summary}

-- `running` and `stopRequested`, which of the buttons are disabled, and what the page shows.
pub record Panel : Type 0 where
  pub running : Bool
  pub stop_requested : Bool
  pub run_disabled : Bool
  pub stop_disabled : Bool
  pub status : Text
  pub rps : Text
  pub total : Text
  pub errs : Text
  pub percentiles : Text × Text × Text

abbrev pub dash : Text
dash = codes "—"

abbrev dashes : Text × Text × Text
dashes = (dash, dash, dash)

-- The page when it is loaded
abbrev pub at_rest : Panel
at_rest = record {
  running = false;
  stop_requested = false;
  run_disabled = false;
  stop_disabled = true;
  status = [];
  rps = dash;
  total = codes "0";
  errs = codes "0";
  percentiles = dashes;
}

unfoldable pub running_text : Settings → Text
running_text cfg = concat (
    codes "running "
    ∷ cfg.op
    ∷ codes " for "
    ∷ decimal (dur_ms cfg / 1000)
    ∷ codes "s @ concurrency "
    ∷ decimal (conc cfg)
    ∷ codes " via "
    ∷ cfg.path
    ∷ codes "…"
    ∷ [])

-- `runLoad` up to its first measurements, if it is not running
unfoldable pub reset : Settings → Panel → Panel
unfolding running_text
reset cfg p = record {
  running = true;
  stop_requested = false;
  run_disabled = true;
  stop_disabled = false;
  status = running_text cfg;
  rps = dash;
  total = codes "0";
  errs = codes "0";
  percentiles = dashes;
}

-- `x.toFixed(0)` and `x.toFixed(1)` of a quotient, and of a time in microseconds as milliseconds
-- or seconds
pub record Digits : Type 0 where
  pub rate : ℕ × ℕ → Text
  pub seconds : ℕ → Text
  pub millis : ℕ → Text

module _ (digits : Digits) where
  abbrev in_ms : ℕ × ℕ × ℕ → Text × Text × Text
  in_ms (a, b, c) = (digits.millis a, digits.millis b, digits.millis c)

  -- `if (lats.length) …`
  abbrev percentiles_shown : Option (ℕ × ℕ × ℕ) → Panel → Text × Text × Text
  percentiles_shown none p = p.percentiles
  percentiles_shown (some ps) p = in_ms ps

  unfoldable pub done_text : Summary → Text
  done_text s = concat (
      codes "done — "
      ∷ decimal s.total
      ∷ codes " ops in "
      ∷ digits.seconds s.rps.1
      ∷ codes "s @ "
      ∷ digits.rate s.rps
      ∷ codes " ops/sec ("
      ∷ decimal s.errs
      ∷ codes " errors)"
      ∷ [])

  -- The end of `runLoad`
  unfoldable pub settle : Summary → Panel → Panel
  unfolding done_text
  settle s p = record p {
    running = false;
    run_disabled = false;
    stop_disabled = true;
    status = done_text s;
    rps = digits.rate s.rps;
    total = decimal s.total;
    errs = decimal s.errs;
    percentiles = percentiles_shown s.percentiles p;
  }

-- `stopLoad`
unfoldable pub stop : Panel → Panel
stop p = record p { stop_requested = true; status = codes "stop requested…" }

-- `runLoad` begins, or returns at once; it tells whether a run began.
unfoldable pub press_run : Settings → Panel → Bool × Panel
unfolding reset
press_run cfg p = if p.running then (false, p) else (true, reset cfg p)
