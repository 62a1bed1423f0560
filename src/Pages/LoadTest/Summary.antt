-- ===== src/Pages/LoadTest/Summary.antt =====
-- The end of `runLoad` of ui/nats-kv-user/src/lib.rs, once its workers are done: what the page then
-- shows, and the row that it adds to the history. A rate is kept as its count and its time.
use nats_kv.Prelude.{ℕ, ◌-◌, Option, none, some, List, [], ◌∷◌}
use nats_kv.Text.{Text}
use nats_kv.Pages.LoadTest.{Settings, Counters, conc, dur_ms, percentiles_of}

pub record Summary : Type 0 where
  pub total : ℕ
  pub errs : ℕ
  pub rps : ℕ × ℕ
  pub percentiles : Option (ℕ × ℕ × ℕ)

-- `if (lats.length) …`
abbrev percentiles_if : List ℕ → Option (ℕ × ℕ × ℕ)
percentiles_if [] = none
percentiles_if (x ∷ xs) = some (percentiles_of (x ∷ xs))

unfoldable pub summary : ℕ → ℕ → Counters → Summary
summary t0 now c = record {
  total = c.total;
  errs = c.errs;
  rps = (c.total, now - t0);
  percentiles = percentiles_if c.lats;
}

-- A row of the history, without the time of day
pub record HistoryRow : Type 0 where
  pub bucket : Text
  pub op : Text
  pub path : Text
  pub workers : ℕ
  pub duration : ℕ
  pub result : Summary

-- The newest row comes first.
unfoldable pub add_history : Settings → Summary → List HistoryRow → List HistoryRow
add_history cfg s history =
    record {
      bucket = cfg.bucket;
      op = cfg.op;
      path = cfg.path;
      workers = conc cfg;
      duration = dur_ms cfg;
      result = s;
    }
    ∷ history
