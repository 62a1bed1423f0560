-- ===== src/Pages/Play/Results.antt =====
-- What `runBench` of ui/nats-kv-user/src/lib.rs shows at its end, without the white space between
-- tags. Times are in microseconds.
use nats_kv.Prelude.{ℕ, Option, some, [], ◌∷◌, ◌++◌, ltb, if◌then◌else◌}
use nats_kv.Text.{Text, codes, concat}
use nats_kv.AdminPage.Rows.{◌>>=◌}
use nats_kv.Pages.Play.Bench.{Stats, stats}
use nats_kv.Pages.Play.Columns.{Bench}

-- `ms.toFixed(2)` and `ms.toFixed(1)` of a time, and of a quotient
pub record Digits : Type 0 where
  pub two : ℕ → Text
  pub one : ℕ → Text
  pub two_of : ℕ × ℕ → Text
  pub one_of : ℕ × ℕ → Text

abbrev stat : Text → Text → Text
stat name value = concat (
    codes "<div class=\"stat\"><span>"
    ∷ name
    ∷ codes "</span><span>"
    ∷ value
    ∷ codes "</span></div>"
    ∷ [])

abbrev ms : Text → Text
ms text = text ++ codes " ms"

abbrev strong_ms : Text → Text
strong_ms text = codes "<strong>" ++ (text ++ codes " ms</strong>")

module _ (digits : Digits) where
  -- `renderCol`
  unfoldable pub render_col : Stats → Stats → Text
  render_col s seen = concat (
      stat (codes "min") (ms (digits.two s.lowest))
      ∷ stat (codes "p50") (strong_ms (digits.two s.p50))
      ∷ stat (codes "p90") (ms (digits.two s.p90))
      ∷ stat (codes "p99") (ms (digits.two s.p99))
      ∷ stat (codes "max") (ms (digits.two s.highest))
      ∷ stat (codes "mean") (ms (digits.two_of s.mean))
      ∷ codes
          "<div class=\"stat\" style=\"margin-top:6px;border-top:1px solid #30363d;padding-top:6px;\">"
      ∷ codes "<span>browser p50</span><span>"
      ∷ digits.one seen.p50
      ∷ codes " ms</span></div>"
      ∷ [])

  abbrev trophy : ℕ → ℕ → Text
  trophy slow fast = concat (
      codes "<div style=\"color:#3fb950;font-weight:bold;margin-bottom:6px;\">🏆 "
      ∷ digits.one_of (slow, fast)
      ∷ codes "× faster on p50</div>"
      ∷ [])

  -- The two columns, with the trophy on top of the winner's
  unfoldable pub bench_results : Stats → Stats → Stats → Stats → Text × Text
  unfolding render_col
  bench_results ns nats_seen cs cosmos_seen =
      let left = render_col ns nats_seen in
      let right = render_col cs cosmos_seen in
      if ltb ns.p50 cs.p50
      then (trophy cs.p50 ns.p50 ++ left, right)
      else (left, trophy ns.p50 cs.p50 ++ right)

  -- `stats` of the four lists; of no measurements it has no numbers, and `renderCol` throws.
  unfoldable pub show_results : Bench → Option (Text × Text)
  unfolding bench_results stats
  show_results b = do
    ns ← stats b.nats_column.upstream
    cs ← stats b.cosmos_column.upstream
    nats_seen ← stats b.nats_column.browser
    cosmos_seen ← stats b.cosmos_column.browser
    some (bench_results ns nats_seen cs cosmos_seen)
