-- ===== src/Tests/Verify.antt =====
-- The theorems on the verify page applied to an adapter in memory, asked directly and through the
-- application.
use nats_kv.Prelude.{◌⊎◌, false, ◌+◌, ◌≡◌, refl, ◌↔◌, true, none, some, [], map, All}
use nats_kv.Text.{
  Text, codes, same, trim, is_whitespace, strip_prefix, starts_with, split, contains,
}
use nats_kv.Gate.{is_authed}
use nats_kv.Spin.{Trace}
use nats_kv.UserApp.Config.{ui_gate_token, is_ui_authed}
use nats_kv.Pages.Verify.{Call, Service}
use nats_kv.Pages.Verify.Suite.{
  tests, run_verify, summary_class, test_roundtrip, test_delete, test_revision, test_cas_ok,
  test_cas_fail,
}
use nats_kv.Pages.Verify.Summary.{IsTally, IsPass, run_verify_lem}
use nats_kv.Pages.Verify.Through.{header_of, request_of, through, direct}
use nats_kv.Pages.Verify.Through.Transparent.{IsAdmitted, transparent}
use nats_kv.Pages.Verify.Through.Contract.{through_passes}
use nats_kv.Pages.Verify.Table.{Page, run_page}
use nats_kv.Pages.Verify.Table.Verdicts.{view, told_in_turn, state_after, run_page_lem}
use nats_kv.Tests.{assets}
use nats_kv.Tests.Adapter.{reader, adapter, adapter-IsWellFormed, adapter-IsStore}

abbrev service : Service Trace
service = direct [] adapter

abbrev cookie : Text
cookie = codes "nats-kv-ui-access=demo-open-2026"

admitted : IsAdmitted cookie [] adapter
unfolding is_ui_authed is_authed ui_gate_token request_of header_of split strip_prefix same trim
    is_whitespace
admitted c = refl

-- The read of an old revision.
abbrev a_call : Call
a_call = record {
  method = codes "GET";
  path = codes "/nats/v1/kv/demo/k";
  query = codes "revision=1";
  body = none;
  if_match = none;
  content_type = none;
}

transparent_example :
    (through cookie [] adapter assets).answer [] a_call ≡ (direct [] adapter).answer [] a_call
unfolding contains starts_with
transparent_example =
    transparent cookie [] adapter assets admitted adapter-IsWellFormed [] a_call
      (codes "v1/kv/demo/k") refl refl

abbrev app : Service Trace
app = through cookie [] adapter assets

through_passes_example :
    ((test_roundtrip app reader (codes "demo") (codes "7") []).0 ≡ some true)
    × ((test_delete app reader (codes "demo") (codes "7") []).0 ≡ some true)
    × ((test_revision app reader (codes "demo") (codes "7") []).0 ≡ some true)
    × ((test_cas_ok app reader (codes "demo") (codes "7") []).0 ≡ some true)
    × ((test_cas_fail app reader (codes "demo") (codes "7") []).0 ≡ some true)
through_passes_example =
    through_passes cookie [] adapter assets admitted adapter-IsWellFormed reader (codes "demo")
      adapter-IsStore (codes "7") []

run_verify_example :
    (map (λ r. r.0) (run_verify service reader (codes "demo") (codes "7") []).0.results
      ≡ map (λ t. t.0) (tests service reader (codes "demo") (codes "7")))
    × IsTally (run_verify service reader (codes "demo") (codes "7") []).0
    × ((run_verify service reader (codes "demo") (codes "7") []).0.passed
          + (run_verify service reader (codes "demo") (codes "7") []).0.failed
        ≡ 10)
    × ((summary_class (run_verify service reader (codes "demo") (codes "7") []).0 ≡ codes "pass")
        ↔ All IsPass (run_verify service reader (codes "demo") (codes "7") []).0.results)
run_verify_example = run_verify_lem service reader (codes "demo") (codes "7") []

run_page_example :
    ((codes "demo" ≡ []) × (run_page (λ _. 0) service reader (codes "demo") (codes "7") [] ≡ none))
    ⊎ ((page : Page) × (run_page (λ _. 0) service reader (codes "demo") (codes "7") []
          ≡ some (page, state_after (tests service reader (codes "demo") (codes "7")) []))
        × (map view page.rows ≡ told_in_turn (tests service reader (codes "demo") (codes "7")) [])
        × (page.button_disabled ≡ false))
run_page_example = run_page_lem (λ _. 0) service reader (codes "demo") (codes "7") []
