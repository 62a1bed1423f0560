-- ===== src/Tests.antt =====
-- A host and requests to run the handlers on, for the tests and the instances of the theorems.
pub mod Runs
pub mod Gate
pub mod User
pub mod Admin
pub mod AdminPage
pub mod Session
pub mod Dashboard
pub mod Play
pub mod Invite
pub mod Topology
pub mod Pages
pub mod Adapter
pub mod Verify
use nats_kv.Prelude.{ℕ, Option, none, some, List, [], ◌∷◌, if◌then◌else◌}
use nats_kv.Text.{Text, codes, same}
use nats_kv.Spin.{Method, get, Request, Upstream, ok, Host}
use nats_kv.UserApp.Config.{Assets}
use nats_kv.UserApp.Proxy.Store.{contents}

-- What the adapter of this host answers.
abbrev pub answer : Upstream
answer = record {
  status = 200;
  headers =
      (codes "X-Served-By", some (codes "us-ord"))
      ∷ (codes "X-Latency-Ms", some (codes "3"))
      ∷ (codes "x-opaque", none)
      ∷ (codes "X-Revision", some (codes "7"))
      ∷ [];
  body = codes "hi!";
}

-- No variable is set, every request is answered alike, and the store holds what was written to it.
abbrev pub host : Host
host = record {
  variable = λ _. none;
  send = λ _ _. ok answer;
  elapsed_us = λ _. 42;
  store_open = λ _. ok tt;
  store_get = λ t key. ok (contents t key);
  store_set = λ _ _ _. ok tt;
  store_delete = λ _ _. ok tt;
}

-- One header, with the method, the path and the query.
abbrev pub request_of : Method → Text → Text → Text → Option Text → Request
request_of method path query name value = record {
  method = method;
  path = path;
  query = query;
  header = λ k. if same k name then value else none;
  body = [];
}

abbrev pub get_of : Text → Text → Request
get_of path query = request_of get path query (codes "") none

abbrev pub assets : Assets
assets = record {
  shared_css = codes "b{}";
  nav_js = codes "f()";
  gate_html = codes "gate";
  index_html = codes "<style>__SHARED_CSS__</style><script>__NAV_JS__</script>";
  play_html = codes "play";
  dash_html = codes "dash";
  topology_html = codes "topology";
  docs_html = codes "docs";
  loadtest_html = codes "loadtest";
  verify_html = codes "verify";
  api_explorer_html = codes "api";
  openapi_yaml = codes "openapi: 3.0.3";
  claim_html = codes "claim";
  signed_out_html = codes "out";
}
