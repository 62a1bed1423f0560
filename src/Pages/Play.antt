-- ===== src/Pages/Play.antt =====
-- The playground of ui/nats-kv-user/src/lib.rs: what its buttons ask for, and the statistics of its
-- benchmark.
pub mod Arrivals
pub mod Bench
pub mod Answer
pub mod Columns
pub mod Results
use nats_kv.Prelude.{ℕ, Bool, true, false, Option, none, some, List, [], ◌∷◌, ◌++◌, if◌then◌else◌}
use nats_kv.Text.{Text, codes, same, decimal}
use nats_kv.Browser.{Fetch, Trace, Browser, or_text}
use nats_kv.Pages.Uri.{encode_uri_component}
use nats_kv.Pages.Session.{key_header}

-- `natsBucket`, with the value of the picker
abbrev pub nats_bucket : Option Text → Text
nats_bucket selected = or_text selected (codes "demo")

pub data Backend : Type 0 where
  nats cosmos : Backend

-- What `op` hands to `fetchOp`.
pub record Operation : Type 0 where
  pub path : Text
  pub method : Text
  pub body : Option Text
  pub label : Text
  pub backend : Backend

abbrev pub nats_key : Text → Text → Text
nats_key bucket key =
    codes "nats/v1/kv/" ++ (encode_uri_component bucket ++ (codes "/" ++ encode_uri_component key))

abbrev pub key_path : Backend → Text → Text → Text
key_path nats bucket key = nats_key bucket key
key_path cosmos bucket key = codes "cosmos/default/" ++ encode_uri_component key

abbrev in_bucket : Text → Text → Text → Text
in_bucket what verb bucket = what ++ (verb ++ (codes " (" ++ (bucket ++ codes ")")))

abbrev label_of : Backend → Text → Text → Text
label_of nats verb bucket = in_bucket (codes "NATS ") verb bucket
label_of cosmos verb bucket = codes "COSMOS " ++ verb

-- `op`
unfoldable pub op : Backend → Text → Text → Text → Text → Operation
op backend verb bucket key value =
    if same verb (codes "INCR")
    then record {
      path = nats_key bucket key ++ codes "/incr";
      method = codes "POST";
      body = none;
      label = in_bucket (codes "NATS ") (codes "INCR") bucket;
      backend = nats;
    }
    else record {
      path = key_path backend bucket key;
      method = verb;
      body = if same verb (codes "PUT") then some value else none;
      label = label_of backend verb bucket;
      backend = backend;
    }

module _ (browser : Browser) where
  -- What `fetchOp` fetches.
  unfoldable pub op_fetch : Operation → Trace → Fetch
  op_fetch o t = record {
    url = codes "/api/" ++ o.path;
    method = o.method;
    headers = key_header browser t;
    body = o.body;
  }

  -- Call `i` of a column of `runBench`.
  unfoldable pub bench_fetch : Backend → Text → Text → ℕ → Trace → Fetch
  bench_fetch backend verb bucket i t = record {
    url = codes "/api/" ++ elim backend [
      | nats ↦ codes "nats/v1/kv/" ++ (encode_uri_component bucket ++ codes "/bench-key")
      | cosmos ↦ codes "cosmos/default/bench-key"
    ];
    method = verb;
    headers = key_header browser t;
    body = if same verb (codes "PUT") then some (codes "bench-payload-" ++ decimal i) else none;
  }
