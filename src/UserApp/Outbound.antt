-- ===== src/UserApp/Outbound.antt =====
-- The requests that reach the adapter and the control plane, and the headers that the adapter
-- answers with, written out part by part, apart from the functions of ui/nats-kv-user/src/lib.rs and
-- ui/nats-kv-admin/src/lib.rs that build and read them.
pub mod Built
use nats_kv.Prelude.{ℕ, ◌≡◌, ◌≢◌, Option, none, some, List, [], ◌∷◌, ◌++◌, if◌then◌else◌}
use nats_kv.Text.{Text, codes, same, to_lowercase}
use nats_kv.Text.Split.{Lacks}
use nats_kv.Spin.{Method, OutRequest}

-- The value, or a default.
abbrev pub given : Option Text → Text → Text
given none d = d
given (some v) d = v

-- What follows the base of an address: the path, and the query exactly if it is not empty.
abbrev pub location : Text → Text → Text
location rest [] = rest
location rest (c ∷ query) = rest ++ b'?' ∷ c ∷ query

-- A header that is there exactly if there is a value.
abbrev pub stated : Text → Option Text → List (Text × Text)
stated name none = []
stated name (some v) = (name, v) ∷ []

-- A content type that is there exactly if there is a body.
abbrev pub typed : List ℕ → Text → List (Text × Text)
typed [] v = []
typed (_ ∷ _) v = (codes "Content-Type", v) ∷ []

-- A request of the adapter.
abbrev pub to_adapter :
    Method → Text → Text → List ℕ → Text → Option Text → Option Text → Option Text → OutRequest
to_adapter method rest query body key if_match if_none_match content_type = record {
  method = method;
  uri = codes "http://edge.nats-kv.connected-cloud.io:8080/" ++ location rest query;
  headers =
      (codes "Authorization", codes "Bearer " ++ key)
      ∷ (stated (codes "If-Match") if_match
          ++ (stated (codes "If-None-Match") if_none_match
              ++ typed body (given content_type (codes "application/octet-stream"))));
  body = body;
}

-- A credential is sent exactly if there is one that is not empty.
abbrev pub credential : Option Text → List (Text × Text)
credential none = []
credential (some []) = []
credential (some (c ∷ v)) = (codes "Authorization", c ∷ v) ∷ []

-- A request of the control plane.
abbrev pub to_control : Method → Text → Text → List ℕ → Option Text → OutRequest
to_control method rest query body authorization = record {
  method = method;
  uri = codes "https://cp.nats-kv.connected-cloud.io/" ++ location rest query;
  headers = credential authorization ++ typed body (codes "application/json");
  body = body;
}

-- The value of the last text header with this name, which is in lower case.
abbrev pub or_else : Option Text → Option Text → Option Text
or_else (some v) o = some v
or_else none o = o

abbrev pub named : Text → List (Text × Option Text) → Option Text
named name [] = none
named name ((k, none) ∷ hs) = named name hs
named name ((k, some s) ∷ hs) =
    or_else (named name hs) (if same (to_lowercase k) name then some s else none)

-- What the adapter tells of itself in this header, if it does.
abbrev pub told : Text → List (Text × Option Text) → Text
told name hs = given (named name hs) []

-- A path whose last part is this key.
abbrev pub IsPathTo : Text → Text → Type 0
IsPathTo key path = (dir : Text) × (path ≡ dir ++ b'/' ∷ key) × (key ≢ []) × Lacks b'/' key
