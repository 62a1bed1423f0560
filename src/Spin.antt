-- ===== src/Spin.antt =====
-- The platform below the two Spin applications (ui/nats-kv-user, ui/nats-kv-admin): what their
-- handlers read of a request, what they build, and the calls that they make of the host. The SDK
-- and the host are not part of the repository, so every answer of the host is a field of `Host`,
-- and depends on all that was asked of it before.
pub mod Io
use nats_kv.Prelude.{ℕ, Option, none, some, List, [], ◌∷◌, if◌then◌else◌}
use nats_kv.Text.{Text, same}

-- The methods that the code names; `other` holds the name of any other method.
pub data Method : Type 0 where
  get put delete post : Method
  other : Text → Method

-- What the handlers read of a request. `header k` stands for
-- `req.header(k).and_then(|v| v.as_str())`.
pub record Request : Type 0 where
  pub method : Method
  pub path : Text
  pub query : Text
  pub header : Text → Option Text
  pub body : List ℕ

-- A body is built from a text or from bytes.
pub data Body : Type 0 where
  text : Text → Body
  bytes : List ℕ → Body

pub record Response : Type 0 where
  pub status : ℕ
  pub headers : List (Text × Text)
  pub body : Body

-- An outbound request, as the builder has put it together.
pub record OutRequest : Type 0 where
  pub method : Method
  pub uri : Text
  pub headers : List (Text × Text)
  pub body : List ℕ

-- What the code reads of an upstream's response: a header's value is `none` if it is no text.
pub record Upstream : Type 0 where
  pub status : ℕ
  pub headers : List (Text × Option Text)
  pub body : List ℕ

-- An error is carried as the text that it is shown by.
pub data Result {ℓ} (A : Type ℓ) : Type ℓ where
  ok : A → Result A
  err : Text → Result A

-- What a handler does to the outside world.
pub data Effect : Type 0 where
  sent : OutRequest → Effect
  opened : Effect
  read : Text → Effect
  wrote : Text → List ℕ → Effect
  removed : Text → Effect

-- The newest effect stands first.
abbrev pub Trace : Type 0
Trace = List Effect

pub record Host : Type 0 where
  -- `variables::get(name).ok()`
  pub variable : Text → Option Text
  -- `spin_sdk::http::send`
  pub send : Trace → OutRequest → Result Upstream
  -- `t0.elapsed().as_micros()`
  pub elapsed_us : Trace → ℕ
  -- `Store::open_default`, and `get`, `set` and `delete` of the store
  pub store_open : Trace → Result (Unit {0})
  pub store_get : Trace → Text → Result (Option (List ℕ))
  pub store_set : Trace → Text → List ℕ → Result (Unit {0})
  pub store_delete : Trace → Text → Result (Unit {0})

-- The value of the first header with this name.
unfoldable pub find_header : Text → List (Text × Text) → Option Text
find_header name [] = none
find_header name ((k, v) ∷ hs) = if same k name then some v else find_header name hs
