-- ===== src/Tests/Gate.antt =====
-- Instances of the theorems on the gate and on Base64.
use nats_kv.Prelude.{◌≡◌, refl, ◌↔◌, ◌⊎◌, true, some, [], ◌∷◌, arith, length, All}
use nats_kv.Text.{Text, codes, same, trim, is_whitespace, join}
use nats_kv.Base64.{b64encode, b64decode}
use nats_kv.Base64.RoundTrip.{b64decode-b64encode}
use nats_kv.Base64.Shape.{IsAlphabet, b64encode_shape}
use nats_kv.Spin.{get, Request}
use nats_kv.Gate.{is_authed, gate_cookie}
use nats_kv.Gate.Laws.{CarriesCookie, CarriesAccess, is_authed_iff}
use nats_kv.Gate.Cookies.{kept, cookie_returns}
use nats_kv.Tests.{request_of, get_of}

b64decode-b64encode_example : b64decode (b64encode (codes "hi!?")) ≡ some (codes "hi!?")
b64decode-b64encode_example = b64decode-b64encode (codes "hi!?") (omega arith)

b64encode_shape_example :
    (length (b64encode (codes "hi!?")) ≡ 8) × All IsAlphabet (b64encode (codes "hi!?"))
b64encode_shape_example = b64encode_shape (codes "hi!?") (omega arith)

is_authed_iff_example :
    (is_authed (codes "k") (codes "t") (get_of (codes "/play") (codes "x=1&access=t")) ≡ true) ↔ (
      CarriesCookie (codes "k") (codes "t") (get_of (codes "/play") (codes "x=1&access=t"))
      ⊎ CarriesAccess (codes "t") (get_of (codes "/play") (codes "x=1&access=t")))
is_authed_iff_example =
    is_authed_iff (codes "k") (codes "t") (get_of (codes "/play") (codes "x=1&access=t"))

abbrev cookies : Text
cookies = join (codes "; ") (codes "a=b" ∷ kept (gate_cookie (codes "k") (codes "t")) ∷ [])

abbrev returning : Request
returning = request_of get (codes "/play") [] (codes "cookie") (some cookies)

cookie_returns_example : is_authed (codes "k") (codes "t") returning ≡ true
unfolding trim is_whitespace same
cookie_returns_example =
    cookie_returns (codes "k") (codes "t") (codes "a=b" ∷ []) [] returning (omega arith) refl refl
