-- ===== src/Tests/Runs.antt =====
-- Runs of the definitions on inputs that can be followed in the source.
use nats_kv.Prelude.{◌≡◌, refl, some, [], ◌∷◌}
use nats_kv.Text.{codes, is_whitespace, split, trim, replace, decimal, is_empty}
use nats_kv.Base64.{b64encode, b64decode}
use nats_kv.UserApp.Config.{rendered}
use nats_kv.UserApp.Json.{str, num, read_object}
use nats_kv.UserApp.Envelope.{nats_payload}
use nats_kv.UserApp.Proxy.{store_key}
use nats_kv.Tests.{assets}

encoded : b64encode (codes "hi!?") ≡ codes "aGkhPw=="
unfolding b64encode
encoded = refl

decoded : b64decode (codes "aGkhPw==") ≡ some (codes "hi!?")
unfolding b64decode
decoded = refl

trimmed : trim (codes "  a b ") ≡ codes "a b"
unfolding trim is_whitespace
trimmed = refl

parts : split b';' (codes "a;;b") ≡ codes "a" ∷ [] ∷ codes "b" ∷ []
unfolding split
parts = refl

page : rendered assets assets.index_html ≡ codes "<style>b{}</style><script>f()</script>"
unfolding rendered replace
page = refl

printed : decimal 1209600 ≡ codes "1209600"
unfolding decimal
printed = refl

key : store_key (codes "default/a/b//") ≡ codes "b"
unfolding store_key split is_empty
key = refl

envelope :
    read_object (nats_payload 404 42 (codes "3") (codes "us-ord") [] (codes "aGk="))
    ≡ some (
        (codes "backend", str (codes "nats"))
        ∷ (codes "status", num 404)
        ∷ (codes "upstream_us", num 42)
        ∷ (codes "adapter_ms", str (codes "3"))
        ∷ (codes "served_by", str (codes "us-ord"))
        ∷ (codes "revision", str [])
        ∷ (codes "body_b64", str (codes "aGk="))
        ∷ [])
unfolding read_object nats_payload decimal
envelope = refl
