-- ===== src/Pages/Verify.antt =====
-- The verify page of ui/nats-kv-user/src/lib.rs: its tests of the key-value service, as programs
-- over the service, and `runVerify`. A test ends in its `ok`, or throws; the texts that explain a
-- failure are left out. The path and the query of an address are kept apart.
pub mod Suite
pub mod Summary
pub mod Conforming
pub mod Through
pub mod Table
use nats_kv.Prelude.{
  ℕ, ◌+◌, zero, suc, Bool, true, false, not, ◌&&◌, ◌||◌, Option, none, some, List, [], ◌∷◌, ◌++◌,
  length, ltb, ◌==◌, if◌then◌else◌,
}
use nats_kv.Text.{Text, codes, same, decimal}
use nats_kv.Pages.Uri.{encode_uri_component}

-- What `call` is asked, with the condition of the header `If-Match`.
pub record Call : Type 0 where
  pub method : Text
  pub path : Text
  pub query : Text
  pub body : Option Text
  pub if_match : Option Text
  pub content_type : Option Text

-- What `call` gives of the envelope: the status, the adapter's time and the decoded body.
pub record Reply : Type 0 where
  pub status : ℕ
  pub adapter_ms : Text
  pub body : Text

-- The service: `call` throws where there is no reply.
pub record Service (S : Type 0) : Type 0 where
  pub answer : S → Call → Option Reply × S

-- What the tests read of a JSON text, if it is one: `JSON.parse(…).revision` as a text, the depth
-- of a history, the number of the keys, the names of the buckets; and `parseInt`.
pub record Reader : Type 0 where
  pub revision : Text → Option Text
  pub history : Text → Option ℕ
  pub keys : Text → Option ℕ
  pub buckets : Text → Option (List Text)
  pub parse_int : Text → Option ℕ

-- A program that calls the service; it may throw.
abbrev pub Run : Type 0 → Type 0 → Type 0
Run S A = S → Option A × S

abbrev pub pure : {S A : Type 0} → A → Run S A
pure a s = (some a, s)

abbrev pub resume : {S A B : Type 0} → Option A → (A → Run S B) → Run S B
resume none f s = (none, s)
resume (some a) f s = f a s

infixl 5 ◌>>=◌
abbrev pub ◌>>=◌ : {S A B : Type 0} → Run S A → (A → Run S B) → Run S B
◌>>=◌ m f s = let (r, s') = m s in resume r f s'

-- A JSON text is parsed, or the parser throws.
abbrev pub parsed : {S A : Type 0} → Option A → Run S A
parsed o s = (o, s)

-- `if (!good) return { ok: false }`, and what follows
abbrev pub expect : {S : Type 0} → Bool → Run S Bool → Run S Bool
expect true rest = rest
expect false rest = pure false

unfoldable pub kv_path : Text → Text → Text
kv_path bucket k =
    codes "/nats/v1/kv/" ++ (encode_uri_component bucket ++ (codes "/" ++ encode_uri_component k))

unfoldable pub key_of : Text → Text → Text
key_of suffix name = codes "vfy-" ++ (suffix ++ (codes "-" ++ name))

module _ {S : Type 0} (service : Service S) where
  abbrev pub call : Text → Text → Text → Option Text → Option Text → Option Text → Run S Reply
  call method path query body if_match content_type s = service.answer s (record {
    method = method;
    path = path;
    query = query;
    body = body;
    if_match = if_match;
    content_type = content_type;
  })

  abbrev pub put : Text → Text → Run S Reply
  put path v = call (codes "PUT") path [] (some v) none none

  abbrev pub put_if : Text → Text → Text → Run S Reply
  put_if path v rev = call (codes "PUT") path [] (some v) (some rev) none

  abbrev pub get : Text → Text → Run S Reply
  get path query = call (codes "GET") path query none none none

  abbrev pub delete : Text → Run S Reply
  delete path = call (codes "DELETE") path [] none none none
