-- ===== src/Pages/Verify/Suite.antt =====
-- The ten tests of the verify page of ui/nats-kv-user/src/lib.rs, and `runVerify`.
use nats_kv.Prelude.{
  ℕ, zero, suc, Bool, true, false, not, ◌||◌, Option, none, some, List, [], ◌∷◌, ◌++◌, ltb, ◌==◌,
  if◌then◌else◌,
}
use nats_kv.Text.{Text, codes, same}
use nats_kv.Pages.Uri.{encode_uri_component}
use nats_kv.Pages.Verify.{
  Service, Reader, Run, pure, ◌>>=◌, parsed, expect, kv_path, key_of, call, put, put_if, get,
  delete,
}

module _ {S : Type 0} (service : Service S) where
  module _ (reader : Reader) (bucket suffix : Text) where
    -- 1. PUT then GET
    unfoldable pub test_roundtrip : Run S Bool
    test_roundtrip = do
      p ← put service (kv_path bucket (key_of suffix (codes "roundtrip"))) (codes "hello-roundtrip")
      expect (p.status == 200) (do
        g ← get service (kv_path bucket (key_of suffix (codes "roundtrip"))) []
        expect (g.status == 200) (
            expect (same g.body (codes "hello-roundtrip"))
              (do rev ← parsed (reader.revision p.body); pure true)))

    -- 2. DELETE then GET
    unfoldable pub test_delete : Run S Bool
    test_delete = do
      _ ← put service (kv_path bucket (key_of suffix (codes "delete"))) (codes "to-delete")
      d ← delete service (kv_path bucket (key_of suffix (codes "delete")))
      expect (d.status == 200 || d.status == 204) (do
        g ← get service (kv_path bucket (key_of suffix (codes "delete"))) []
        pure (g.status == 404))

    -- 3. Revision history
    unfoldable pub test_history : Run S Bool
    test_history = do
      let path = kv_path bucket (key_of suffix (codes "history"))
      _ ← put service path (codes "version-1")
      _ ← put service path (codes "version-2")
      _ ← put service path (codes "version-3")
      h ← get service (path ++ codes "/history") []
      expect (h.status == 200) (do depth ← parsed (reader.history h.body); pure (not (ltb depth 3)))

    -- 4. Read a specific revision
    unfoldable pub test_revision : Run S Bool
    test_revision = do
      let path = kv_path bucket (key_of suffix (codes "rev"))
      p ← put service path (codes "first")
      expect (p.status == 200) (do
        rev ← parsed (reader.revision p.body)
        _ ← put service path (codes "second")
        g ← get service path (codes "revision=" ++ rev)
        expect (g.status == 200) (pure (same g.body (codes "first"))))

    -- 5. A write with the correct If-Match
    unfoldable pub test_cas_ok : Run S Bool
    test_cas_ok = do
      let path = kv_path bucket (key_of suffix (codes "cas-ok"))
      p ← put service path (codes "v1")
      expect (p.status == 200) (do
        rev ← parsed (reader.revision p.body)
        c ← put_if service path (codes "v2") rev
        pure (c.status == 200))

    -- 6. A write with a stale If-Match
    unfoldable pub test_cas_fail : Run S Bool
    test_cas_fail = do
      let path = kv_path bucket (key_of suffix (codes "cas-fail"))
      p ← put service path (codes "v1")
      expect (p.status == 200) (do
        stale ← parsed (reader.revision p.body)
        _ ← put service path (codes "v2")
        c ← put_if service path (codes "v3") stale
        pure (c.status == 412))

    -- `for (let i = 1; i <= 5; i++)`, of which `n` rounds are left; false returns from the test.
    abbrev incr_rounds : ℕ → Text → Run S Bool
    incr_rounds zero path = pure true
    incr_rounds (suc n) path = do
      r ←
          call service (codes "POST") (path ++ codes "/incr") [] (some (codes "{\"by\":1}")) none
            (some (codes "application/json"))
      expect (r.status == 200) (incr_rounds n path)

    abbrev is_number : ℕ → Option ℕ → Bool
    is_number n none = false
    is_number n (some m) = m == n

    -- 7. Atomic increment
    unfoldable pub test_counter : Run S Bool
    test_counter = do
      let path = kv_path bucket (key_of suffix (codes "counter"))
      counted ← incr_rounds 5 path
      expect counted
          (do final ← get service path []; pure (is_number 5 (reader.parse_int final.body)))

    abbrev session_path : Text → Text
    session_path u =
        codes "/nats/v1/kv/"
        ++ (encode_uri_component bucket
            ++ (codes "/users." ++ (u ++ (codes "." ++ (suffix ++ codes ".session")))))

    abbrev put_users : List Text → Run S Bool
    put_users [] = pure true
    put_users (u ∷ us) = do
      r ← put service (session_path u) u
      expect (r.status == 200) (put_users us)

    -- 8. Wildcard query
    unfoldable pub test_keys : Run S Bool
    test_keys = do
      written ← put_users (codes "alice" ∷ codes "bob" ∷ codes "carol" ∷ [])
      expect written (do
        q ←
            get service (codes "/nats/v1/kv/" ++ (encode_uri_component bucket ++ codes "/keys"))
              (codes "match=users.*." ++ (suffix ++ codes ".session"))
        expect (q.status == 200) (do found ← parsed (reader.keys q.body); pure (not (ltb found 3))))

    abbrev at_most : ℕ → Option ℕ → Bool
    at_most n none = false
    at_most n (some m) = not (ltb n m)

    -- 9. Reads served nearby
    unfoldable pub test_local : Run S Bool
    test_local = do
      let path = kv_path bucket (key_of suffix (codes "local"))
      _ ← put service path (codes "local-test")
      r ← get service path []
      pure (same r.adapter_ms (codes "0") || at_most 5 (reader.parse_int r.adapter_ms))

    abbrev is_among : List Text → Bool
    is_among [] = false
    is_among (b ∷ bs) = same b bucket || is_among bs

    -- 10. The bucket is listed
    unfoldable pub test_listed : Run S Bool
    test_listed = do
      r ← get service (codes "/nats/v1/admin/buckets") []
      expect (r.status == 200) (do names ← parsed (reader.buckets r.body); pure (is_among names))

    unfoldable pub tests : List (Text × Run S Bool)
    tests =
        (codes "1. PUT then GET (basic write/read round-trip)", test_roundtrip)
        ∷ (codes "2. DELETE then GET returns 404", test_delete)
        ∷ (codes "3. Revision history (3 PUTs, GET history returns ≥3 revisions)", test_history)
        ∷ (codes "4. Read specific revision (?revision=1 returns first value)", test_revision)
        ∷ (codes "5. CAS write succeeds with correct If-Match", test_cas_ok)
        ∷ (codes "6. CAS write rejects stale If-Match (returns 412)", test_cas_fail)
        ∷ (codes "7. Atomic increment (5× incr by 1, value === 5)", test_counter)
        ∷ (codes "8. Subject-pattern wildcard query returns all matching keys", test_keys)
        ∷ (codes "9. Reads served from local-mirror (X-Read-Source header)", test_local)
        ∷ (codes "10. Bucket appears in /v1/admin/buckets listing", test_listed)
        ∷ []

-- The counts and the results of `runVerify`.
pub record Outcome : Type 0 where
  pub passed : ℕ
  pub failed : ℕ
  pub results : List (Text × Bool)

-- An exception is a failure: `catch (e) { ok = false; … }`.
abbrev pub is_ok : Option Bool → Bool
is_ok none = false
is_ok (some ok) = ok

-- `if (ok) passed++; else failed++;` and `results.push(…)`
unfoldable pub note_result : Text → Bool → Outcome → Outcome
note_result name true o = record o {
  passed = suc o.passed;
  results = o.results ++ (name, true) ∷ [];
}
note_result name false o = record o {
  failed = suc o.failed;
  results = o.results ++ (name, false) ∷ [];
}

-- `for (let i = 0; i < TESTS.length; i++)`
unfoldable pub run_tests : {S : Type 0} → List (Text × Run S Bool) → Outcome → S → Outcome × S
unfolding note_result
run_tests [] o s = (o, s)
run_tests ((name, test) ∷ ts) o s =
    let (r, s') = test s in run_tests ts (note_result name (is_ok r) o) s'

-- The class of the summary.
unfoldable pub summary_class : Outcome → Text
summary_class o = if o.failed == 0 then codes "pass" else codes "fail"

-- `runVerify`, for a bucket that was picked
unfoldable pub run_verify : {S : Type 0} → Service S → Reader → Text → Text → S → Outcome × S
unfolding run_tests tests
run_verify service reader bucket suffix s =
    run_tests (tests service reader bucket suffix) (record { passed = 0; failed = 0; results = [] })
      s
