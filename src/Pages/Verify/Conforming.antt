-- ===== src/Pages/Verify/Conforming.antt =====
-- A service that keeps its promises passes the tests of reading, deleting, old revisions and
-- conditional writes.
use nats_kv.Prelude.{
  arith, ℕ, ◌<◌, ◌≤◌, All, ◌≡◌, ◌⊎◌, inl, inr, refl, ◌∙◌, ◌≢◌, true, Option, none, some, [], ◌++◌,
}
use nats_kv.Text.{Text, codes, same}
use nats_kv.Pages.Verify.{Reply, Service, Reader, Run, kv_path, key_of, put, put_if, get, delete}
use nats_kv.Pages.Verify.Suite.{
  test_roundtrip, test_delete, test_revision, test_cas_ok, test_cas_fail,
}

abbrev pub IsDigit : ℕ → Type 0
IsDigit c = (b'0' ≤ c) × (c ≤ b'9')

abbrev pub IsAscii : ℕ → Type 0
IsAscii c = c < 128

module _ {S : Type 0} (service : Service S) (reader : Reader) where
  -- A call is answered with a reply that has `P`, and leads to a state that has `Q`.
  pub record Answers (m : Run S Reply) (s : S) (P : Reply → Type 0) (Q : Reply → S → Type 0)
      : Type 0 where
    pub reply : Reply
    pub next : S
    pub runs : m s ≡ (some reply, next)
    pub good : P reply
    pub leads : Q reply next

  -- What the adapter promises of the keys of a bucket: a key's cell holds a revision and a value,
  -- and the values of earlier revisions are kept. A revision is a number in decimal. A value that
  -- is not ASCII comes back as the bytes of its UTF-8, so the promise is made of ASCII alone.
  pub record IsStore (bucket : Text) : Type 1 where
    pub cell : S → Text → Option (Text × Text)
    pub old : S → Text → Text → Option Text
    -- A write without a condition succeeds, under a revision that is not the cell's last.
    pub puts :
        (s : S) (k v : Text)
        → All IsAscii v
        → Answers
            (put service (kv_path bucket k) v)
            s
            (λ r. r.status ≡ 200)
            (λ r u.
              (rev : Text) × (reader.revision r.body ≡ some rev)
              × All IsDigit rev
              × (cell u k ≡ some (rev, v))
              × (old u k rev ≡ some v)
              × ((q w : Text) → cell s k ≡ some (q, w) → (q ≢ rev) × (old u k q ≡ old s k q)))
    -- A write with a condition is taken if the condition is the cell's revision, or else refused.
    pub matches :
        (s : S) (k v q w : Text)
        → cell s k ≡ some (q, w)
        → Answers (put_if service (kv_path bucket k) v q) s (λ r. r.status ≡ 200) (λ _ _. Unit)
    pub refuses :
        (s : S) (k v q rev w : Text)
        → cell s k ≡ some (q, w)
        → rev ≢ q
        → Answers (put_if service (kv_path bucket k) v rev) s (λ r. r.status ≡ 412) (λ _ _. Unit)
    pub gets :
        (s : S) (k q v : Text)
        → cell s k ≡ some (q, v)
        → Answers
            (get service (kv_path bucket k) [])
            s
            (λ r. (r.status ≡ 200) × (r.body ≡ v))
            (λ _ _. Unit)
    pub misses :
        (s : S) (k : Text)
        → cell s k ≡ none
        → Answers (get service (kv_path bucket k) []) s (λ r. r.status ≡ 404) (λ _ _. Unit)
    pub recalls :
        (s : S) (k rev v : Text)
        → All IsDigit rev
        → old s k rev ≡ some v
        → Answers
            (get service (kv_path bucket k) (codes "revision=" ++ rev))
            s
            (λ r. (r.status ≡ 200) × (r.body ≡ v))
            (λ _ _. Unit)
    pub deletes :
        (s : S) (k : Text)
        → Answers
            (delete service (kv_path bucket k))
            s
            (λ r. (r.status ≡ 200) ⊎ (r.status ≡ 204))
            (λ _ u. cell u k ≡ none)

  module _ (bucket : Text) (store : IsStore bucket) (suffix : Text) (s : S) where
    roundtrip_passes : (test_roundtrip service reader bucket suffix s).0 ≡ some true
    unfolding test_roundtrip same
    roundtrip_passes =
        let k = key_of suffix (codes "roundtrip") in
        let a = store.puts s k (codes "hello-roundtrip") (ground arith) in
        let (rev, read, digits, held, _, _) = a.leads in
        let b = store.gets a.next k rev (codes "hello-roundtrip") held in
        let (ok, body) = b.good in rw (a.runs, a.good, b.runs, ok, body, read) refl

    delete_passes : (test_delete service reader bucket suffix s).0 ≡ some true
    unfolding test_delete same
    delete_passes =
        let k = key_of suffix (codes "delete") in
        let a = store.puts s k (codes "to-delete") (ground arith) in
        let b = store.deletes a.next k in
        let c = store.misses b.next k b.leads in
        elim b.good [
          | inl good ↦ rw (a.runs, b.runs, good, c.runs, c.good) refl
          | inr good ↦ rw (a.runs, b.runs, good, c.runs, c.good) refl
        ]

    revision_passes : (test_revision service reader bucket suffix s).0 ≡ some true
    unfolding test_revision same
    revision_passes =
        let k = key_of suffix (codes "rev") in
        let a = store.puts s k (codes "first") (ground arith) in
        let (rev, read, digits, held, kept, _) = a.leads in
        let b = store.puts a.next k (codes "second") (ground arith) in
        let (_, _, _, _, _, fresh) = b.leads in
        let (_, still) = fresh rev (codes "first") held in
        let c = store.recalls b.next k rev (codes "first") digits (still ∙ kept) in
        let (ok, body) = c.good in rw (a.runs, a.good, read, b.runs, c.runs, ok, body) refl

    cas_ok_passes : (test_cas_ok service reader bucket suffix s).0 ≡ some true
    unfolding test_cas_ok same
    cas_ok_passes =
        let k = key_of suffix (codes "cas-ok") in
        let a = store.puts s k (codes "v1") (ground arith) in
        let (rev, read, digits, held, _, _) = a.leads in
        let b = store.matches a.next k (codes "v2") rev (codes "v1") held in
        rw (a.runs, a.good, read, b.runs, b.good) refl

    cas_fail_passes : (test_cas_fail service reader bucket suffix s).0 ≡ some true
    unfolding test_cas_fail same
    cas_fail_passes =
        let k = key_of suffix (codes "cas-fail") in
        let a = store.puts s k (codes "v1") (ground arith) in
        let (stale, read, _, held, _, _) = a.leads in
        let b = store.puts a.next k (codes "v2") (ground arith) in
        let (rev, _, _, held2, _, fresh) = b.leads in
        let (differs, _) = fresh stale (codes "v1") held in
        let c = store.refuses b.next k (codes "v3") rev stale (codes "v2") held2 differs in
        rw (a.runs, a.good, read, b.runs, c.runs, c.good) refl

    -- A service that keeps what it promises of a single k (a write gives a new revision, a read
    -- gives the last value or that of a revision, a deleted k is missing, and a write with a
    -- condition is taken exactly if it names the last revision) passes the tests 1, 2, 4, 5 and 6
    -- of the page in every state, for every suffix.
    pub conforming_passes :
        ((test_roundtrip service reader bucket suffix s).0 ≡ some true)
        × ((test_delete service reader bucket suffix s).0 ≡ some true)
        × ((test_revision service reader bucket suffix s).0 ≡ some true)
        × ((test_cas_ok service reader bucket suffix s).0 ≡ some true)
        × ((test_cas_fail service reader bucket suffix s).0 ≡ some true)
    conforming_passes =
        (roundtrip_passes, delete_passes, revision_passes, cas_ok_passes, cas_fail_passes)
