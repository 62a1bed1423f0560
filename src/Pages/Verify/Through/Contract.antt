-- ===== src/Pages/Verify/Through/Contract.antt =====
-- The application passes on what the adapter promises, so that the page's tests of a conforming
-- adapter pass through it.
use nats_kv.Prelude.{
  ℕ, ◌≡◌, ◌≢◌, refl, ◌∙◌, true, false, some, [], ◌∷◌, ◌++◌, All, All-append, arith,
}
use nats_kv.Text.{Text, codes, starts_with, contains}
use nats_kv.Text.Split.{Lacks}
use nats_kv.Spin.{Trace, Host}
use nats_kv.UserApp.Config.{Assets}
use nats_kv.Pages.Verify.{Call, Reply, Reader, kv_path}
use nats_kv.Pages.Verify.Suite.{
  test_roundtrip, test_delete, test_revision, test_cas_ok, test_cas_fail,
}
use nats_kv.Pages.Verify.Conforming.{IsDigit, Answers, IsStore, conforming_passes}
use nats_kv.Pages.Verify.Through.{through, direct}
use nats_kv.Pages.Verify.Through.Transparent.{IsWellFormed, IsAdmitted, transparent}

contains-Lacks : (c : ℕ) (p s : Text) → Lacks c s → contains (c ∷ p) s ≡ false
unfolding contains starts_with
contains-Lacks c p [] h = refl
contains-Lacks c p (d ∷ s) (q, h) = let r = contains-Lacks c p s h in ground arith

digits-Lacks : (s : Text) → All IsDigit s → Lacks b'a' s
digits-Lacks [] h = tt
digits-Lacks (c ∷ s) ((p, q), h) = (λ e. omega arith, digits-Lacks s h)

no_access :
    (rev : Text) → All IsDigit rev → contains (codes "access=") (codes "revision=" ++ rev) ≡ false
no_access rev h =
    contains-Lacks b'a' (codes "ccess=") (codes "revision=" ++ rev)
      (All-append (λ c. c ≢ b'a') (codes "revision=") rev (ground arith) (digits-Lacks rev h))

module _ (cookie key : Text) (host : Host) (assets : Assets) (admitted : IsAdmitted cookie key host)
    (well_formed : IsWellFormed host) (reader : Reader) where
  carry :
      {P : Reply → Type 0} {Q : Reply → Trace → Type 0} (t : Trace) (c : Call) (rest : Text)
      → c.path ≡ codes "/nats/" ++ rest
      → contains (codes "access=") c.query ≡ false
      → Answers (direct key host) reader (λ u. (direct key host).answer u c) t P Q
      → Answers
          (through cookie key host assets)
          reader
          (λ u. (through cookie key host assets).answer u c)
          t
          P
          Q
  carry t c rest path query a = record {
    reply = a.reply;
    next = a.next;
    runs = transparent cookie key host assets admitted well_formed t c rest path query ∙ a.runs;
    good = a.good;
    leads = a.leads;
  }

  module _ (bucket : Text) where
    through-IsStore :
        IsStore (direct key host) reader bucket
        → IsStore (through cookie key host assets) reader bucket
    unfolding kv_path contains starts_with
    through-IsStore store = record {
      cell = store.cell;
      old = store.old;
      puts = λ t k v a. carry t _ _ refl refl (store.puts t k v a);
      matches = λ t k v q w h. carry t _ _ refl refl (store.matches t k v q w h);
      refuses = λ t k v q r w h n. carry t _ _ refl refl (store.refuses t k v q r w h n);
      gets = λ t k q v h. carry t _ _ refl refl (store.gets t k q v h);
      misses = λ t k h. carry t _ _ refl refl (store.misses t k h);
      recalls = λ t k rev v d h. carry t _ _ refl (no_access rev d) (store.recalls t k rev v d h);
      deletes = λ t k. carry t _ _ refl refl (store.deletes t k);
    }

    -- If the adapter keeps what it promises of each key of a bucket, asked directly, then the page's
    -- tests 1, 2, 4, 5 and 6 pass through the application, from every state of the adapter and for
    -- every suffix: the gate, the forwarding of the conditions and of the query, the envelope and
    -- its base64 lose nothing. The cookie opens the gate, and the adapter answers with bytes and
    -- with headers that need no escape in JSON.
    pub through_passes :
        IsStore (direct key host) reader bucket
        → (suffix : Text) (t : Trace)
        → ((test_roundtrip (through cookie key host assets) reader bucket suffix t).0 ≡ some true)
          × ((test_delete (through cookie key host assets) reader bucket suffix t).0 ≡ some true)
          × ((test_revision (through cookie key host assets) reader bucket suffix t).0 ≡ some true)
          × ((test_cas_ok (through cookie key host assets) reader bucket suffix t).0 ≡ some true)
          × ((test_cas_fail (through cookie key host assets) reader bucket suffix t).0 ≡ some true)
    through_passes store =
        conforming_passes (through cookie key host assets) reader bucket (through-IsStore store)
