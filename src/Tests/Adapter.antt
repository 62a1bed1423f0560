-- ===== src/Tests/Adapter.antt =====
-- A host whose adapter keeps keys and revisions in memory: its state is what was asked of it. It
-- keeps what the verify page relies on.
use nats_kv.Prelude.{
  ℕ, suc, zero, ◌%◌, ltb, ◌≡◌, refl, subst, ap, ◌∙◌, ◌≢◌, Bool, true, false, ◌||◌, Option, none,
  some, List, [], ◌∷◌, ◌++◌, map, arith, length, ◌==◌, if◌then◌else◌, Bool-cases, Option-cases, inl,
  inr, All,
}
use nats_kv.Text.{Text, codes, same}
use nats_kv.Text.Laws.{same→eq, same_refl}
use nats_kv.Text.Split.{Lacks}
use nats_kv.Base64.Groups.{IsByte}
use nats_kv.Spin.{
  Method, get, put, delete, OutRequest, Upstream, Result, ok, err, sent, opened, read, wrote,
  removed, Trace, Host, find_header,
}
use nats_kv.UserApp.Outbound.{location, stated, typed}
use nats_kv.UserApp.Proxy.Answers.{IsPlainTold}
use nats_kv.Pages.Uri.{encode_uri_component, utf8, is_unreserved}
use nats_kv.Pages.Uri.Laws.{encode_uri_component-Lacks_mark}
use nats_kv.Pages.Verify.{Call, Reply, Reader, kv_path}
use nats_kv.Pages.Verify.Conforming.{IsDigit, IsAscii, IsStore}
use nats_kv.Pages.Verify.Through.{verbs, verb_in, utf8_bytes, body_bytes, adapter_request, direct}
use nats_kv.Pages.Verify.Through.Transparent.{IsWellFormed}

-- The last revision and value of each address, and the values of the addresses of revisions.
abbrev pub Memory : Type 0
Memory = (Text → Option (ℕ × Text)) × (Text → Option Text)

abbrev pub empty : Memory
empty = ((λ _. none), (λ _. none))

-- A revision is written in ones.
abbrev pub ones : ℕ → Text
ones zero = []
ones (suc n) = b'1' ∷ ones n

abbrev next_revision : Option (ℕ × Text) → ℕ
next_revision none = 1
next_revision (some (n, _)) = suc n

abbrev revision_address : Text → ℕ → Text
revision_address a n = a ++ (codes "?revision=" ++ ones n)

abbrev write : Memory → Text → Text → (ℕ × Text) × Memory
write m a v =
    let n = next_revision (m.0 a) in
    (
      (200, ones n),
      (
        (λ p. if same p a then some (n, v) else m.0 p),
        (λ p. if same p (revision_address a n) then some v else m.1 p),
      ),
    )

abbrev write_if : Memory → Text → Text → Text → Option (ℕ × Text) → (ℕ × Text) × Memory
write_if m a v cond none = ((412, []), m)
write_if m a v cond (some (n, _)) = if same cond (ones n) then write m a v else ((412, []), m)

abbrev put_call : Memory → Text → Text → Option Text → (ℕ × Text) × Memory
put_call m a v none = write m a v
put_call m a v (some cond) = write_if m a v cond (m.0 a)

abbrev found : Memory → Option Text → (ℕ × Text) × Memory
found m none = ((404, []), m)
found m (some v) = ((200, v), m)

abbrev value_of : Option (ℕ × Text) → Option Text
value_of none = none
value_of (some (_, v)) = some v

abbrev marked : Text → Bool
marked [] = false
marked (c ∷ s) = c == b'?' || marked s

abbrev respond : Memory → Method → Text → Text → Option Text → (ℕ × Text) × Memory
respond m put a v cond = put_call m a v cond
respond m delete a v cond = ((204, []), ((λ p. if same p a then none else m.0 p), m.1))
respond m method a v cond = if marked a then found m (m.1 a) else found m (value_of (m.0 a))

abbrev act : Memory → OutRequest → (ℕ × Text) × Memory
act m r = respond m r.method r.uri r.body (find_header (codes "If-Match") r.headers)

abbrev replay : Trace → Memory
replay [] = empty
replay (sent r ∷ t) = (act (replay t) r).1
replay (opened ∷ t) = replay t
replay (read k ∷ t) = replay t
replay (wrote k v ∷ t) = replay t
replay (removed k ∷ t) = replay t

abbrev in_bytes : Text → List ℕ
in_bytes v = map (λ c. c % 256) v

abbrev upstream_of : ℕ × Text → Upstream
upstream_of (status, v) = record { status = status; headers = []; body = in_bytes v }

abbrev pub adapter : Host
adapter = record {
  variable = λ _. none;
  send = λ t r. ok (upstream_of (act (replay t) r).0);
  elapsed_us = λ _. 42;
  store_open = λ _. ok tt;
  store_get = λ _ _. ok none;
  store_set = λ _ _ _. ok tt;
  store_delete = λ _ _. ok tt;
}

-- A reader for this adapter, whose bodies are its revisions.
abbrev pub reader : Reader
reader = record {
  revision = λ body. some body;
  history = λ _. some 0;
  keys = λ _. some 0;
  buckets = λ _. none;
  parse_int = λ _. none;
}

in_bytes-IsByte : (v : Text) → All IsByte (in_bytes v)
in_bytes-IsByte [] = tt
in_bytes-IsByte (c ∷ v) = (omega arith, in_bytes-IsByte v)

abbrev upstream_in : Result Upstream → Upstream
upstream_in (ok up) = up
upstream_in (err e) = upstream_of (0, [])

abbrev IsSound : Upstream → Type 0
IsSound up = IsPlainTold up.headers × All IsByte up.body

pub adapter-IsWellFormed : IsWellFormed adapter
adapter-IsWellFormed t r up e =
    subst IsSound (ap upstream_in e)
      (let body = in_bytes-IsByte (act (replay t) r).0.1 in ((tt, tt, tt), body))

-- What the adapter does with a call of the page.
abbrev upshot : Trace → Call → Text → (ℕ × Text) × Memory
upshot t c rest =
    respond (replay t) (verb_in verbs c.method)
      (codes "http://edge.nats-kv.connected-cloud.io:8080/" ++ location rest c.query)
      (body_bytes c.body) c.if_match

abbrev a_reply : ℕ × Text → Reply
a_reply (status, v) = record { status = status; adapter_ms = []; body = in_bytes v }

-- The condition of the adapter's request.
condition_lem :
    (if_match : Option Text) (body : List ℕ) (v : Text)
    → find_header (codes "If-Match") (stated (codes "If-Match") if_match ++ typed body v) ≡ if_match
unfolding find_header same
condition_lem none [] v = refl
condition_lem none (b ∷ body) v = refl
condition_lem (some cond) body v = refl

act_lem :
    (t : Trace) (c : Call) (rest : Text)
    → c.path ≡ codes "/nats/" ++ rest
    → act (replay t) (adapter_request [] c) ≡ upshot t c rest
unfolding adapter_request find_header same
act_lem t c rest path = rw path (
    ap
      (respond (replay t) (verb_in verbs c.method)
        (codes "http://edge.nats-kv.connected-cloud.io:8080/" ++ location rest c.query)
        (body_bytes c.body))
      (condition_lem c.if_match (body_bytes c.body) _))

direct_lem :
    (t : Trace) (c : Call) (rest : Text)
    → c.path ≡ codes "/nats/" ++ rest
    → ((direct [] adapter).answer t c
        ≡ (some (a_reply (upshot t c rest).0), sent (adapter_request [] c) ∷ t))
      × (replay (sent (adapter_request [] c) ∷ t) ≡ (upshot t c rest).1)
unfolding direct
direct_lem t c rest path = let e = act_lem t c rest path in (rw e refl, ap (λ o. o.1) e)

abbrev address : Text → Text
address k =
    codes "http://edge.nats-kv.connected-cloud.io:8080/v1/kv/demo/" ++ encode_uri_component k

-- Facts on texts.
in_bytes-ones : (n : ℕ) → in_bytes (ones n) ≡ ones n
in_bytes-ones zero = refl
in_bytes-ones (suc n) = rw (in_bytes-ones n) refl

ones-IsDigit : (n : ℕ) → All IsDigit (ones n)
ones-IsDigit zero = tt
ones-IsDigit (suc n) = ((omega arith, omega arith), ones-IsDigit n)

length-ones : (n : ℕ) → length (ones n) ≡ n
length-ones zero = refl
length-ones (suc n) = ap suc (length-ones n)

in_bytes-utf8_bytes : (v : Text) → All IsAscii v → in_bytes (utf8_bytes v) ≡ v
unfolding utf8
in_bytes-utf8_bytes [] h = refl
in_bytes-utf8_bytes (c ∷ v) (p, h) =
    let q = in_bytes-utf8_bytes v h in
    let small : ltb c 0x80 ≡ true = ground arith in rw (small, q) (ap (λ x. x ∷ v) (omega arith))

differ : (s t : Text) → s ≢ t → same s t ≡ false
differ s t h = elim (Bool-cases (same s t)) [ inl e ↦ absurd (h (same→eq s t e)) | inr e ↦ e ]

marked-Lacks : (s : Text) → Lacks b'?' s → marked s ≡ false
marked-Lacks [] h = refl
marked-Lacks (c ∷ s) (q, h) = let r = marked-Lacks s h in ground arith

marked-append : (s t : Text) → marked (s ++ b'?' ∷ t) ≡ true
marked-append [] t = refl
marked-append (c ∷ s) t = let r = marked-append s t in ground arith

append-cancel : (a s t : Text) → a ++ s ≡ a ++ t → s ≡ t
append-cancel [] s t e = e
append-cancel (c ∷ a) s t e = append-cancel a s t cc

-- The cell of a key, and the value of one of its revisions.
abbrev shown : Option (ℕ × Text) → Option (Text × Text)
shown none = none
shown (some (n, v)) = some (ones n, in_bytes v)

abbrev shown_text : Option Text → Option Text
shown_text none = none
shown_text (some v) = some (in_bytes v)

abbrev cell_in : Memory → Text → Option (Text × Text)
cell_in m k = shown (m.0 (address k))

abbrev old_in : Memory → Text → Text → Option Text
old_in m k rev = shown_text (m.1 (address k ++ (codes "?revision=" ++ rev)))

cell_in-cases :
    (m : Memory) (k q w : Text)
    → cell_in m k ≡ some (q, w)
    → (n : ℕ) × (v : Text) × (m.0 (address k) ≡ some (n, v)) × (ones n ≡ q) × (in_bytes v ≡ w)
cell_in-cases m k q w h = elim (Option-cases (m.0 (address k))) [
  | inl e ↦ let p = rw e at h in cc
  | inr ((n, v), e) ↦ let p = rw e at h in (n, v, e, cc, cc)
]

ones-differ : (n : ℕ) → ones n ≢ ones (suc n)
ones-differ n e = let p = length-ones n in let l = ap length e in omega arith

fresh :
    (m : Memory) (k v q w : Text)
    → cell_in m k ≡ some (q, w)
    → (q ≢ ones (next_revision (m.0 (address k))))
      × (old_in (write m (address k) (utf8_bytes v)).1 k q ≡ old_in m k q)
fresh m k v q w held =
    let (n, x, e, shows, _) = cell_in-cases m k q w held in
    let new = ones (next_revision (m.0 (address k))) in
    let differs : q ≢ new = rw e (subst (λ z. z ≢ ones (suc n)) shows (ones-differ n)) in
    let apart =
      differ (address k ++ (codes "?revision=" ++ q)) (address k ++ (codes "?revision=" ++ new))
        (λ same_address. differs (
          append-cancel (codes "?revision=") q new (append-cancel (address k) _ _ same_address))) in
    (differs, rw apart refl)

written :
    (m : Memory) (k v : Text)
    → All IsAscii v
    → (cell_in (write m (address k) (utf8_bytes v)).1 k
        ≡ some (ones (next_revision (m.0 (address k))), v))
      × (old_in (write m (address k) (utf8_bytes v)).1 k (ones (next_revision (m.0 (address k))))
          ≡ some v)
      × ((q w : Text)
          → cell_in m k ≡ some (q, w)
          → (q ≢ ones (next_revision (m.0 (address k))))
            × (old_in (write m (address k) (utf8_bytes v)).1 k q ≡ old_in m k q))
written m k v h =
    let e = in_bytes-utf8_bytes v h in
    (
      rw (same_refl (address k), e) refl,
      rw (same_refl (revision_address (address k) (next_revision (m.0 (address k)))), e) refl,
      fresh m k v,
    )

-- What the calls on a key give.
accepted :
    (m : Memory) (k v q w : Text)
    → cell_in m k ≡ some (q, w)
    → (put_call m (address k) v (some q)).0.0 ≡ 200
accepted m k v q w held =
    let (n, x, e, shows, _) = cell_in-cases m k q w held in
    let hit : same q (ones n) ≡ true =
      subst (λ z. same z (ones n) ≡ true) shows (same_refl (ones n)) in
    rw (e, hit) refl

refused :
    (m : Memory) (k v q rev w : Text)
    → cell_in m k ≡ some (q, w)
    → rev ≢ q
    → (put_call m (address k) v (some rev)).0.0 ≡ 412
refused m k v q rev w held stale =
    let (n, x, e, shows, _) = cell_in-cases m k q w held in
    let miss : same rev (ones n) ≡ false = differ rev (ones n) (λ h. stale (h ∙ shows)) in
    rw (e, miss) refl

unmarked : (k : Text) → marked (encode_uri_component k) ≡ false
unmarked k = marked-Lacks _ (encode_uri_component-Lacks_mark k)

got :
    (m : Memory) (k q w : Text)
    → cell_in m k ≡ some (q, w)
    → ((respond m get (address k) [] none).0.0 ≡ 200)
      × (in_bytes (respond m get (address k) [] none).0.1 ≡ w)
got m k q w held =
    let (n, x, e, _, shows) = cell_in-cases m k q w held in rw (unmarked k, e) (refl, shows)

missed :
    (m : Memory) (k : Text) → cell_in m k ≡ none → (respond m get (address k) [] none).0.0 ≡ 404
missed m k held = elim (Option-cases (m.0 (address k))) [
  | inl e ↦ rw (unmarked k, e) refl
  | inr ((n, v), e) ↦ let p = rw e at held in cc
]

recalled :
    (m : Memory) (k rev w : Text)
    → old_in m k rev ≡ some w
    → ((respond m get (address k ++ (codes "?revision=" ++ rev)) [] none).0.0 ≡ 200)
      × (in_bytes (respond m get (address k ++ (codes "?revision=" ++ rev)) [] none).0.1 ≡ w)
recalled m k rev w held =
    let mark = marked-append (encode_uri_component k) (codes "revision=" ++ rev) in
    elim (Option-cases (m.1 (address k ++ (codes "?revision=" ++ rev)))) [
      | inl e ↦ let p = rw e at held in cc
      | inr (v, e) ↦ let p = rw e at held in rw (mark, e) (refl, cc)
    ]

deleted : (m : Memory) (k : Text) → cell_in (respond m delete (address k) [] none).1 k ≡ none
deleted m k = rw (same_refl (address k)) refl

abbrev state : Trace → Call → Trace
state t c = sent (adapter_request [] c) ∷ t

abbrev call_of : Text → Text → Text → Option Text → Option Text → Call
call_of method k query body if_match = record {
  method = method;
  path = kv_path (codes "demo") k;
  query = query;
  body = body;
  if_match = if_match;
  content_type = none;
}

module _ (t : Trace) (k : Text) where
  abbrev rest : Text
  rest = codes "v1/kv/demo/" ++ encode_uri_component k

  ran :
      (method query : Text) (body if_match : Option Text)
      → ((direct [] adapter).answer t (call_of method k query body if_match) ≡ (
        some (a_reply (upshot t (call_of method k query body if_match) rest).0),
        state t (call_of method k query body if_match),
      ))
        × (replay (state t (call_of method k query body if_match))
            ≡ (upshot t (call_of method k query body if_match) rest).1)
  unfolding kv_path encode_uri_component is_unreserved
  ran method query body if_match = direct_lem t (call_of method k query body if_match) rest refl

pub adapter-IsStore : IsStore (direct [] adapter) reader (codes "demo")
unfolding same
adapter-IsStore = record {
  cell = λ t k. cell_in (replay t) k;
  old = λ t k rev. old_in (replay t) k rev;
  puts = λ t k v h.
      let (runs, leads) = ran t k (codes "PUT") [] (some v) none in
      let (held, kept, others) = written (replay t) k v h in
      record {
        reply = _;
        next = _;
        runs = runs;
        good = refl;
        leads = (
          ones (next_revision ((replay t).0 (address k))),
          ap some (in_bytes-ones (next_revision ((replay t).0 (address k)))),
          ones-IsDigit (next_revision ((replay t).0 (address k))),
          ap (λ m. cell_in m k) leads ∙ held,
          ap (λ m. old_in m k (ones (next_revision ((replay t).0 (address k))))) leads ∙ kept,
          λ q w before.
              let (differs, still) = others q w before in
              (differs, ap (λ m. old_in m k q) leads ∙ still),
        );
      };
  matches = λ t k v q w held. record {
    reply = _;
    next = _;
    runs = (ran t k (codes "PUT") [] (some v) (some q)).0;
    good = accepted (replay t) k (utf8_bytes v) q w held;
    leads = tt;
  };
  refuses = λ t k v q rev w held stale. record {
    reply = _;
    next = _;
    runs = (ran t k (codes "PUT") [] (some v) (some rev)).0;
    good = refused (replay t) k (utf8_bytes v) q rev w held stale;
    leads = tt;
  };
  gets = λ t k q v held. record {
    reply = _;
    next = _;
    runs = (ran t k (codes "GET") [] none none).0;
    good = got (replay t) k q v held;
    leads = tt;
  };
  misses = λ t k held. record {
    reply = _;
    next = _;
    runs = (ran t k (codes "GET") [] none none).0;
    good = missed (replay t) k held;
    leads = tt;
  };
  recalls = λ t k rev v _ held. record {
    reply = _;
    next = _;
    runs = (ran t k (codes "GET") (codes "revision=" ++ rev) none none).0;
    good = recalled (replay t) k rev v held;
    leads = tt;
  };
  deletes = λ t k.
      let (runs, leads) = ran t k (codes "DELETE") [] none none in
      record {
        reply = _;
        next = _;
        runs = runs;
        good = inr refl;
        leads = ap (λ m. cell_in m k) leads ∙ deleted (replay t) k;
      };
}
