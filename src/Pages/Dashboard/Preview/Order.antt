-- ===== src/Pages/Dashboard/Preview/Order.antt =====
-- Which preview of the dashboard's page is shown, in whatever order the answers come.
use nats_kv.Prelude.{
  ℕ, suc, ◌+◌, ◌≤◌, ◌≡◌, ◌==◌, refl, ap, subst, Bool, true, false, Bool-cases, inl, inr, Option,
  none, some, List, [], ◌∷◌, ◌++◌, All, arith, if◌then◌else◌,
}
use nats_kv.Text.{Text, codes, same}
use nats_kv.Text.Laws.{same→eq}
use nats_kv.Browser.{Reply, Browser}
use nats_kv.Pages.Dashboard.Preview.{
  Form, Call, awaiting, reading, Preview, refresh, on_geo_change, on_error, on_response, on_body,
  outcome_text, show_outcome, without, Answer, responds, reads, Run, loaded, asks, refreshes,
  answers,
}

abbrev pub number : Call → ℕ
number (awaiting n) = n
number (reading n r) = n

-- How many of the calls are of preview `n`.
abbrev pub in_flight : ℕ → List Call → ℕ
in_flight n [] = 0
in_flight n (c ∷ cs) = (if number c == n then 1 else 0) + in_flight n cs

abbrev pub bit : Bool → ℕ
bit true = 1
bit false = 0

in_flight-append :
    (n : ℕ) (cs ds : List Call) → in_flight n (cs ++ ds) ≡ in_flight n cs + in_flight n ds
in_flight-append n [] ds = omega arith
in_flight-append n (c ∷ cs) ds = omega (arith, in_flight-append n cs ds)

-- A call that is taken out of the middle.
in_flight-without :
    (n : ℕ) (before after : List Call) (c : Call)
    → in_flight n (before ++ c ∷ after)
      ≡ (if number c == n then 1 else 0) + in_flight n (before ++ after)
in_flight-without n before after c =
    omega (arith, in_flight-append n before (c ∷ after), in_flight-append n before after)

All-without :
    (P : Call → Type 0) (before after : List Call) (c : Call)
    → All P (before ++ c ∷ after)
    → P c × All P (before ++ after)
All-without P [] after c (p, ps) = (p, ps)
All-without P (b ∷ before) after c (p, ps) =
    let (q, qs) = All-without P before after c ps in (q, (p, qs))

All-map : (P Q : Call → Type 0) (cs : List Call) → ((c : Call) → P c → Q c) → All P cs → All Q cs
All-map P Q [] f h = tt
All-map P Q (c ∷ cs) f (p, ps) = (f c p, All-map P Q cs f ps)

abbrev pub IsOld : ℕ → Call → Type 0
IsOld n c = number c ≤ n

-- No preview is shown or in flight that was not asked for.
pub record IsSound (p : Preview) : Type 0 where
  pub old : All (IsOld p.seq) p.waiting
  pub author_old : p.author ≤ p.seq

-- The page shows what the newest preview wrote, and its result exactly when it is not in flight.
pub record IsCurrent (p : Preview) : Type 0 where
  pub newest : p.author ≡ p.seq
  pub answered : in_flight p.seq p.waiting + bit p.settled ≡ 1

-- No call waits for the body of its response.
abbrev pub IsAwaiting : Call → Type 0
IsAwaiting (awaiting n) = Unit
IsAwaiting (reading n r) = ⊥

-- Whenever a preview is asked for, no body is being read.
abbrev pub IsCalm : Form → Preview → Type 0
IsCalm form p = form.geo ≡ codes "auto" → All IsAwaiting p.waiting

abbrev pub IsOrderly : {browser : Browser} {p : Preview} → Run browser p → Type 0
IsOrderly loaded = Unit
IsOrderly (asks {p} form r) = IsOrderly r × IsCalm form p
IsOrderly (refreshes {p} form r) = IsOrderly r × IsCalm form p
IsOrderly (answers r a) = IsOrderly r

-- Only the newest preview reads a body.
abbrev IsFresh : ℕ → Call → Type 0
IsFresh seq (awaiting n) = Unit
IsFresh seq (reading n r) = n ≡ seq

IsAwaiting-IsFresh : (seq : ℕ) (c : Call) → IsAwaiting c → IsFresh seq c
IsAwaiting-IsFresh seq (awaiting n) h = tt
IsAwaiting-IsFresh seq (reading n r) h = elim h [ ]

refresh-IsFresh :
    (form : Form) (p : Preview)
    → IsCalm form p
    → All (IsFresh p.seq) p.waiting
    → All (IsFresh (refresh form p).seq) (refresh form p).waiting
unfolding refresh
refresh-IsFresh form p calm h = elim (Bool-cases (same form.geo (codes "auto"))) [
  | inl auto ↦ rw auto (
    tt,
    All-map IsAwaiting (IsFresh (suc p.seq)) p.waiting (IsAwaiting-IsFresh (suc p.seq))
        (calm (same→eq form.geo (codes "auto") auto)),
  )
  | inr other ↦ rw other h
]

on_error-IsFresh :
    (n : ℕ) (message : Text) (p : Preview)
    → All (IsFresh p.seq) p.waiting
    → All (IsFresh (on_error n message p).seq) (on_error n message p).waiting
unfolding on_error
on_error-IsFresh n message p h = elim (Bool-cases (n == p.seq)) [
  | inl same ↦ rw same h
  | inr other ↦ rw other h
]

on_response-IsFresh :
    (n : ℕ) (message : Text) (r : Option Reply) (p : Preview)
    → All (IsFresh p.seq) p.waiting
    → All (IsFresh (on_response n message r p).seq) (on_response n message r p).waiting
unfolding on_response
on_response-IsFresh n message none p h = on_error-IsFresh n message p h
on_response-IsFresh n message (some r) p h = elim (Bool-cases (n == p.seq)) [
  | inl same ↦ rw same (ground arith, h)
  | inr other ↦ rw other h
]

show_outcome-IsFresh :
    (n : ℕ) (message : Text) (o : Option Text) (p : Preview)
    → All (IsFresh p.seq) p.waiting
    → All (IsFresh (show_outcome n message o p).seq) (show_outcome n message o p).waiting
show_outcome-IsFresh n message none p h = on_error-IsFresh n message p h
show_outcome-IsFresh n message (some text) p h = h

none_in_flight : (n : ℕ) (cs : List Call) → All (IsOld n) cs → in_flight (suc n) cs ≡ 0
none_in_flight n [] h = refl
none_in_flight n (c ∷ cs) (h, hs) = ground (arith, none_in_flight n cs hs)

refresh-IsSound : (form : Form) (p : Preview) → IsSound p → IsSound (refresh form p)
unfolding refresh
refresh-IsSound form p h = elim (Bool-cases (same form.geo (codes "auto"))) [
  | inl auto ↦ rw auto (record {
    old = (
      omega arith,
      All-map (IsOld p.seq) (IsOld (suc p.seq)) p.waiting (λ c k. omega arith) h.old,
    );
    author_old = omega arith;
  })
  | inr other ↦ rw other (record { old = h.old; author_old = h.author_old })
]

refresh-IsCurrent :
    (form : Form) (p : Preview) → IsSound p → IsCurrent p → IsCurrent (refresh form p)
unfolding refresh
refresh-IsCurrent form p s h = elim (Bool-cases (same form.geo (codes "auto"))) [
  | inl auto ↦
      rw auto
        (record { newest = refl; answered = ground (arith, none_in_flight p.seq p.waiting s.old) })
  | inr other ↦ rw other (record { newest = h.newest; answered = h.answered })
]

-- A page on which a call of preview `n` has just been taken up.
abbrev IsTaken : ℕ → Preview → Type 0
IsTaken n p =
    (p.author ≡ p.seq)
    × ((if n == p.seq then 1 else 0) + (in_flight p.seq p.waiting + bit p.settled) ≡ 1)

on_error-IsSound :
    (n : ℕ) (message : Text) (p : Preview) → n ≤ p.seq → IsSound p → IsSound (on_error n message p)
unfolding on_error
on_error-IsSound n message p k h = elim (Bool-cases (n == p.seq)) [
  | inl same ↦ rw same (record { old = h.old; author_old = k })
  | inr other ↦ rw other h
]

on_error-IsCurrent :
    (n : ℕ) (message : Text) (p : Preview) → IsTaken n p → IsCurrent (on_error n message p)
unfolding on_error
on_error-IsCurrent n message p (newest, one) = elim (Bool-cases (n == p.seq)) [
  | inl same ↦ rw same (record { newest = ground arith; answered = ground arith })
  | inr other ↦ rw other (record { newest = newest; answered = ground arith })
]

on_response-IsSound :
    (n : ℕ) (message : Text) (r : Option Reply) (p : Preview)
    → n ≤ p.seq
    → IsSound p
    → IsSound (on_response n message r p)
unfolding on_response
on_response-IsSound n message none p k h = on_error-IsSound n message p k h
on_response-IsSound n message (some r) p k h = elim (Bool-cases (n == p.seq)) [
  | inl same ↦ rw same (record { old = (k, h.old); author_old = h.author_old })
  | inr other ↦ rw other h
]

on_response-IsCurrent :
    (n : ℕ) (message : Text) (r : Option Reply) (p : Preview)
    → IsTaken n p
    → IsCurrent (on_response n message r p)
unfolding on_response
on_response-IsCurrent n message none p h = on_error-IsCurrent n message p h
on_response-IsCurrent n message (some r) p (newest, one) = elim (Bool-cases (n == p.seq)) [
  | inl same ↦ rw same (record { newest = newest; answered = omega arith })
  | inr other ↦ rw other (record { newest = newest; answered = ground arith })
]

show_outcome-IsSound :
    (n : ℕ) (message : Text) (o : Option Text) (p : Preview)
    → n ≤ p.seq
    → IsSound p
    → IsSound (show_outcome n message o p)
show_outcome-IsSound n message none p k h = on_error-IsSound n message p k h
show_outcome-IsSound n message (some text) p k h = record { old = h.old; author_old = k }

show_outcome-IsCurrent :
    (n : ℕ) (message : Text) (o : Option Text) (p : Preview)
    → n ≡ p.seq
    → IsTaken n p
    → IsCurrent (show_outcome n message o p)
show_outcome-IsCurrent n message none p e h = on_error-IsCurrent n message p h
show_outcome-IsCurrent n message (some text) p e (newest, one) = record {
  newest = e;
  answered = ground arith;
}

taken :
    (before after : List Call) (c : Call) (p : Preview)
    → p.waiting ≡ before ++ c ∷ after
    → IsCurrent p
    → IsTaken (number c) (without before after p)
taken before after c p e h =
    (h.newest, omega (arith, in_flight-without p.seq before after c, ap (in_flight p.seq) e))

remaining :
    (before after : List Call) (c : Call) (p : Preview)
    → p.waiting ≡ before ++ c ∷ after
    → IsSound p
    → (number c ≤ p.seq) × IsSound (without before after p)
remaining before after c p e h =
    let (k, ks) = All-without (IsOld p.seq) before after c (subst (All (IsOld p.seq)) e h.old) in
    (k, record { old = ks; author_old = h.author_old })

module _ (browser : Browser) where
  Answer-IsSound : {p q : Preview} → Answer browser p q → IsSound p → IsSound q
  unfolding on_body
  Answer-IsSound {p} (responds before after n message r e) h =
      let (k, s) = remaining before after (awaiting n) p e h in
      on_response-IsSound n message r (without before after p) k s
  Answer-IsSound {p} (reads before after n message r e) h =
      let (k, s) = remaining before after (reading n r) p e h in
      show_outcome-IsSound n message (outcome_text browser r) (without before after p) k s

  Answer-IsFresh :
      {p q : Preview}
      → Answer browser p q
      → All (IsFresh p.seq) p.waiting
      → All (IsFresh q.seq) q.waiting
  unfolding on_body
  Answer-IsFresh {p} (responds before after n message r e) h =
      let (_, rest) =
        All-without (IsFresh p.seq) before after (awaiting n) (subst (All (IsFresh p.seq)) e h) in
      on_response-IsFresh n message r (without before after p) rest
  Answer-IsFresh {p} (reads before after n message r e) h =
      let (_, rest) =
        All-without (IsFresh p.seq) before after (reading n r) (subst (All (IsFresh p.seq)) e h) in
      show_outcome-IsFresh n message (outcome_text browser r) (without before after p) rest

  Answer-IsCurrent :
      {p q : Preview}
      → Answer browser p q
      → All (IsFresh p.seq) p.waiting
      → IsCurrent p
      → IsCurrent q
  unfolding on_body
  Answer-IsCurrent {p} (responds before after n message r e) k h =
      on_response-IsCurrent n message r (without before after p)
        (taken before after (awaiting n) p e h)
  Answer-IsCurrent {p} (reads before after n message r e) k h =
      let (newest, _) =
        All-without (IsFresh p.seq) before after (reading n r) (subst (All (IsFresh p.seq)) e k) in
      show_outcome-IsCurrent n message (outcome_text browser r) (without before after p) newest
        (taken before after (reading n r) p e h)

  -- However the previews and their answers interleave, the page shows only what a preview that
  -- was asked for wrote, and every call in flight is of one.
  pub Run-IsSound : {p : Preview} → Run browser p → IsSound p
  unfolding on_geo_change
  Run-IsSound loaded = record { old = tt; author_old = omega arith }
  Run-IsSound (asks {p} form r) =
      let s = Run-IsSound r in
      refresh-IsSound form (record p { anchor_shown = same form.geo (codes "auto") })
        (record { old = s.old; author_old = s.author_old })
  Run-IsSound (refreshes {p} form r) = refresh-IsSound form p (Run-IsSound r)
  Run-IsSound (answers r a) = Answer-IsSound a (Run-IsSound r)

  Run-IsFresh : {p : Preview} (r : Run browser p) → IsOrderly r → All (IsFresh p.seq) p.waiting
  unfolding on_geo_change
  Run-IsFresh loaded o = tt
  Run-IsFresh (asks {p} form r) (o, calm) =
      refresh-IsFresh form (record p { anchor_shown = same form.geo (codes "auto") }) calm
        (Run-IsFresh r o)
  Run-IsFresh (refreshes {p} form r) (o, calm) = refresh-IsFresh form p calm (Run-IsFresh r o)
  Run-IsFresh (answers r a) o = Answer-IsFresh a (Run-IsFresh r o)

  -- If no preview is asked for while the body of a response is being read, then in whatever order
  -- the responses and the bodies of all the previews come, the page shows what the newest preview
  -- wrote, and its result exactly when none of its calls is in flight.
  pub Run-IsCurrent : {p : Preview} (r : Run browser p) → IsOrderly r → IsCurrent p
  unfolding on_geo_change
  Run-IsCurrent loaded o = record { newest = refl; answered = refl }
  Run-IsCurrent (asks {p} form r) (o, _) =
      let s = Run-IsSound r in
      let h = Run-IsCurrent r o in
      refresh-IsCurrent form (record p { anchor_shown = same form.geo (codes "auto") })
        (record { old = s.old; author_old = s.author_old })
        (record { newest = h.newest; answered = h.answered })
  Run-IsCurrent (refreshes {p} form r) (o, _) =
      refresh-IsCurrent form p (Run-IsSound r) (Run-IsCurrent r o)
  Run-IsCurrent (answers r a) o = Answer-IsCurrent a (Run-IsFresh r o) (Run-IsCurrent r o)
