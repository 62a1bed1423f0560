-- ===== src/Pages/Play/Columns/Lockstep.antt =====
-- What the columns of a benchmark have asked and measured, whatever the order of the answers.
use nats_kv.Prelude.{
  ℕ, zero, suc, ◌-◌, ◌<◌, ◌≤◌, ◌≡◌, ◌⊎◌, inl, inr, refl, ap, ◌∙◌, Bool, true, false, Bool-cases,
  Option-cases, Option, none, some, List, [], ◌∷◌, ◌++◌, append-nil, arith, length, length-append,
  ltb, if◌then◌else◌,
}
use nats_kv.Pages.Play.{Backend, nats, cosmos}
use nats_kv.Pages.Play.Columns.{
  Column, Bench, BenchAnswer, idle, column, put_column, next_call, note_times, taken, on_answer,
  start_columns, run_columns,
}

abbrev pub is_backend : Backend → Backend → Bool
is_backend nats nats = true
is_backend cosmos cosmos = true
is_backend _ _ = false

-- The numbers of the calls that a column made
abbrev pub calls_of : Backend → List (Backend × ℕ) → List ℕ
calls_of k [] = []
calls_of k ((x, i) ∷ cs) = let rest = calls_of k cs in if is_backend x k then i ∷ rest else rest

-- The numbers below a limit, in their order
abbrev pub upto : ℕ → List ℕ
upto zero = []
upto (suc n) = upto n ++ n ∷ []

-- A column waits for the answer to its last call, has made all its calls, or threw at the last.
abbrev pub IsPhase : ℕ → Column → List ℕ → Type 0
IsPhase limit c made =
    ((t0 : ℕ) × (c.asked ≡ some t0) × (c.threw ≡ false) × (c.i < limit) × (made ≡ upto (suc c.i)))
    ⊎ ((c.asked ≡ none) × (c.threw ≡ false) × (c.i ≡ limit) × (made ≡ upto c.i))
    ⊎ ((c.asked ≡ none) × (c.threw ≡ true) × (c.i < limit) × (made ≡ upto (suc c.i)))

-- It made its calls one after the other, from 0 on, and measured each that was answered.
abbrev pub IsOrderly : ℕ → Column → List ℕ → Type 0
IsOrderly limit c made = (length c.upstream ≡ c.i) × (length c.browser ≡ c.i) × IsPhase limit c made

abbrev pub IsLockstep : ℕ → Bench → Type 0
IsLockstep limit b = (k : Backend) → IsOrderly limit (column k b) (calls_of k b.calls)

calls_of-append :
    (k x : Backend) (i : ℕ) (cs : List (Backend × ℕ))
    → calls_of k (cs ++ (x, i) ∷ []) ≡ calls_of k cs ++ (if is_backend x k then i ∷ [] else [])
calls_of-append k x i [] = elim (Bool-cases (is_backend x k)) [
  | inl e ↦ rw e refl
  | inr e ↦ rw e refl
]
calls_of-append k x i ((y, j) ∷ cs) =
    let r = calls_of-append k x i cs in
    elim (Bool-cases (is_backend y k)) [ inl e ↦ rw (e, r) refl | inr e ↦ rw (e, r) refl ]

-- A column that has measured all its calls goes on.
next_call-IsOrderly :
    (limit now : ℕ) (k : Backend) (c : Column) (b : Bench)
    → length c.upstream ≡ c.i
    → length c.browser ≡ c.i
    → c.threw ≡ false
    → c.i ≤ limit
    → calls_of k b.calls ≡ upto c.i
    → IsOrderly limit
        (column k (next_call limit k now c b))
        (calls_of k (next_call limit k now c b).calls)
unfolding next_call
next_call-IsOrderly limit now nats c b u w t le made = elim (Bool-cases (ltb c.i limit)) [
  | inl e ↦ rw e (
    u,
    w,
    inl (
      now,
      refl,
      t,
      ground arith,
      calls_of-append nats nats c.i b.calls ∙ ap (λ m. m ++ c.i ∷ []) made,
    ),
  )
  | inr e ↦ rw e (u, w, inr (inl (refl, t, ground arith, made)))
]
next_call-IsOrderly limit now cosmos c b u w t le made = elim (Bool-cases (ltb c.i limit)) [
  | inl e ↦ rw e (
    u,
    w,
    inl (
      now,
      refl,
      t,
      ground arith,
      calls_of-append cosmos cosmos c.i b.calls ∙ ap (λ m. m ++ c.i ∷ []) made,
    ),
  )
  | inr e ↦ rw e (u, w, inr (inl (refl, t, ground arith, made)))
]

abbrev other : Backend → Backend
other nats = cosmos
other cosmos = nats

-- The other column stays as it is.
next_call-keeps :
    (limit now : ℕ) (k : Backend) (c : Column) (b : Bench)
    → IsOrderly limit (column (other k) b) (calls_of (other k) b.calls)
    → IsOrderly limit
        (column (other k) (next_call limit k now c b))
        (calls_of (other k) (next_call limit k now c b).calls)
unfolding next_call
next_call-keeps limit now nats c b h = elim (Bool-cases (ltb c.i limit)) [
  | inl e ↦ rw (e, calls_of-append cosmos nats c.i b.calls, append-nil (calls_of cosmos b.calls)) h
  | inr e ↦ rw e h
]
next_call-keeps limit now cosmos c b h = elim (Bool-cases (ltb c.i limit)) [
  | inl e ↦ rw (e, calls_of-append nats cosmos c.i b.calls, append-nil (calls_of nats b.calls)) h
  | inr e ↦ rw e h
]

abbrev stopped : Column → Column
stopped c = record c { asked = none; threw = true }

stopped-IsOrderly :
    (limit : ℕ) (k : Backend) (b : Bench)
    → length (column k b).upstream ≡ (column k b).i
    → length (column k b).browser ≡ (column k b).i
    → (column k b).i < limit
    → calls_of k b.calls ≡ upto (suc (column k b).i)
    → IsOrderly limit
        (column k (put_column k (stopped (column k b)) b))
        (calls_of k (put_column k (stopped (column k b)) b).calls)
stopped-IsOrderly limit nats b u w lt made = (u, w, inr (inr (refl, refl, lt, made)))
stopped-IsOrderly limit cosmos b u w lt made = (u, w, inr (inr (refl, refl, lt, made)))

stopped-keeps :
    (limit : ℕ) (k : Backend) (b : Bench)
    → IsOrderly limit (column (other k) b) (calls_of (other k) b.calls)
    → IsOrderly limit
        (column (other k) (put_column k (stopped (column k b)) b))
        (calls_of (other k) (put_column k (stopped (column k b)) b).calls)
stopped-keeps limit nats b h = h
stopped-keeps limit cosmos b h = h

module _ (limit : ℕ) (a : BenchAnswer) (b : Bench) where
  abbrev own : Column
  own = column a.backend b

  answered-IsOrderly :
      (t0 : ℕ)
      → length own.upstream ≡ own.i
      → length own.browser ≡ own.i
      → own.threw ≡ false
      → own.i < limit
      → calls_of a.backend b.calls ≡ upto (suc own.i)
      → (us : Option ℕ)
      → IsOrderly limit
          (column a.backend (taken limit a t0 us b))
          (calls_of a.backend (taken limit a t0 us b).calls)
  unfolding note_times
  answered-IsOrderly t0 u w t lt made none = stopped-IsOrderly limit a.backend b u w lt made
  answered-IsOrderly t0 u w t lt made (some us) =
      next_call-IsOrderly limit a.now a.backend (note_times t0 a.responded us own) b
        (omega (arith, u, length-append own.upstream (us ∷ [])))
        (omega (arith, w, length-append own.browser ((a.responded - t0) ∷ []))) t (omega arith) made

  answered-keeps :
      (t0 : ℕ)
      → IsOrderly limit (column (other a.backend) b) (calls_of (other a.backend) b.calls)
      → (us : Option ℕ)
      → IsOrderly limit
          (column (other a.backend) (taken limit a t0 us b))
          (calls_of (other a.backend) (taken limit a t0 us b).calls)
  answered-keeps t0 h none = stopped-keeps limit a.backend b h
  answered-keeps t0 h (some us) =
      next_call-keeps limit a.now a.backend (note_times t0 a.responded us own) b h

  on_answer-moves :
      IsOrderly limit own (calls_of a.backend b.calls)
      → IsOrderly limit
          (column a.backend (on_answer limit a b))
          (calls_of a.backend (on_answer limit a b).calls)
  unfolding on_answer
  on_answer-moves h =
      let (u, w, p) = h in
      elim p [
        | inl (t0, asked, t, lt, made) ↦
            rw asked (answered-IsOrderly t0 u w t lt made a.upstream_us)
        | inr (inl (asked, t, q, made)) ↦ rw asked h
        | inr (inr (asked, t, q, made)) ↦ rw asked h
      ]

  on_answer-keeps :
      IsOrderly limit (column (other a.backend) b) (calls_of (other a.backend) b.calls)
      → IsOrderly limit
          (column (other a.backend) (on_answer limit a b))
          (calls_of (other a.backend) (on_answer limit a b).calls)
  unfolding on_answer
  on_answer-keeps h = elim (Option-cases own.asked) [
    | inl e ↦ rw e h
    | inr (t0, e) ↦ rw e (answered-keeps t0 h a.upstream_us)
  ]

both : (P : Backend → Type 0) (k : Backend) → P k → P (other k) → (x : Backend) → P x
both P nats p q nats = p
both P nats p q cosmos = q
both P cosmos p q nats = q
both P cosmos p q cosmos = p

on_answer-IsLockstep :
    (limit : ℕ) (a : BenchAnswer) (b : Bench)
    → IsLockstep limit b
    → IsLockstep limit (on_answer limit a b)
on_answer-IsLockstep limit a b h =
    both
      (λ k.
        IsOrderly limit (column k (on_answer limit a b)) (calls_of k (on_answer limit a b).calls))
      a.backend (on_answer-moves limit a b (h a.backend))
      (on_answer-keeps limit a b (h (other a.backend)))

run_from :
    (limit : ℕ) (answers : List BenchAnswer) (b : Bench)
    → IsLockstep limit b
    → IsLockstep limit (run_columns limit answers b)
unfolding run_columns
run_from limit [] b h = h
run_from limit (a ∷ rest) b h =
    run_from limit rest (on_answer limit a b) (on_answer-IsLockstep limit a b h)

abbrev nothing : Bench
nothing = record { nats_column = idle; cosmos_column = idle; calls = [] }

no_cosmos_call :
    (limit now : ℕ) → calls_of cosmos (next_call limit nats now idle nothing).calls ≡ []
unfolding next_call
no_cosmos_call limit now = elim (Bool-cases (ltb 0 limit)) [ inl e ↦ rw e refl | inr e ↦ rw e refl ]

start_columns-IsLockstep : (limit now : ℕ) → IsLockstep limit (start_columns limit now)
unfolding start_columns
start_columns-IsLockstep limit now =
    let b = next_call limit nats now idle nothing in
    both
      (λ k.
        IsOrderly limit (column k (start_columns limit now))
          (calls_of k (start_columns limit now).calls))
      nats
      (next_call-keeps limit now cosmos idle b
        (next_call-IsOrderly limit now nats idle nothing refl refl refl (omega arith) refl))
      (next_call-IsOrderly limit now cosmos idle b refl refl refl (omega arith)
        (no_cosmos_call limit now))

-- At every moment of a benchmark, in whatever order the answers of the two columns come and
-- whichever of them throw, each column has made the calls from 0 on in their order, one at a time
-- and no more than it was asked for, and has measured each call that was answered; it waits for
-- its last call, has measured all of them, or threw at the last.
pub run_columns-IsLockstep :
    (limit now : ℕ) (answers : List BenchAnswer)
    → IsLockstep limit (run_columns limit answers (start_columns limit now))
run_columns-IsLockstep limit now answers =
    run_from limit answers (start_columns limit now) (start_columns-IsLockstep limit now)
