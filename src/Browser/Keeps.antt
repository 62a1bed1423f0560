-- ===== src/Browser/Keeps.antt =====
-- A property of the trace that a program keeps, step by step.
use nats_kv.Prelude.{Bool, true, false, Option, none, some, ◌∷◌}
use nats_kv.Text.{Text}
use nats_kv.Browser.{
  Fetch, Reply, Effect, fetched, asked, Trace, Browser, Program, pure, resume, ◌>>=◌, emit, when,
  branch, lift, try, recover, json_of, fetch, confirm, prompt, stored_item,
}

module _ (Holds : Trace → Type 0) where
  pub record Keeps {A : Type 0} (m : Program A) : Type 0 where
    pub keeps : (t : Trace) → Holds t → Holds (m t).1

  Keeps-resume :
      {A B : Type 0} (r : Option A) (f : A → Program B)
      → ((a : A) → Keeps (f a))
      → Keeps (resume r f)
  Keeps-resume none f k = record { keeps = λ t h. h }
  Keeps-resume (some a) f k = record { keeps = λ t h. (k a).keeps t h }

  pub Keeps-bind :
      {A B : Type 0} {m : Program A} {f : A → Program B}
      → Keeps m
      → ((a : A) → Keeps (f a))
      → Keeps (m >>= f)
  unfolding ◌>>=◌
  Keeps-bind {m} {f} k l = record {
    keeps = λ t h. (Keeps-resume (m t).0 f l).keeps (m t).1 (k.keeps t h);
  }

  pub Keeps-pure : {A : Type 0} (a : A) → Keeps (pure a)
  Keeps-pure a = record { keeps = λ t h. h }

  pub Keeps-lift : {A : Type 0} (o : Option A) → Keeps (lift o)
  unfolding lift
  Keeps-lift o = record { keeps = λ t h. h }

  pub Keeps-when : (b : Bool) {m : Program (Unit {0})} → Keeps m → Keeps (when b m)
  unfolding when
  Keeps-when true k = k
  Keeps-when false k = Keeps-pure tt

  pub Keeps-branch :
      {A : Type 0} (b : Bool) {m n : Program A} → Keeps m → Keeps n → Keeps (branch b m n)
  unfolding branch
  Keeps-branch true k l = k
  Keeps-branch false k l = l

  Keeps-recover :
      {A : Type 0} (r : Option A × Trace) {n : Program A}
      → Keeps n
      → Holds r.1
      → Holds (recover r n).1
  Keeps-recover (some a, t) k h = h
  Keeps-recover (none, t) k h = k.keeps t h

  pub Keeps-try : {A : Type 0} {m n : Program A} → Keeps m → Keeps n → Keeps (try m n)
  unfolding try
  Keeps-try {m} k l = record { keeps = λ t h. Keeps-recover (m t) l (k.keeps t h) }

  pub Keeps-json_of : (r : Reply) → Keeps (json_of r)
  unfolding json_of
  Keeps-json_of r = record { keeps = λ t h. h }

  pub Keeps-emit : (e : Effect) → ((t : Trace) → Holds t → Holds (e ∷ t)) → Keeps (emit e)
  unfolding emit
  Keeps-emit e k = record { keeps = k }

  module _ (browser : Browser) where
    pub Keeps-fetch :
        (f : Fetch) → ((t : Trace) → Holds t → Holds (fetched f ∷ t)) → Keeps (fetch browser f)
    unfolding fetch
    Keeps-fetch f k = record { keeps = k }

    pub Keeps-confirm :
        (text : Text)
        → ((t : Trace) → Holds t → Holds (asked text ∷ t))
        → Keeps (confirm browser text)
    unfolding confirm
    Keeps-confirm text k = record { keeps = k }

    pub Keeps-prompt :
        (text : Text)
        → ((t : Trace) → Holds t → Holds (asked text ∷ t))
        → Keeps (prompt browser text)
    unfolding prompt
    Keeps-prompt text k = record { keeps = k }

    pub Keeps-stored_item : (key : Text) → Keeps (stored_item browser key)
    unfolding stored_item
    Keeps-stored_item key = record { keeps = λ t h. h }
