-- ===== src/Spin/Io.antt =====
-- A handler's run: it threads the trace of effects, and stops at the first error that `?` passes on.
use nats_kv.Prelude.{ℕ, Option, List, ◌∷◌}
use nats_kv.Text.{Text}
use nats_kv.Spin.{
  OutRequest, Upstream, Result, ok, err, sent, opened, read, wrote, removed, Trace, Host,
}

abbrev pub Io : Type 0 → Type 0
Io A = Trace → Result A × Trace

abbrev pub pure : {A : Type 0} → A → Io A
pure a t = (ok a, t)

abbrev pub continue : {A B : Type 0} → Result A → (A → Io B) → Io B
continue (ok a) f t = f a t
continue (err e) f t = (err e, t)

infixl 5 ◌>>=◌
abbrev pub ◌>>=◌ : {A B : Type 0} → Io A → (A → Io B) → Io B
◌>>=◌ m f t = let (r, t') = m t in continue r f t'

module _ (host : Host) where
  abbrev pub send : OutRequest → Io Upstream
  send r t = (host.send t r, sent r ∷ t)

  abbrev pub elapsed_us : Io ℕ
  elapsed_us t = (ok (host.elapsed_us t), t)

  -- The calls of the store give their errors to the code that calls, so they are values here.
  abbrev pub store_open : Io (Result (Unit {0}))
  store_open t = (ok (host.store_open t), opened ∷ t)

  abbrev pub store_get : Text → Io (Result (Option (List ℕ)))
  store_get key t = (ok (host.store_get t key), read key ∷ t)

  abbrev pub store_set : Text → List ℕ → Io (Result (Unit {0}))
  store_set key value t = (ok (host.store_set t key value), wrote key value ∷ t)

  abbrev pub store_delete : Text → Io (Result (Unit {0}))
  store_delete key t = (ok (host.store_delete t key), removed key ∷ t)
