-- ===== src/Pages/LoadTest/Stopping.antt =====
-- A load test that was told to stop comes to an end.
use nats_kv.Prelude.{
  ℕ, zero, suc, ◌+◌, ◌*◌, ◌≤◌, ◌≡◌, refl, subst, Bool, true, false, Option, none, some, List, [],
  ◌∷◌, arith, length, ltb, Bool-cases, inl, inr,
}
use nats_kv.Pages.LoadTest.{
  Settings, Worker, looping, fetching, reading, finished, Counters, Event, loops, responds, reads,
  fails, count_error, conc, dur_ms, loop_test, on_response, on_body, on_failure, react, keep, place,
  react_at, tick, stop_load, Reach,
}
use nats_kv.Pages.LoadTest.Counts.{Reach-IsConsistent}

-- The events that a worker needs until it ends, at most.
abbrev pub weight : Worker → ℕ
weight looping = 1
weight (fetching i t1) = 3
weight (reading i t1) = 2
weight finished = 0

abbrev pub load : List Worker → ℕ
load [] = 0
load (w ∷ ws) = weight w + load ws

load_le : (ws : List Worker) → load ws ≤ 3 * length ws
load_le [] = omega arith
load_le (looping ∷ ws) = omega (arith, load_le ws)
load_le (fetching i t1 ∷ ws) = omega (arith, load_le ws)
load_le (reading i t1 ∷ ws) = omega (arith, load_le ws)
load_le (finished ∷ ws) = omega (arith, load_le ws)

abbrev IsStopped : Counters → Type 0
IsStopped c = c.stop_requested ≡ true

count_error-stop_requested :
    (b : Bool) (c : Counters) → (count_error b c).stop_requested ≡ c.stop_requested
count_error-stop_requested true c = refl
count_error-stop_requested false c = refl

module _ (cfg : Settings) where
  abbrev Lighter : Worker → Option (Counters × Worker) → Type 0
  Lighter w none = Unit
  Lighter w (some (d, v)) = IsStopped d × (suc (weight v) ≤ weight w)

  react-Lighter :
      (deadline : ℕ) (e : Event) (c : Counters) (w : Worker)
      → IsStopped c
      → Lighter w (react cfg deadline e c w)
  unfolding react loop_test on_response on_body on_failure
  react-Lighter deadline (loops now t1) c looping h = elim (Bool-cases (ltb now deadline)) [
    | inl q ↦ rw (q, h) (refl, omega arith)
    | inr q ↦ rw q (h, omega arith)
  ]
  react-Lighter deadline (responds status) c (fetching i t1) h =
      (rw (count_error-stop_requested _ c) h, omega arith)
  react-Lighter deadline (reads envelope now) c (reading i t1) h =
      (rw (count_error-stop_requested _ c) h, omega arith)
  react-Lighter deadline fails c (fetching i t1) h = (h, omega arith)
  react-Lighter deadline fails c (reading i t1) h = (h, omega arith)
  react-Lighter deadline e c w h = tt

  abbrev AllLighter : List Worker → Option (Counters × List Worker) → Type 0
  AllLighter ws none = Unit
  AllLighter ws (some (d, vs)) = IsStopped d × (suc (load vs) ≤ load ws)

  keep-AllLighter :
      (w : Worker) (ws : List Worker) (o : Option (Counters × List Worker))
      → AllLighter ws o
      → AllLighter (w ∷ ws) (keep cfg w o)
  keep-AllLighter w ws none h = tt
  keep-AllLighter w ws (some (d, vs)) (s, l) = (s, omega arith)

  place-AllLighter :
      (w : Worker) (ws : List Worker) (o : Option (Counters × Worker))
      → Lighter w o
      → AllLighter (w ∷ ws) (place cfg ws o)
  place-AllLighter w ws none h = tt
  place-AllLighter w ws (some (d, v)) (s, l) = (s, omega arith)

  react_at-AllLighter :
      (deadline j : ℕ) (e : Event) (c : Counters) (ws : List Worker)
      → IsStopped c
      → AllLighter ws (react_at cfg deadline j e c ws)
  unfolding react_at
  react_at-AllLighter deadline j e c [] h = tt
  react_at-AllLighter deadline zero e c (w ∷ ws) h =
      place-AllLighter w ws _ (react-Lighter deadline e c w h)
  react_at-AllLighter deadline (suc j) e c (w ∷ ws) h =
      keep-AllLighter w ws _ (react_at-AllLighter deadline j e c ws h)

  module _ (t0 : ℕ) where
    -- A run from `s`, with the number of the workers' steps in it.
    pub data Steps (s : Counters × List Worker) : ℕ → Counters × List Worker → Type 0 where
      stays : Steps s 0 s
      works :
          {n : ℕ} {t : Counters × List Worker}
          → Steps s n t
          → (j : ℕ) (e : Event) (u : Counters × List Worker)
          → react_at cfg (t0 + dur_ms cfg * 1000) j e t.0 t.1 ≡ some u
          → Steps s (suc n) u
      ticks :
          {n : ℕ} {t : Counters × List Worker}
          → Steps s n t
          → (now : ℕ) → Steps s n (tick t0 now t.0, t.1)

    Steps-IsStopped :
        {s u : Counters × List Worker} {n : ℕ}
        → Steps s n u
        → IsStopped s.0
        → IsStopped u.0 × (n + load u.1 ≤ load s.1)
    unfolding tick
    Steps-IsStopped stays h = (h, omega arith)
    Steps-IsStopped (works {n} {t} r j e u q) h =
        let (k, l) = Steps-IsStopped r h in
        let m =
          subst (AllLighter t.1) q (react_at-AllLighter (t0 + dur_ms cfg * 1000) j e t.0 t.1 k) in
        (m.0, omega arith)
    Steps-IsStopped (ticks r now) h = Steps-IsStopped r h

    -- Once a stop was requested in a run, the steps that the workers have taken since then, with
    -- those that they may still need, are three per worker at most, whatever the answers are and
    -- however often the ticker comes in between.
    pub stop_ends :
        {s u : Counters × List Worker} {n : ℕ}
        → Reach cfg t0 s
        → Steps (stop_load s.0, s.1) n u
        → n + load u.1 ≤ 3 * conc cfg
    unfolding stop_load
    stop_ends {s} r steps =
        let (k, l) = Steps-IsStopped steps refl in
        let c = Reach-IsConsistent cfg t0 r in omega (arith, load_le s.1)
