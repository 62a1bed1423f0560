-- ===== src/Pages/LoadTest/Counts.antt =====
-- What the counters of a load test say, at every moment of a run.
use nats_kv.Prelude.{
  ℕ, zero, suc, ◌+◌, ◌-◌, ◌*◌, ◌≤◌, ◌≡◌, refl, ap, subst, Bool, true, false, not, ◌&&◌, Option,
  none, some, List, [], ◌∷◌, ◌++◌, arith, length, length-append, ltb, ◌==◌, if◌then◌else◌,
  Bool-cases, inl, inr,
}
use nats_kv.Pages.LoadTest.{
  Settings, Worker, looping, fetching, reading, Row, Counters, Event, loops, responds, reads, fails,
  count_error, is_error_response, is_error_status, record_latency, conc, dur_ms, is_fwf, loop_test,
  on_response, on_body, on_failure, react, keep, place, react_at, last_rows, row_of, add_row, tick,
  stop_load, start, spin_up, Step, worker, ticker, stopper, Reach, begins, goes_on,
}

abbrev pub flying : Worker → ℕ
flying (fetching i t1) = 1
flying (reading i t1) = 1
flying _ = 0

-- An operation that may have counted an error already.
abbrev pub noted : Bool → Worker → ℕ
noted fwf (reading i t1) = if fwf then 0 else 1
noted fwf _ = 0

abbrev pub sum_of : (Worker → ℕ) → List Worker → ℕ
sum_of f [] = 0
sum_of f (w ∷ ws) = f w + sum_of f ws

-- How the counters move with the operations in flight, of which `n` may have counted an error.
abbrev Moves : Counters → ℕ → ℕ → Counters → ℕ → ℕ → Type 0
Moves c k n d l m =
    (length c.lats + d.total ≡ length d.lats + c.total)
    × (length c.tick_lats + d.total ≡ length d.tick_lats + c.total)
    × (c.last_tick_total ≡ d.last_tick_total)
    × (c.rows ≡ d.rows)
    × (d.op_counter + (c.total + c.errs + k) ≤ c.op_counter + (d.total + d.errs + l))
    × (d.total + l + c.op_counter ≤ c.total + k + d.op_counter)
    × (d.total + d.errs + 2 * l + (2 * c.op_counter + n)
        ≤ c.total + c.errs + 2 * k + (2 * d.op_counter + m))

abbrev ReactMoves : Settings → Counters → Worker → Option (Counters × Worker) → Type 0
ReactMoves cfg c w none = Unit
ReactMoves cfg c w (some (d, v)) =
    Moves c (flying w) (noted (is_fwf cfg) w) d (flying v) (noted (is_fwf cfg) v)

length-push : (ls : List ℕ) (x : ℕ) → length (ls ++ x ∷ []) ≡ suc (length ls)
length-push ls x = omega (arith, length-append ls (x ∷ []))

-- An error is counted when the headers arrive, on the direct path alone.
response-Moves :
    (fwf b : Bool) (c : Counters)
    → Moves c 1 0 (count_error (not fwf && b) c) 1 (if fwf then 0 else 1)
response-Moves true b c = (refl, refl, refl, refl, omega arith, omega arith, omega arith)
response-Moves false true c = (refl, refl, refl, refl, omega arith, omega arith, omega arith)
response-Moves false false c = (refl, refl, refl, refl, omega arith, omega arith, omega arith)

body-Moves :
    (fwf b : Bool) (dt : ℕ) (c : Counters)
    → Moves c 1 (if fwf then 0 else 1) (record_latency dt (count_error (fwf && b) c)) 0 0
body-Moves true true dt c = (
  omega (arith, length-push c.lats dt),
  omega (arith, length-push c.tick_lats dt),
  refl,
  refl,
  omega arith,
  omega arith,
  omega arith,
)
body-Moves true false dt c = (
  omega (arith, length-push c.lats dt),
  omega (arith, length-push c.tick_lats dt),
  refl,
  refl,
  omega arith,
  omega arith,
  omega arith,
)
body-Moves false b dt c = (
  omega (arith, length-push c.lats dt),
  omega (arith, length-push c.tick_lats dt),
  refl,
  refl,
  omega arith,
  omega arith,
  omega arith,
)

failure-Moves : (n : ℕ) → n ≤ 1 → (c : Counters) → Moves c 1 n (record c { errs = suc c.errs }) 0 0
failure-Moves n h c = (refl, refl, refl, refl, omega arith, omega arith, omega arith)

noted_le : (fwf : Bool) → (if fwf then 0 else 1) ≤ 1
noted_le true = omega arith
noted_le false = omega arith

react-Moves :
    (cfg : Settings) (deadline : ℕ) (e : Event) (c : Counters) (w : Worker)
    → ReactMoves cfg c w (react cfg deadline e c w)
unfolding react loop_test on_response on_body on_failure
react-Moves cfg deadline (loops now t1) c looping =
    elim (Bool-cases (ltb now deadline && not c.stop_requested)) [
      | inl q ↦ rw q (refl, refl, refl, refl, omega arith, omega arith, omega arith)
      | inr q ↦ rw q (refl, refl, refl, refl, omega arith, omega arith, omega arith)
    ]
react-Moves cfg deadline (responds status) c (fetching i t1) =
    response-Moves (is_fwf cfg) (is_error_response status) c
react-Moves cfg deadline (reads envelope now) c (reading i t1) =
    body-Moves (is_fwf cfg) (is_error_status envelope) (now - t1) c
react-Moves cfg deadline fails c (fetching i t1) = failure-Moves 0 (omega arith) c
react-Moves cfg deadline fails c (reading i t1) = failure-Moves _ (noted_le (is_fwf cfg)) c
react-Moves cfg deadline e c w = tt

-- A worker that does not move adds to both sides.
add-Moves :
    (c d : Counters) (a b k n l m : ℕ)
    → Moves c k n d l m
    → Moves c (a + k) (b + n) d (a + l) (b + m)
add-Moves c d a b k n l m (p, q, r, s, t, u, v) =
    (p, q, r, s, omega arith, omega arith, omega arith)

add-Moves_right :
    (c d : Counters) (a b k n l m : ℕ)
    → Moves c k n d l m
    → Moves c (k + a) (n + b) d (l + a) (m + b)
add-Moves_right c d a b k n l m (p, q, r, s, t, u, v) =
    (p, q, r, s, omega arith, omega arith, omega arith)

module _ (cfg : Settings) where
  abbrev in_flight : List Worker → ℕ
  in_flight ws = sum_of flying ws

  abbrev counted : List Worker → ℕ
  counted ws = sum_of (noted (is_fwf cfg)) ws

  abbrev AtMoves : Counters → List Worker → Option (Counters × List Worker) → Type 0
  AtMoves c ws none = Unit
  AtMoves c ws (some (d, vs)) =
      (Moves c (in_flight ws) (counted ws) d (in_flight vs) (counted vs)) × (length vs ≡ length ws)

  keep-AtMoves :
      (c : Counters) (w : Worker) (ws : List Worker) (o : Option (Counters × List Worker))
      → AtMoves c ws o
      → AtMoves c (w ∷ ws) (keep cfg w o)
  keep-AtMoves c w ws none h = tt
  keep-AtMoves c w ws (some (d, vs)) (h, l) = (add-Moves c d _ _ _ _ _ _ h, omega arith)

  place-AtMoves :
      (c : Counters) (w : Worker) (ws : List Worker) (o : Option (Counters × Worker))
      → ReactMoves cfg c w o
      → AtMoves c (w ∷ ws) (place cfg ws o)
  place-AtMoves c w ws none h = tt
  place-AtMoves c w ws (some (d, v)) h = (add-Moves_right c d _ _ _ _ _ _ h, refl)

  react_at-AtMoves :
      (deadline j : ℕ) (e : Event) (c : Counters) (ws : List Worker)
      → AtMoves c ws (react_at cfg deadline j e c ws)
  unfolding react_at
  react_at-AtMoves deadline j e c [] = tt
  react_at-AtMoves deadline zero e c (w ∷ ws) =
      place-AtMoves c w ws _ (react-Moves cfg deadline e c w)
  react_at-AtMoves deadline (suc j) e c (w ∷ ws) =
      keep-AtMoves c w ws _ (react_at-AtMoves deadline j e c ws)

  -- Every latency is that of an operation that completed; those of the current tick are the ones
  -- since the last; the table holds thirty rows at most; and each operation that was started is in
  -- flight, or was completed or failed: it counts once or twice, and as complete at most once.
  abbrev pub IsConsistent : Counters × List Worker → Type 0
  IsConsistent (c, ws) =
      (length c.lats ≡ c.total)
      × (length c.tick_lats + c.last_tick_total ≡ c.total)
      × (length c.rows ≤ 30)
      × (length ws ≡ conc cfg)
      × (c.op_counter ≤ c.total + c.errs + in_flight ws)
      × (c.total + in_flight ws ≤ c.op_counter)
      × (c.total + c.errs + 2 * in_flight ws ≤ 2 * c.op_counter + counted ws)

  last_rows_lem : (rs : List Row) → length (last_rows rs) ≤ 30
  unfolding last_rows
  last_rows_lem [] = omega arith
  last_rows_lem (r ∷ rs) = ground (arith, last_rows_lem rs)

  add_row_lem : (t0 now : ℕ) (c : Counters) → length c.rows ≤ 30 → length (add_row t0 now c) ≤ 30
  unfolding add_row
  add_row_lem t0 now c h = elim (Bool-cases (length c.tick_lats == 0)) [
    | inl e ↦ rw e h
    | inr e ↦ rw e (last_rows_lem (c.rows ++ row_of t0 now c ∷ []))
  ]

  Moves-IsConsistent :
      (c : Counters) (ws : List Worker) (u : Counters × List Worker)
      → AtMoves c ws (some u)
      → IsConsistent (c, ws)
      → IsConsistent u
  Moves-IsConsistent c ws (d, vs) ((p, q, r, s, t, u, v), l) (a, b, f, g, h, i, j) =
      (omega arith, omega arith, rw (← s) f, omega arith, omega arith, omega arith, omega arith)

  module _ (t0 : ℕ) where
    Step-IsConsistent :
        {s u : Counters × List Worker} → Step cfg t0 s u → IsConsistent s → IsConsistent u
    unfolding tick stop_load
    Step-IsConsistent {s} (worker j e u h) k =
        Moves-IsConsistent s.0 s.1 u
          (subst (AtMoves s.0 s.1) h (react_at-AtMoves (t0 + dur_ms cfg * 1000) j e s.0 s.1)) k
    Step-IsConsistent {s} (ticker now) (a, b, f, k, l, m, n) =
        (a, omega arith, add_row_lem t0 now s.0 f, k, l, m, n)
    Step-IsConsistent (stopper) k = k

    spun_up : (n : ℕ) → (in_flight (spin_up n) ≡ 0) × (length (spin_up n) ≡ n)
    unfolding spin_up
    spun_up zero = (refl, refl)
    spun_up (suc n) = let (a, b) = spun_up n in (omega (arith, a), ap suc b)

    -- At every moment of a load test, in whatever order its workers, the ticker and a stop come:
    -- there is a latency for each operation that completed, and the tick has those since the last
    -- tick; the table holds thirty rows at most; the number of workers is the one asked for; no
    -- operation is lost from the counts, and each counts twice at most, and as complete once.
    pub Reach-IsConsistent : {s : Counters × List Worker} → Reach cfg t0 s → IsConsistent s
    unfolding start
    Reach-IsConsistent begins =
        let (a, b) = spun_up (conc cfg) in
        (refl, refl, omega arith, b, omega arith, rw a (omega arith), rw a (omega arith))
    Reach-IsConsistent (goes_on r st) = Step-IsConsistent st (Reach-IsConsistent r)
