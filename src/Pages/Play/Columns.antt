-- ===== src/Pages/Play/Columns.antt =====
-- The two columns of `runBench` of ui/nats-kv-user/src/lib.rs, which run at the same time: each
-- makes its calls one after the other, and the answers of the two come in any order.
pub mod Lockstep
use nats_kv.Prelude.{
  ℕ, suc, ◌+◌, ◌-◌, Bool, true, false, Option, none, some, List, [], ◌∷◌, ◌++◌, ltb, if◌then◌else◌,
}
use nats_kv.Pages.Play.{Backend, nats, cosmos}

-- A column: the variable `i`, the time at which its open call was made, if there is one, and the
-- times measured, in microseconds. A column that threw is left with its call open no more.
pub record Column : Type 0 where
  pub i : ℕ
  pub asked : Option ℕ
  pub threw : Bool
  pub upstream : List ℕ
  pub browser : List ℕ

pub record Bench : Type 0 where
  pub nats_column : Column
  pub cosmos_column : Column
  -- The calls made, the newest last
  pub calls : List (Backend × ℕ)

-- The answer to an open call: the times at which the response came and at which its body was read,
-- and `upstream_us` of the body, or an exception.
pub record BenchAnswer : Type 0 where
  pub backend : Backend
  pub responded : ℕ
  pub now : ℕ
  pub upstream_us : Option ℕ

abbrev pub idle : Column
idle = record { i = 0; asked = none; threw = false; upstream = []; browser = [] }

abbrev pub column : Backend → Bench → Column
column nats b = b.nats_column
column cosmos b = b.cosmos_column

abbrev pub put_column : Backend → Column → Bench → Bench
put_column nats c b = record b { nats_column = c }
put_column cosmos c b = record b { cosmos_column = c }

-- `i < N`, and the call that follows, at the time `now`
unfoldable pub next_call : ℕ → Backend → ℕ → Column → Bench → Bench
next_call limit backend now c b =
    if ltb c.i limit
    then record (put_column backend (record c { asked = some now }) b) {
      calls = b.calls ++ (backend, c.i) ∷ [];
    }
    else put_column backend (record c { asked = none }) b

-- `bms` and what is pushed, `i++`
unfoldable pub note_times : ℕ → ℕ → ℕ → Column → Column
note_times t0 now us c = record c {
  i = suc c.i;
  upstream = c.upstream ++ us ∷ [];
  browser = c.browser ++ (now - t0) ∷ [];
}

abbrev pub taken : ℕ → BenchAnswer → ℕ → Option ℕ → Bench → Bench
taken limit a t0 none b =
    put_column a.backend (record (column a.backend b) { asked = none; threw = true }) b
taken limit a t0 (some us) b =
    next_call limit a.backend a.now (note_times t0 a.responded us (column a.backend b)) b

abbrev answered : ℕ → BenchAnswer → Option ℕ → Bench → Bench
answered limit a none b = b
answered limit a (some t0) b = taken limit a t0 a.upstream_us b

-- An answer is taken up by the column that waits for it.
unfoldable pub on_answer : ℕ → BenchAnswer → Bench → Bench
unfolding next_call note_times
on_answer limit a b = answered limit a (column a.backend b).asked b

-- `collect("nats")` and `collect("cosmos")` up to their first calls
unfoldable pub start_columns : ℕ → ℕ → Bench
unfolding next_call
start_columns limit now = next_call limit cosmos now idle (
    next_call limit nats now idle (record { nats_column = idle; cosmos_column = idle; calls = [] }))

-- The answers, the first of them first
unfoldable pub run_columns : ℕ → List BenchAnswer → Bench → Bench
unfolding on_answer
run_columns limit [] b = b
run_columns limit (a ∷ rest) b = run_columns limit rest (on_answer limit a b)
