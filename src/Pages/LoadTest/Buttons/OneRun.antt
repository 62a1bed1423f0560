-- ===== src/Pages/LoadTest/Buttons/OneRun.antt =====
-- That there is one run of the load test at most.
use nats_kv.Prelude.{
  ℕ, suc, ◌≡◌, refl, ap, ◌∙◌, Bool, not, Bool-cases, inl, inr, arith, if◌then◌else◌,
}
use nats_kv.Pages.LoadTest.{Settings}
use nats_kv.Pages.LoadTest.Summary.{Summary}
use nats_kv.Pages.LoadTest.Buttons.{Panel, at_rest, Digits, reset, settle, stop, press_run}

abbrev pub one_more : Bool → ℕ → ℕ
one_more began n = if began then suc n else n

-- What happens to the panel and to the runs that are under way: a press of one of the buttons, or a
-- run that is under way ends.
pub data Press (digits : Digits) : ℕ × Panel → ℕ × Panel → Type 0 where
  pressed_run :
      (cfg : Settings) (n : ℕ) (p : Panel)
      → Press digits (n, p) (one_more (press_run cfg p).0 n, (press_run cfg p).1)
  pressed_stop : (n : ℕ) (p : Panel) → Press digits (n, p) (n, stop p)
  ended : (s : Summary) (n : ℕ) (p : Panel) → Press digits (suc n, p) (n, settle digits s p)

pub data Presses (digits : Digits) : ℕ × Panel → Type 0 where
  loaded : Presses digits (0, at_rest)
  goes_on : {s u : ℕ × Panel} → Presses digits s → Press digits s u → Presses digits u

-- One run is under way if the page says so, or else none, and one button is disabled.
abbrev pub IsGuarded : ℕ × Panel → Type 0
IsGuarded (n, p) =
    (n ≡ (if p.running then 1 else 0))
    × (p.run_disabled ≡ p.running)
    × (p.stop_disabled ≡ not p.running)

Press-IsGuarded : (digits : Digits) (s u : ℕ × Panel) → Press digits s u → IsGuarded s → IsGuarded u
unfolding press_run stop settle reset
Press-IsGuarded digits s u (pressed_run cfg n p) (one, run, halt) = elim (Bool-cases p.running) [
  | inl e ↦ rw e (rw e at one, run ∙ e, halt ∙ ap not e)
  | inr e ↦ let h = rw e at one in rw e (ap suc h, refl, refl)
]
Press-IsGuarded digits s u (pressed_stop n p) h = h
Press-IsGuarded digits s u (ended summary n p) (one, run, halt) = elim (Bool-cases p.running) [
  | inl e ↦ let h = rw e at one in (omega arith, refl, refl)
  | inr e ↦ let h = rw e at one in absurd (omega arith)
]

-- Whatever the order of the presses and of the ends of runs: there is never more than one run under
-- way, the button that starts a run can be pressed exactly while there is none, and the one that
-- stops it exactly while there is one.
pub Presses-IsGuarded : (digits : Digits) (s : ℕ × Panel) → Presses digits s → IsGuarded s
Presses-IsGuarded digits s loaded = (refl, refl, refl)
Presses-IsGuarded digits s (goes_on before press) =
    Press-IsGuarded digits _ _ press (Presses-IsGuarded digits _ before)
