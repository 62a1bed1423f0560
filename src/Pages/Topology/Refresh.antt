-- ===== src/Pages/Topology/Refresh.antt =====
-- `autoRefresh` of the topology page of ui/nats-kv-user/src/lib.rs: a click starts the timer that
-- loads the page every five seconds, or stops it.
use nats_kv.Prelude.{
  ℕ, ◌≡◌, refl, subst, Bool, true, false, not, Option, none, some, List, [], ◌∷◌, ◌==◌,
  if◌then◌else◌, ==_refl,
}
use nats_kv.Text.{Text, codes}

-- The variable `timer`, the intervals that the browser runs, and the text of the button.
pub record Auto : Type 0 where
  pub timer : Option ℕ
  pub intervals : List ℕ
  pub button : Text

-- `clearInterval(handle)`
unfoldable pub without_handle : ℕ → List ℕ → List ℕ
without_handle handle [] = []
without_handle handle (n ∷ ns) =
    let rest = without_handle handle ns in if n == handle then rest else n ∷ rest

-- `autoRefresh`, where `setInterval` gives `handle`
unfoldable pub auto_refresh : ℕ → Auto → Auto
unfolding without_handle
auto_refresh handle a = elim a.timer [
  | some old ↦ record {
    timer = none;
    intervals = without_handle old a.intervals;
    button = codes "Auto-refresh (off)";
  }
  | none ↦ record {
    timer = some handle;
    intervals = handle ∷ a.intervals;
    button = codes "Auto-refresh (5s)";
  }
]

-- The page when it is loaded
abbrev pub off : Auto
off = record { timer = none; intervals = []; button = codes "Auto-refresh (off)" }

-- Clicks, the newest last, each with the handle that the browser would give
unfoldable pub clicks : List ℕ → Auto → Auto
unfolding auto_refresh
clicks [] a = a
clicks (handle ∷ hs) a = clicks hs (auto_refresh handle a)

abbrev pub is_odd : List ℕ → Bool
is_odd [] = false
is_odd (_ ∷ ns) = not (is_odd ns)

-- The one interval that runs is that of the variable, and the button says so.
pub data IsInStep : Bool → Auto → Type 0 where
  stopped : IsInStep false off
  running :
      (handle : ℕ)
      → IsInStep true (record {
        timer = some handle;
        intervals = handle ∷ [];
        button = codes "Auto-refresh (5s)";
      })

auto_refresh-IsInStep :
    (on : Bool) (a : Auto) (handle : ℕ) → IsInStep on a → IsInStep (not on) (auto_refresh handle a)
unfolding auto_refresh without_handle
auto_refresh-IsInStep on a handle stopped = running handle
auto_refresh-IsInStep on a handle (running old) = rw (==_refl old) stopped

abbrev xor : Bool → Bool → Bool
xor true b = not b
xor false b = b

xor-not : (x b : Bool) → xor x (not b) ≡ xor (not x) b
xor-not true true = refl
xor-not true false = refl
xor-not false b = refl

xor-false : (x : Bool) → xor x false ≡ x
xor-false true = refl
xor-false false = refl

clicks_from :
    (hs : List ℕ) (on : Bool) (a : Auto)
    → IsInStep on a
    → IsInStep (xor (is_odd hs) on) (clicks hs a)
unfolding clicks
clicks_from [] on a h = h
clicks_from (handle ∷ hs) on a h =
    subst (λ b. IsInStep b (clicks hs (auto_refresh handle a))) (xor-not (is_odd hs) on)
      (clicks_from hs (not on) (auto_refresh handle a) (auto_refresh-IsInStep on a handle h))

-- However often the button was clicked, no interval runs without being the one that the next click
-- stops: there is one exactly if the number of clicks is odd, and the button's text says which.
pub clicks-IsInStep : (hs : List ℕ) → IsInStep (is_odd hs) (clicks hs off)
clicks-IsInStep hs =
    subst (λ b. IsInStep b (clicks hs off)) (xor-false (is_odd hs))
      (clicks_from hs false off stopped)
