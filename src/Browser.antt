-- ===== src/Browser.antt =====
-- The browser that the scripts of the pages run in: what they fetch, ask, and keep in
-- `localStorage`, as programs that thread a trace of effects and stop where they throw.
pub mod Values
pub mod Keeps
pub mod Runs
use nats_kv.Prelude.{
  ℕ, zero, suc, Bool, true, false, Option, none, some, List, [], ◌∷◌, if◌then◌else◌,
}
use nats_kv.Text.{Text, same, is_empty}
use nats_kv.Browser.Values.{Json, is_nullish}

-- What is given to `fetch`.
pub record Fetch : Type 0 where
  pub url : Text
  pub method : Text
  pub headers : List (Text × Text)
  pub body : Option Text

-- A response, with its body if that is JSON.
pub record Reply : Type 0 where
  pub ok : Bool
  pub status : ℕ
  pub json : Option Json

pub data Effect : Type 0 where
  fetched : Fetch → Effect
  asked : Text → Effect
  alerted : Text → Effect
  stored : Text → Text → Effect
  removed : Text → Effect
  -- An element of the page shows a text.
  shown : Text → Text → Effect
  -- A property of an element is set.
  put_property : Text → Text → Text → Effect
  -- `window.location = …`
  went : Text → Effect

-- The newest effect stands first.
abbrev pub Trace : Type 0
Trace = List Effect

-- The browser and its user: each answer depends on what came before.
pub record Browser : Type 0 where
  -- `localStorage` when the page is loaded
  pub storage : Text → Option Text
  -- No reply: `fetch` throws.
  pub fetch : Trace → Fetch → Option Reply
  pub confirm : Trace → Text → Bool
  pub prompt : Trace → Text → Option Text
  -- `JSON.stringify`, and `JSON.parse(atob(…))`
  pub stringify : Json → Text
  pub parse_base64 : Text → Option Json
  -- `new Date(j).toLocaleString()`, and `a.localeCompare(b) < 0`
  pub show_date : Json → Text
  -- `new Date(j).toLocaleTimeString()`, and `j.toFixed(n)`, which throws for anything but a number
  pub show_time : Json → Text
  pub to_fixed : ℕ → Json → Option Text
  -- The message of the exception that ends what came before.
  pub message : Trace → Text
  pub locale_less : Text → Text → Bool

-- `localStorage.getItem(key)`
unfoldable pub item : (Text → Option Text) → Trace → Text → Option Text
item storage [] key = storage key
item storage (stored k v ∷ t) key = if same k key then some v else item storage t key
item storage (removed k ∷ t) key = if same k key then none else item storage t key
item storage (_ ∷ t) key = item storage t key

-- `a || b` on texts: the second if the first is missing or empty
unfoldable pub or_text : Option Text → Text → Text
or_text none d = d
or_text (some a) d = if is_empty a then d else a

-- A program may throw.
abbrev pub Program : Type 0 → Type 0
Program A = Trace → Option A × Trace

abbrev pub pure : {A : Type 0} → A → Program A
pure a t = (some a, t)

abbrev pub resume : {A B : Type 0} → Option A → (A → Program B) → Program B
resume none f t = (none, t)
resume (some a) f t = f a t

infixl 5 ◌>>=◌
unfoldable pub ◌>>=◌ : {A B : Type 0} → Program A → (A → Program B) → Program B
◌>>=◌ m f t = let (r, t') = m t in resume r f t'

-- One effect.
unfoldable pub emit : Effect → Program (Unit {0})
emit e t = (some tt, e ∷ t)

abbrev pub alert : Text → Program (Unit {0})
alert text = emit (alerted text)

abbrev pub show_in : Text → Text → Program (Unit {0})
show_in element text = emit (shown element text)

-- `if (test) …`
unfoldable pub when : Bool → Program (Unit {0}) → Program (Unit {0})
when true m = m
when false m = pure tt

unfoldable pub branch : {A : Type 0} → Bool → Program A → Program A → Program A
branch true m n = m
branch false m n = n

-- A value, or an exception.
unfoldable pub lift : {A : Type 0} → Option A → Program A
lift o t = (o, t)

abbrev pub recover : {A : Type 0} → Option A × Trace → Program A → Option A × Trace
recover (some a, t) n = (some a, t)
recover (none, t) n = n t

-- `try { m } catch (e) { n }`
unfoldable pub try : {A : Type 0} → Program A → Program A → Program A
try m n t = recover (m t) n

-- A body of `null` throws as soon as the code reads a member.
abbrev pub readable : Json → Option Json
readable j = if is_nullish j then none else some j

abbrev pub body_of : Option Json → Option Json
body_of none = none
body_of (some j) = readable j

-- `r.json()`
unfoldable pub json_of : Reply → Program Json
unfolding is_nullish
json_of r t = (body_of r.json, t)

-- `s.slice(0, n)`
unfoldable pub slice : ℕ → Text → Text
slice zero s = []
slice (suc n) [] = []
slice (suc n) (c ∷ s) = c ∷ slice n s

module _ (browser : Browser) where
  unfoldable pub fetch : Fetch → Program Reply
  fetch f t = (browser.fetch t f, fetched f ∷ t)

  unfoldable pub confirm : Text → Program Bool
  confirm text t = (some (browser.confirm t text), asked text ∷ t)

  unfoldable pub prompt : Text → Program (Option Text)
  prompt text t = (some (browser.prompt t text), asked text ∷ t)

  -- `localStorage.getItem(key) || ""`
  unfoldable pub stored_or_empty : Text → Trace → Text
  unfolding item or_text
  stored_or_empty key t = or_text (item browser.storage t key) []

  -- What a program reads of the storage when it comes to it.
  unfoldable pub stored_item : Text → Program Text
  unfolding stored_or_empty
  stored_item key t = (some (stored_or_empty key t), t)
