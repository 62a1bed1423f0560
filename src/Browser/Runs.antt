-- ===== src/Browser/Runs.antt =====
-- What a program that did not throw went through.
use nats_kv.Prelude.{◌≡◌, refl, ap, ◌⊎◌, inl, inr, Bool, true, false, Option, none, some, [], ◌∷◌}
use mathlib.Core.Option.{none-ne-some}
use nats_kv.Text.{Text, is_empty}
use nats_kv.UserApp.Outbound.{given}
use nats_kv.Browser.{
  Browser, item, or_text, stored_or_empty, Trace, Program, resume, ◌>>=◌, branch, recover, try,
}

resume-some :
    {A B : Type 0} (r : Option A) (f : A → Program B) (t u : Trace) (b : B)
    → resume r f t ≡ (some b, u)
    → (a : A) × (r ≡ some a) × (f a t ≡ (some b, u))
resume-some none f t u b h = absurd (none-ne-some b (ap (λ p. p.0) h))
resume-some (some a) f t u b h = (a, refl, h)

-- The value that it gave
pub value_eq :
    {A : Type 0} {o : Option A} {t u : Trace} {b : A}
    → (◌≡◌ {A = Option A × Trace} (o, t) (some b, u))
    → o ≡ some b
value_eq h = ap (λ p. p.0) h

-- Its first part gave a value to what follows.
pub bind-some :
    {A B : Type 0} (m : Program A) (f : A → Program B) (t u : Trace) (b : B)
    → (m >>= f) t ≡ (some b, u)
    → (a : A) × (t' : Trace) × (m t ≡ (some a, t')) × (f a t' ≡ (some b, u))
unfolding ◌>>=◌
bind-some m f t u b h =
    let (a, e, rest) = resume-some (m t).0 f (m t).1 u b h in
    (a, (m t).1, ap (λ o. (o, (m t).1)) e, rest)

-- It took one of its branches.
pub branch-some :
    {A : Type 0} (test : Bool) (m n : Program A) (t u : Trace) (a : A)
    → branch test m n t ≡ (some a, u)
    → ((test ≡ true) × (m t ≡ (some a, u))) ⊎ ((test ≡ false) × (n t ≡ (some a, u)))
unfolding branch
branch-some true m n t u a h = inl (refl, h)
branch-some false m n t u a h = inr (refl, h)

recover-some :
    {A : Type 0} (r : Option A × Trace) (n : Program A) (u : Trace) (a : A)
    → recover r n ≡ (some a, u)
    → (r ≡ (some a, u)) ⊎ ((r.0 ≡ none) × (n r.1 ≡ (some a, u)))
recover-some (some a, t) n u b h = inl h
recover-some (none, t) n u b h = inr (refl, h)

-- What it tried worked, or the handler did.
pub try-some :
    {A : Type 0} (m n : Program A) (t u : Trace) (a : A)
    → try m n t ≡ (some a, u)
    → (m t ≡ (some a, u)) ⊎ (((m t).0 ≡ none) × (n (m t).1 ≡ (some a, u)))
unfolding try
try-some m n t u a h = recover-some (m t) n u a h

-- What a program reads of the storage.
or_text_lem : (o : Option Text) → or_text o [] ≡ given o []
unfolding or_text is_empty
or_text_lem none = refl
or_text_lem (some []) = refl
or_text_lem (some (c ∷ s)) = refl

pub stored_or_empty_lem :
    (browser : Browser) (t : Trace) (key : Text)
    → stored_or_empty browser key t ≡ given (item browser.storage t key) []
unfolding stored_or_empty
stored_or_empty_lem browser t key = or_text_lem (item browser.storage t key)
