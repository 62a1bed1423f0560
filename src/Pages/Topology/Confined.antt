-- ===== src/Pages/Topology/Confined.antt =====
-- Which buckets the topology page shows.
use nats_kv.Prelude.{
  ◌≡◌, ◌↔◌, inl, inr, Bool-cases, not, and-eq-true, Any-or_iff, refl, sym, subst, Bool, true, false,
  Option, none, some, List, [], ◌∷◌, Any,
}
use mathlib.Core.Option.{some-injective, none-ne-some}
use nats_kv.Text.{Text, codes, same, starts_with}
use nats_kv.Text.Laws.{same_iff}
use nats_kv.Browser.Values.{Json, field, text_of, is_nullish}
use nats_kv.Pages.Topology.{has, is_shown, name_of, keep_if, kept_or_none, current_buckets}

-- A bucket whose name is allowed and does not begin with `kv-admin`
abbrev pub IsPublic : List Text → Text → Type 0
IsPublic allowed name = (starts_with (codes "kv-admin") name ≡ false) × Any (λ n. n ≡ name) allowed

-- The name of a bucket
abbrev pub IsNamed : Json → Text → Type 0
IsNamed b name = text_of (field b (codes "name")) ≡ some name

-- What is shown are the buckets with a public name, in their order, and no others.
pub data IsExact (allowed : List Text) : List Json → List Json → Type 0 where
  ends : IsExact allowed [] []
  shows :
      {b : Json} {bs out : List Json} (name : Text)
      → IsNamed b name
      → IsPublic allowed name
      → IsExact allowed bs out
      → IsExact allowed (b ∷ bs) (b ∷ out)
  hides :
      {b : Json} {bs out : List Json} (name : Text)
      → IsNamed b name
      → ¬ IsPublic allowed name
      → IsExact allowed bs out
      → IsExact allowed (b ∷ bs) out

name_of-IsNamed : (b : Json) (name : Text) → name_of b ≡ some name → IsNamed b name
name_of-IsNamed b name h = elim (Bool-cases (is_nullish b)) [
  | inl e ↦ absurd (none-ne-some name (rw e at h))
  | inr e ↦ rw e at h
]

has_iff :
    (allowed : List Text) (name : Text) → (has allowed name ≡ true) ↔ Any (λ n. n ≡ name) allowed
unfolding has
has_iff [] name = (λ h. cc, λ a. elim a [ ])
has_iff (n ∷ ns) name =
    Any-or_iff (λ x. x ≡ name) n ns (same n name) (has ns name) (same_iff n name) (has_iff ns name)

not-eq-true : (b : Bool) → not b ≡ true → b ≡ false
not-eq-true true h = sym h
not-eq-true false h = refl

is_shown_iff :
    (allowed : List Text) (name : Text) → (is_shown allowed name ≡ true) ↔ IsPublic allowed name
is_shown_iff allowed name = (to, from)
  where
    to : is_shown allowed name ≡ true → IsPublic allowed name
    to h =
        let (p, q) = and-eq-true (not (starts_with (codes "kv-admin") name)) (has allowed name) h in
        (not-eq-true (starts_with (codes "kv-admin") name) p, (has_iff allowed name).0 q)

    from : IsPublic allowed name → is_shown allowed name ≡ true
    from (p, q) = rw (p, (has_iff allowed name).1 q) refl

keep_if-IsExact :
    (allowed : List Text) (b : Json) (name : Text) (bs out : List Json)
    → IsNamed b name
    → IsExact allowed bs out
    → (shown : Bool) → is_shown allowed name ≡ shown
    → IsExact allowed (b ∷ bs) (keep_if shown b out)
keep_if-IsExact allowed b name bs out n rest true e =
    shows name n ((is_shown_iff allowed name).0 e) rest
keep_if-IsExact allowed b name bs out n rest false e =
    hides name n (λ k. let f : is_shown allowed name ≡ true = (is_shown_iff allowed name).1 k in cc)
      rest

kept_or_none-IsExact :
    (allowed : List Text) (b : Json) (bs out : List Json) (n : Option Text) (r : Option (List Json))
    → name_of b ≡ n
    → ((rest : List Json) → r ≡ some rest → IsExact allowed bs rest)
    → kept_or_none allowed b n r ≡ some out
    → IsExact allowed (b ∷ bs) out
kept_or_none-IsExact allowed b bs out none r e f h = absurd (none-ne-some _ h)
kept_or_none-IsExact allowed b bs out (some name) none e f h = absurd (none-ne-some _ h)
kept_or_none-IsExact allowed b bs out (some name) (some rest) e f h =
    subst (IsExact allowed (b ∷ bs)) (some-injective _ _ h) (
      keep_if-IsExact allowed b name bs rest (name_of-IsNamed b name e) (f rest refl)
        (is_shown allowed name) refl)

-- Of the buckets of the cluster, the page shows exactly those whose name is allowed and does not
-- begin with `kv-admin`.
pub current_buckets-IsExact :
    (allowed : List Text) (all out : List Json)
    → current_buckets allowed all ≡ some out
    → IsExact allowed all out
unfolding current_buckets
current_buckets-IsExact allowed [] out h = subst (IsExact allowed []) (some-injective _ _ h) ends
current_buckets-IsExact allowed (b ∷ bs) out h =
    kept_or_none-IsExact allowed b bs out (name_of b) (current_buckets allowed bs) refl
      (λ rest e. current_buckets-IsExact allowed bs rest e) h
