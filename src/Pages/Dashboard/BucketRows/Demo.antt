-- ===== src/Pages/Dashboard/BucketRows/Demo.antt =====
-- The shared bucket among those of the dashboard.
use nats_kv.Prelude.{
  ℕ, max, ◌==◌, ◌+◌, ◌≤◌, ◌≡◌, refl, subst, Bool, true, Option, none, some, List, [], ◌∷◌, ◌++◌,
  arith, length, if◌then◌else◌,
}
use mathlib.Core.Option.{some-injective, none-ne-some}
use nats_kv.Text.{Text, codes, same}
use nats_kv.Browser.Values.{Json, obj, str, find_member, field}
use nats_kv.Pages.Dashboard.Placement.{same_text}
use nats_kv.Pages.Dashboard.BucketRows.{find_named, as_shared, with_demo}

abbrev pub is_named : Text → Json → Bool
is_named name b = same_text (field b (codes "name")) (str name)

abbrev pub count_named : Text → List Json → ℕ
count_named name [] = 0
count_named name (b ∷ bs) = (if is_named name b then 1 else 0) + count_named name bs

module _ (name : Text) where
  find_none : (bs : List Json) → find_named name bs ≡ some none → count_named name bs ≡ 0
  unfolding find_named
  find_none [] h = refl
  find_none (b ∷ bs) h = ground (arith, find_none bs)

  find_some :
      (bs : List Json) (b : Json) → find_named name bs ≡ some (some b) → is_named name b ≡ true
  unfolding find_named
  find_some [] b h = cc
  find_some (c ∷ bs) b h = ground (arith, find_some bs b)

  find_some_count :
      (bs : List Json) (b : Json) → find_named name bs ≡ some (some b) → 1 ≤ count_named name bs
  unfolding find_named
  find_some_count [] b h = cc
  find_some_count (c ∷ bs) b h = ground (arith, find_some_count bs b)

shared_named :
    (name : Text) (b : Json) → is_named name b ≡ true → is_named name (as_shared b) ≡ true
unfolding field find_member same
shared_named name (obj ms) h = h
shared_named name _ h = h

abbrev demo : Text
demo = codes "demo"

-- What the listing of all buckets and the tenant's own come to.
abbrev pub HasDemo : List Json → List Json → List Json → Type 0
HasDemo all details out =
    (front : List Json) × (out ≡ front ++ details)
    × (length front ≤ 1)
    × (count_named demo out ≡ (
        if count_named demo all == 0
        then count_named demo details
        else max 1 (count_named demo details)))

found :
    (all details out : List Json) (d o : Option (Option Json))
    → find_named demo all ≡ d
    → find_named demo details ≡ o
    → with_demo all details ≡ some out
    → HasDemo all details out
unfolding with_demo
found all details out none o e f h = absurd (none-ne-some _ (rw e at h))
found all details out (some none) o e f h =
    let same = some-injective _ _ (rw e at h) in
    subst (HasDemo all details) same ([], refl, omega arith, rw (find_none demo all e) refl)
found all details out (some (some b)) none e f h = absurd (none-ne-some _ (rw (e, f) at h))
found all details out (some (some b)) (some none) e f h =
    let same = some-injective _ _ (rw (e, f) at h) in
    subst (HasDemo all details) same (
      as_shared b ∷ [],
      refl,
      omega arith,
      ground (
        arith,
        shared_named demo b (find_some demo all b e),
        find_some_count demo all b e,
        find_none demo details f,
      ),
    )
found all details out (some (some b)) (some (some c)) e f h =
    let same = some-injective _ _ (rw (e, f) at h) in
    subst (HasDemo all details) same (
      [],
      refl,
      omega arith,
      ground (arith, find_some_count demo all b e, find_some_count demo details c f),
    )

-- The table lists the tenant's buckets in their order, with at most one bucket before them; and if
-- any bucket is named `demo`, one is listed: the tenant's own if they have one, and else the first
-- of all.
pub with_demo_once :
    (all details out : List Json) → with_demo all details ≡ some out → HasDemo all details out
with_demo_once all details out h = found all details out _ _ refl refl h
