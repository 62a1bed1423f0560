-- ===== src/Prelude/Lists.antt =====
-- Lists measured and indexed by native numbers, and a predicate on every element.
use Prim.Native.Nat.{ℕ, zero, suc, ◌+◌}
use mathlib.Core.Path.{◌≡◌, refl}
use mathlib.Core.Logic.{◌↔◌}
use mathlib.Core.Bool.{Bool, true, false, ◌||◌}
use mathlib.Core.List.{List, [], ◌∷◌, ◌++◌}
use native.Mathlib.Omega.{arith}

module _ {ℓ} {A : Type ℓ} where
  abbrev pub length : List A → ℕ
  length [] = 0
  length (x ∷ xs) = suc (length xs)

  abbrev pub get_or : List A → ℕ → A → A
  get_or [] i d = d
  get_or (x ∷ xs) zero d = x
  get_or (x ∷ xs) (suc i) d = get_or xs i d

  pub length-append : (xs ys : List A) → length (xs ++ ys) ≡ length xs + length ys
  length-append [] ys = omega arith
  length-append (x ∷ xs) ys = omega (arith, length-append xs ys)

  abbrev pub All {κ} : (A → Type κ) → List A → Type κ
  All P [] = Unit {κ}
  All P (x ∷ xs) = P x × All P xs

  -- One of the elements has `P`, with the element kept.
  pub data Any {κ} (P : A → Type κ) : List A → Type (ℓ ⊔ κ) where
    here : {x : A} {xs : List A} → P x → Any P (x ∷ xs)
    there : {x : A} {xs : List A} → Any P xs → Any P (x ∷ xs)

module _ {ℓ κ} {A : Type ℓ} (P : A → Type κ) where
  pub All-append : (xs ys : List A) → All P xs → All P ys → All P (xs ++ ys)
  All-append [] ys h k = k
  All-append (x ∷ xs) ys (p, h) k = (p, All-append xs ys h k)

  pub Any-append_left : (ys : List A) {xs : List A} → Any P xs → Any P (xs ++ ys)
  Any-append_left ys (here p) = Any.here p
  Any-append_left ys (there h) = Any.there (Any-append_left ys h)

  pub Any-append_right : (xs : List A) {ys : List A} → Any P ys → Any P (xs ++ ys)
  Any-append_right [] h = h
  Any-append_right (x ∷ xs) h = Any.there (Any-append_right xs h)

  -- A loop that stops at the first element that passes a test for `P`.
  pub Any-or_iff :
      (x : A) (xs : List A) (test rest : Bool)
      → (test ≡ true) ↔ P x
      → (rest ≡ true) ↔ Any P xs
      → ((test || rest) ≡ true) ↔ Any P (x ∷ xs)
  Any-or_iff x xs test rest t r = (to test t.0, from)
    where
      to : (b : Bool) → (b ≡ true → P x) → (b || rest) ≡ true → Any P (x ∷ xs)
      to true f h = Any.here (f refl)
      to false f h = Any.there (r.0 h)

      right : (b : Bool) → rest ≡ true → (b || rest) ≡ true
      right true h = refl
      right false h = h

      from : Any P (x ∷ xs) → (test || rest) ≡ true
      from (here p) = rw (t.1 p)
      from (there h) = right test (r.1 h)
