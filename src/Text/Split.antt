-- ===== src/Text/Split.antt =====
-- Splitting a text at a separator.
use nats_kv.Prelude.{
  ℕ, ◌≡◌, refl, ◌≢◌, inl, inr, List, [], ◌∷◌, ◌++◌, arith, ◌==◌, ==_refl, Bool-cases, All, Any,
  append_assoc, Any-append_right,
}
use nats_kv.Text.{Text, split, join}

-- The separator does not stand in the text.
abbrev pub Lacks : ℕ → Text → Type 0
Lacks sep s = All (λ c. c ≢ sep) s

-- A split has a first part.
split-cons : (sep : ℕ) (s : Text) → (w : Text) × (ws : List Text) × (split sep s ≡ w ∷ ws)
unfolding split
split-cons sep [] = ([], [], refl)
split-cons sep (c ∷ s) = elim (Bool-cases (c == sep)) [
  | inl e ↦ ([], split sep s, rw e)
  | inr e ↦ let (w, ws, q) = split-cons sep s in (c ∷ w, ws, rw (e, q))
]

-- A separator cuts the text in two, which are split apart.
pub split-append : (sep : ℕ) (s t : Text) → split sep (s ++ sep ∷ t) ≡ split sep s ++ split sep t
unfolding split
split-append sep [] t = ground (arith, ==_refl sep)
split-append sep (c ∷ s) t = elim (Bool-cases (c == sep)) [
  | inl e ↦ rw (e, split-append sep s t)
  | inr e ↦ let (w, ws, q) = split-cons sep s in rw (e, split-append sep s t, q)
]

pub split-Lacks : (sep : ℕ) (s : Text) → Lacks sep s → split sep s ≡ s ∷ []
unfolding split
split-Lacks sep [] h = refl
split-Lacks sep (c ∷ s) (p, h) = ground (arith, split-Lacks sep s h)

-- What is joined with a separator is among the parts of the split, where `gap` follows each
-- separator, and `P` does not see a `gap` in front.
module _ {κ} (P : Text → Type κ) (sep : ℕ) (gap s : Text) where
  -- `lead` is the gap, or nothing in front of the first part.
  split-join_from :
      (lead : Text) (before after : List Text)
      → P (lead ++ s)
      → Lacks sep (lead ++ s)
      → P (gap ++ s)
      → Lacks sep (gap ++ s)
      → Any P (split sep (lead ++ join (sep ∷ gap) (before ++ s ∷ after)))
  unfolding join
  split-join_from lead [] [] p l q m = rw (split-Lacks sep (lead ++ s) l) (Any.here p)
  split-join_from lead [] (v ∷ vs) p l q m =
      rw (← append_assoc, split-append sep (lead ++ s), split-Lacks sep (lead ++ s) l) (Any.here p)
  split-join_from lead (b ∷ []) after p l q m =
      rw (← append_assoc, split-append sep (lead ++ b))
        (Any-append_right P (split sep (lead ++ b)) (split-join_from gap [] after q m q m))
  split-join_from lead (b ∷ c ∷ bs) after p l q m =
      rw (← append_assoc, split-append sep (lead ++ b))
        (Any-append_right P (split sep (lead ++ b)) (split-join_from gap (c ∷ bs) after q m q m))

  pub Any-split-join :
      (before after : List Text)
      → P s
      → Lacks sep s
      → P (gap ++ s)
      → Lacks sep (gap ++ s)
      → Any P (split sep (join (sep ∷ gap) (before ++ s ∷ after)))
  Any-split-join before after p l q m = split-join_from [] before after p l q m
