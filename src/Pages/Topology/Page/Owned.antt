-- ===== src/Pages/Topology/Page/Owned.antt =====
-- Which buckets the topology page takes for the visitor's own.
use nats_kv.Prelude.{
  ◌≡◌, refl, ap, sym, subst, ◌∙◌, inl, inr, Bool-cases, Option-cases, true, false, Option, none,
  some, List, [], ◌∷◌, ◌++◌,
}
use mathlib.Core.Option.{some-injective}
use nats_kv.Text.{Text, codes, is_empty}
use nats_kv.Browser.{
  Fetch, Reply, Trace, Browser, body_of, fetch, branch, lift, try, json_of, ◌>>=◌,
}
use nats_kv.Browser.Values.{Json, field, list_of, text_of}
use nats_kv.Pages.Topology.{texts_of, own_names}

-- The texts of a list, in their order, and no others
pub data IsTexts : List Json → List Text → Type 0 where
  ends : IsTexts [] []
  text :
      {j : Json} {js : List Json} {s : Text} {own : List Text}
      → text_of j ≡ some s
      → IsTexts js own
      → IsTexts (j ∷ js) (s ∷ own)
  other :
      {j : Json} {js : List Json} {own : List Text}
      → text_of j ≡ none
      → IsTexts js own
      → IsTexts (j ∷ js) own

IsTexts-head :
    (j : Json) (js : List Json) (rest : List Text) (o : Option Text)
    → text_of j ≡ o
    → IsTexts js rest
    → IsTexts (j ∷ js) (elim o [ none ↦ rest | some s ↦ s ∷ rest ])
IsTexts-head j js rest none e h = other e h
IsTexts-head j js rest (some s) e h = text e h

texts_of-IsTexts : (js : List Json) → IsTexts js (texts_of js)
unfolding texts_of
texts_of-IsTexts [] = ends
texts_of-IsTexts (j ∷ js) = IsTexts-head j js (texts_of js) (text_of j) refl (texts_of-IsTexts js)

-- The question for the buckets of the tenant with this key
abbrev pub own_question : Text → Fetch
own_question key = record {
  url = codes "/api/control/v1/me/buckets";
  method = codes "GET";
  headers = (codes "Authorization", codes "Bearer " ++ key) ∷ [];
  body = none;
}

module _ (browser : Browser) where
  -- The names that belong to this key, when it is asked for them after the trace `t`: none without
  -- a key, or where the answer is missing, refused, no JSON or no list; or else exactly the texts
  -- of the list of the answer.
  pub data IsOwn (key : Text) (t : Trace) : List Text → Type 0 where
    keyless : key ≡ [] → IsOwn key t []
    unanswered : browser.fetch t (own_question key) ≡ none → IsOwn key t []
    refused :
        (r : Reply) → browser.fetch t (own_question key) ≡ some r → r.ok ≡ false → IsOwn key t []
    unread :
        (r : Reply)
        → browser.fetch t (own_question key) ≡ some r
        → body_of r.json ≡ none
        → IsOwn key t []
    unlisted :
        (r : Reply) (j : Json)
        → browser.fetch t (own_question key) ≡ some r
        → body_of r.json ≡ some j
        → list_of (field j (codes "buckets")) ≡ none
        → IsOwn key t []
    listed :
        (r : Reply) (j : Json) (list : List Json) {own : List Text}
        → (key ≡ [] → ⊥)
        → browser.fetch t (own_question key) ≡ some r
        → r.ok ≡ true
        → body_of r.json ≡ some j
        → list_of (field j (codes "buckets")) ≡ some list
        → IsTexts list own
        → IsOwn key t own

  names_found :
      (key : Text) (t : Trace)
      → (own : List Text) × ((own_names browser key t).0 ≡ some own) × IsOwn key t own
  unfolding own_names is_empty branch try fetch ◌>>=◌ json_of lift
  names_found [] t = ([], refl, keyless refl)
  names_found (c ∷ k) t =
      let key = c ∷ k in
      elim (Option-cases (browser.fetch t (own_question key))) [
        | inl e ↦ ([], rw e refl, unanswered e)
        | inr (r, e) ↦ elim (Bool-cases r.ok) [
          | inr down ↦ ([], rw (e, down) refl, refused r e down)
          | inl ok ↦ elim (Option-cases (body_of r.json)) [
            | inl b ↦ ([], rw (e, ok, b) refl, unread r e b)
            | inr (j, b) ↦ elim (Option-cases (list_of (field j (codes "buckets")))) [
              | inl l ↦ ([], rw (e, ok, b, l) refl, unlisted r j e b l)
              | inr (list, l) ↦ (
                texts_of list,
                rw (e, ok, b, l) refl,
                listed r j list (λ h. cc) e ok b l (texts_of-IsTexts list),
              )
            ]
          ]
        ]
      ]

  pub own_names-IsOwn :
      (key : Text) (t u : Trace) (own : List Text)
      → own_names browser key t ≡ (some own, u)
      → IsOwn key t own
  own_names-IsOwn key t u own h =
      let (found, e, is_own) = names_found key t in
      subst (IsOwn key t) (some-injective _ _ (sym e ∙ ap (λ p. p.0) h)) is_own
