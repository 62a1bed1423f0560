-- ===== src/Pages/Play/Answer/Inert.antt =====
-- What a stored value changes in the answer that the playground shows.
use nats_kv.Prelude.{
  ℕ, ◌+◌, ◌≡◌, ◌==◌, refl, ap, sym, ◌∙◌, Bool-cases, inl, inr, [], ◌∷◌, if◌then◌else◌,
}
use nats_kv.Text.{Text, codes, is_empty}
use nats_kv.Browser.Values.{Json}
use nats_kv.AdminPage.Markup.{count, count-append}
use nats_kv.Pages.Play.{Operation}
use nats_kv.Pages.Play.Answer.{escape_less, body_block, answer_stats, Platform, answer_markup}

count-escape_less : (s : Text) → count b'<' (escape_less s) ≡ 0
unfolding escape_less count
count-escape_less [] = refl
count-escape_less (c ∷ s) =
    let r = count-escape_less s in
    elim (Bool-cases (c == b'<')) [ inl e ↦ rw (e, r) refl | inr e ↦ rw (e, e, r) refl ]

abbrev if_any : Text → ℕ
if_any body = if is_empty body then 0 else 2

count-body_block : (body : Text) → count b'<' (body_block body) ≡ if_any body
unfolding body_block is_empty count
count-body_block [] = refl
count-body_block (c ∷ s) =
    let r = count-escape_less (c ∷ s) in
    let q = count-append b'<' (escape_less (c ∷ s)) (codes "</pre>") in rw (q, r) refl

module _ (platform : Platform) where
  -- Whatever value is stored, the answer that the playground shows of it opens as many tags as that
  -- of any other value; only whether there is a value shows.
  pub count-answer_markup :
      (o : Operation) (ms : ℕ) (j : Json) (body other : Text)
      → is_empty body ≡ is_empty other
      → count b'<' (answer_markup platform o ms j body)
        ≡ count b'<' (answer_markup platform o ms j other)
  unfolding answer_markup
  count-answer_markup o ms j body other h =
      let p = count-append b'<' (answer_stats platform o ms j) in
      p (body_block body)
      ∙ ap (λ n. count b'<' (answer_stats platform o ms j) + n)
          (count-body_block body ∙ ap (λ e. if e then 0 else 2) h ∙ sym (count-body_block other))
      ∙ sym (p (body_block other))
