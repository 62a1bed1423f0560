-- ===== src/AdminPage/Markup.antt =====
-- What a visitor's words change in the table of the invite requests.
use nats_kv.Prelude.{ℕ, ◌+◌, ◌≡◌, ◌==◌, refl, subst, [], ◌∷◌, ◌++◌, All, arith, if◌then◌else◌}
use nats_kv.Text.{Text}
use nats_kv.AdminPage.{escape_html}
use nats_kv.AdminPage.Rows.{request_markup, request_buttons}
use nats_kv.AdminPage.Html.{IsInert, escape_html-IsInert}

-- How often a character stands in a text.
unfoldable pub count : ℕ → Text → ℕ
count c [] = 0
count c (d ∷ s) = (if d == c then 1 else 0) + count c s

pub count-append : (c : ℕ) (s t : Text) → count c (s ++ t) ≡ count c s + count c t
unfolding count
count-append c [] t = omega arith
count-append c (d ∷ s) t = omega (arith, count-append c s t)

other_char : (c d n : ℕ) → ¬ (d ≡ c) → (if d == c then 1 else 0) + n ≡ n
other_char c d n h = ground arith

count_inert : (c : ℕ) (s : Text) → ¬ (IsInert c) → All IsInert s → count c s ≡ 0
unfolding count
count_inert c [] h k = refl
count_inert c (d ∷ s) h (i, k) =
    rw (other_char c d (count c s) (λ e. h (subst IsInert e i)), count_inert c s h k) refl

module _ (c : ℕ) (h : ¬ (IsInert c)) where
  count-escape_html : (s : Text) → count c (escape_html s) ≡ 0
  count-escape_html s = count_inert c (escape_html s) h (escape_html-IsInert s)

  -- Whatever a visitor writes as name, email and reason, a pending request's row has as many of
  -- each character that could open or close a tag or end an attribute's value as the row of one
  -- who wrote nothing.
  pub count-request_markup :
      (date name email reason status id : Text)
      → count c (request_markup date name email reason status (request_buttons id email))
        ≡ count c (request_markup date [] [] [] status (request_buttons id []))
  unfolding request_markup
  count-request_markup date name email reason status id = simp (count-append c, count-escape_html)
