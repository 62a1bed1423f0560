-- ===== src/AdminPage/Html.antt =====
-- What `escapeHtml` writes.
use nats_kv.Prelude.{ℕ, ◌≢◌, [], ◌∷◌, arith, All, All-append}
use nats_kv.Text.{Text}
use nats_kv.AdminPage.{escape_char, escape_html}

-- A character that neither opens or closes a tag nor ends an attribute's value.
abbrev pub IsInert : ℕ → Type 0
IsInert c = (c ≢ b'<') × (c ≢ b'>') × (c ≢ b'"') × (c ≢ b'\'')

escape_char-IsInert : (c : ℕ) → All IsInert (escape_char c)
unfolding escape_char
escape_char-IsInert c = ground arith

-- What a visitor wrote can neither open a tag nor leave an attribute's value once it is escaped.
pub escape_html-IsInert : (s : Text) → All IsInert (escape_html s)
unfolding escape_html
escape_html-IsInert [] = tt
escape_html-IsInert (c ∷ s) =
    All-append IsInert (escape_char c) (escape_html s) (escape_char-IsInert c)
      (escape_html-IsInert s)
