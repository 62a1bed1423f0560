-- ===== src/Gate/Cookies.antt =====
-- The cookie that a redirect sets, on its way through the browser and back.
use nats_kv.Prelude.{
  ◌≡◌, refl, ◌∙◌, true, inl, some, List, [], ◌∷◌, ◌++◌, arith, ◌==◌, if◌then◌else◌, append_assoc,
  Any,
}
use nats_kv.Text.{Text, codes, trim, is_whitespace, join, split}
use nats_kv.Text.Split.{Lacks, Any-split-join}
use nats_kv.Spin.{Request}
use nats_kv.Gate.{is_authed, gate_cookie}
use nats_kv.Gate.Laws.{IsCookie, is_authed_iff}

-- What a browser keeps of a `Set-Cookie` header, and sends back (RFC 6265, sections 5.2 and 5.4):
-- what stands in front of the first semicolon.
unfoldable pub kept : Text → Text
kept [] = []
kept (c ∷ s) = if c == b';' then [] else c ∷ kept s

kept-append : (p s : Text) → Lacks b';' p → kept (p ++ b';' ∷ s) ≡ p
unfolding kept
kept-append [] s h = refl
kept-append (c ∷ p) s (q, h) = ground (arith, kept-append p s h)

abbrev pub pair : Text → Text → Text
pair name token = (name ++ codes "=") ++ token

pub kept-gate_cookie :
    (name token : Text)
    → Lacks b';' (pair name token)
    → kept (gate_cookie name token) ≡ pair name token
kept-gate_cookie name token h =
    rw (← append_assoc, ← append_assoc)
      (kept-append (pair name token)
        (codes " Path=/; Max-Age=1209600; HttpOnly; SameSite=Lax; Secure") h)

-- A space in front is trimmed away.
trim-space : (s : Text) → trim (b' ' ∷ s) ≡ trim s
unfolding trim is_whitespace
trim-space s = refl

-- Whatever other cookies the browser sends along, the one that it kept of the gate's `Set-Cookie`
-- opens the gate, if name and token hold no semicolon and have no white space at their ends.
pub cookie_returns :
    (name token : Text) (before after : List Text) (req : Request)
    → Lacks b';' (pair name token)
    → trim (pair name token) ≡ pair name token
    → req.header (codes "cookie")
      ≡ some (join (codes "; ") (before ++ kept (gate_cookie name token) ∷ after))
    → is_authed name token req ≡ true
cookie_returns name token before after req lacks trimmed sent =
    (is_authed_iff name token req).1 (inl (_, sent, rw (kept-gate_cookie name token lacks) among))
  where
    p : Text
    p = pair name token

    among : Any (IsCookie name token) (split b';' (join (codes "; ") (before ++ p ∷ after)))
    among =
        Any-split-join (IsCookie name token) b';' (codes " ") p before after trimmed lacks
          (trim-space p ∙ trimmed) (omega arith, lacks)
