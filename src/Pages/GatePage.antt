-- ===== src/Pages/GatePage.antt =====
-- The gate page of ui/nats-kv-user/src/lib.rs: a visitor asks for an invite, or pastes a token.
pub mod Tokens
pub mod Invite
use nats_kv.Prelude.{
  ℕ, Bool, true, false, not, ◌&&◌, ◌||◌, Option, none, some, List, [], ◌∷◌, ◌++◌, reverse, ◌==◌,
  if◌then◌else◌,
}
use nats_kv.Text.{Text, codes, is_empty, is_whitespace}
use nats_kv.Pages.Uri.{encode_uri_component}

-- `String.prototype.trim` takes white space and line ends, as ECMA-262 lists them.
unfoldable is_js_space : ℕ → Bool
is_js_space c = (is_whitespace c && not (c == 0x85)) || c == 0xFEFF

js_trim_start : Text → Text
unfolding is_js_space
js_trim_start [] = []
js_trim_start (c ∷ s) = if is_js_space c then js_trim_start s else c ∷ s

unfoldable pub js_trim : Text → Text
unfolding js_trim_start
js_trim s = reverse (js_trim_start (reverse (js_trim_start s)))

-- `useToken`, with the address that the browser is sent to, if any.
unfoldable pub use_token : Text → Option Text
use_token pasted =
    let t = js_trim pasted in
    if is_empty t then none else some (codes "/?access=" ++ encode_uri_component t)
