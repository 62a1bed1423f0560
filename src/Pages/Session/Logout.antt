-- ===== src/Pages/Session/Logout.antt =====
-- `confirmLogout` of NAV_JS in ui/nats-kv-user/src/lib.rs: the dialog, and what its buttons do. The
-- white space between tags is left out.
use nats_kv.Prelude.{
  ◌≡◌, refl, Bool, true, false, Bool-cases, inl, inr, List, [], ◌∷◌, if◌then◌else◌,
}
use nats_kv.Text.{Text, codes, is_empty, concat}
use nats_kv.Browser.{
  Browser, Trace, item, Program, pure, ◌>>=◌, emit, when, show_in, stored_or_empty, stored_item,
}
use nats_kv.Pages.Session.{key_item, user_key, log_out}
use nats_kv.Pages.Session.Nav.{copy_key}

-- The part of the dialog that shows the key, if there is one
unfoldable pub key_block : Text → Text
key_block k =
    if is_empty k
    then concat (
        codes
          "<p style=\"margin:12px 0;color:#8b949e\">No KV key is stored in this browser — logging "
        ∷ codes "out just clears the UI gate cookie.</p>"
        ∷ [])
    else concat (
        codes
          "<p style=\"margin:12px 0 4px;color:#d29922\"><b>Save your KV bearer key first.</b> It's "
        ∷ codes
            "what authenticates every API call — losing it means asking the admin for a new invite "
        ∷ codes "to get back in.</p><input id=\"lo-key\" readonly value=\""
        ∷ k
        ∷ codes "\" onclick=\"this.select()\" style=\"width:100%;background:#0d1117;color:#3fb950;"
        ∷ codes "border:1px solid #30363d;border-radius:4px;padding:8px;"
        ∷ codes "font-family:ui-monospace,monospace;font-size:12px;box-sizing:border-box;\" />"
        ∷ codes "<div style=\"margin-top:8px\"><button id=\"lo-copy\" style=\"background:#58a6ff;"
        ∷ codes "color:#0d1117;border:0;padding:6px 12px;border-radius:4px;font-weight:600;"
        ∷ codes "font-family:inherit;cursor:pointer\">Copy key</button><span id=\"lo-status\" "
        ∷ codes "style=\"margin-left:8px;font-size:12px;color:#8b949e\"></span></div>"
        ∷ codes "<label style=\"display:flex;align-items:center;gap:6px;margin-top:14px;"
        ∷ codes "font-size:12px;color:#c9d1d9\"><input type=\"checkbox\" id=\"lo-wipe\" "
        ∷ codes "style=\"width:auto\"> also wipe my saved KV key from this browser</label>"
        ∷ [])

unfoldable pub dialog : Text → Text
unfolding key_block
dialog k = concat (
    codes "<div style=\"background:#161b22;border:1px solid #f85149;border-radius:6px;"
    ∷ codes "padding:20px;max-width:560px;width:90%;font-family:ui-monospace,monospace;"
    ∷ codes "color:#c9d1d9;\"><h3 style=\"margin:0 0 8px;color:#f85149\">Logging out</h3>"
    ∷ codes "<p style=\"margin:0;color:#8b949e;font-size:13px\">This clears the UI gate cookie and "
    ∷ codes "sends you back to the request-invite page. <em>It does not</em> revoke your KV bearer "
    ∷ codes "key.</p>"
    ∷ key_block k
    ∷ codes "<div style=\"display:flex;gap:8px;margin-top:16px;justify-content:flex-end\">"
    ∷ codes "<button id=\"lo-cancel\" style=\"background:#21262d;color:#c9d1d9;"
    ∷ codes "border:1px solid #30363d;padding:8px 14px;border-radius:4px;font-family:inherit;"
    ∷ codes "cursor:pointer\">Cancel</button><button id=\"lo-go\" style=\"background:#f85149;"
    ∷ codes "color:#0d1117;border:0;padding:8px 14px;border-radius:4px;font-weight:600;"
    ∷ codes "font-family:inherit;cursor:pointer\">Log out</button></div></div>"
    ∷ [])

-- What the visitor does in the dialog: the clipboard may refuse, and the box may be ticked.
pub data Choice : Type 0 where
  cancel : Choice
  copy : Bool → Choice
  go : Bool → Choice

-- The handlers of the buttons, of a dialog that was opened with the key `k`; there is no button to
-- copy without a key.
unfoldable pub choose : Text → Choice → Program (Unit {0})
choose k cancel = show_in (codes "logout-dialog") []
choose k (copy taken) = if is_empty k then pure tt else copy_key taken
choose k (go wipe) = log_out k wipe

unfoldable pub choose_all : Text → List Choice → Program (Unit {0})
unfolding choose
choose_all k [] = pure tt
choose_all k (c ∷ cs) = do _ ← choose k c; choose_all k cs

-- `confirmLogout`, and what the visitor then does
unfoldable pub confirm_logout : Browser → List Choice → Program (Unit {0})
unfolding dialog choose_all
confirm_logout browser choices = do
  k ← stored_item browser key_item
  _ ← show_in (codes "logout-dialog") (dialog k)
  choose_all k choices

-- The box is not ticked when the visitor logs out.
abbrev pub Spares : Choice → Type 0
Spares (go true) = Unit {0} → ⊥
Spares _ = Unit {0}

choose-user_key :
    (browser : Browser) (k : Text) (c : Choice) (t : Trace)
    → Spares c
    → user_key browser (choose k c t).1 ≡ user_key browser t
unfolding choose user_key stored_or_empty copy_key log_out item when emit ◌>>=◌
choose-user_key browser k cancel t h = refl
choose-user_key browser k (copy true) t h = elim (Bool-cases (is_empty k)) [
  | inl e ↦ rw e refl
  | inr e ↦ rw e refl
]
choose-user_key browser k (copy false) t h = elim (Bool-cases (is_empty k)) [
  | inl e ↦ rw e refl
  | inr e ↦ rw e refl
]
choose-user_key browser k (go true) t h = absurd (h tt)
choose-user_key browser k (go false) t h = elim (Bool-cases (is_empty k)) [
  | inl e ↦ rw e refl
  | inr e ↦ rw e refl
]
