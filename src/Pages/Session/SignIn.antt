-- ===== src/Pages/Session/SignIn.antt =====
-- Who a browser is signed in as, after each way to change it.
use nats_kv.Prelude.{
  ◌≡◌, refl, ap, ◌∙◌, Bool, true, false, not, ◌&&◌, Option, none, some, [], ◌∷◌, ◌++◌,
  if◌then◌else◌,
}
use nats_kv.Text.{Text, codes, same, is_empty}
use nats_kv.Browser.{
  Fetch, Reply, fetched, Trace, Browser, item, or_text, Program, ◌>>=◌, emit, when, alert, branch,
  resume, fetch, json_of, body_of, stored_or_empty,
}
use nats_kv.Browser.Values.{Json, field, show}
use nats_kv.Pages.GatePage.{js_trim}
use nats_kv.Pages.Session.{
  user_key, user_tenant, save_trimmed, save_key, clear_key, log_out, claim_call, do_claim,
  keep_claim, authed_fetch,
}

-- What a visitor can do about the key and the tenant.
pub data Change : Type 0 where
  saves claims : Text → Text → Change
  clears : Change
  logs_out : Bool → Change

module _ (browser : Browser) where
  abbrev pub run : Change → Program (Unit {0})
  run (saves key tenant) = save_key key tenant
  run clears = clear_key
  run (logs_out wipe) = λ t. log_out (user_key browser t) wipe t
  run (claims token tag) = do_claim browser token tag

  abbrev pub session : Trace → Text × Text
  session t = (user_key browser t, user_tenant browser t)

-- The key and the tenant of an invite that was claimed.
abbrev pub claimed : Bool → Option Json → Text × Text → Text × Text
claimed true (some j) s = (show (field j (codes "key")), show (field j (codes "tenant_id")))
claimed _ _ s = s

abbrev pub replied : Option Reply → Text × Text → Text × Text
replied none s = s
replied (some r) s = claimed r.ok (body_of r.json) s

-- What each should do to a key and a tenant.
abbrev pub changed : Change → Option Reply → Text × Text → Text × Text
changed (saves key tenant) reply (k, t) =
    (or_text (some (js_trim key)) k, or_text (some (js_trim tenant)) t)
changed clears reply s = ([], [])
changed (logs_out wipe) reply (k, t) = if not (is_empty k) && wipe then ([], []) else (k, t)
changed (claims token tag) reply s = replied reply s

abbrev pub answer : Browser → Change → Trace → Option Reply
answer browser (claims token tag) t = browser.fetch t (claim_call browser token (js_trim tag))
answer browser _ t = none

or_text_nil : (a : Text) → or_text (some a) [] ≡ a
unfolding or_text is_empty
or_text_nil [] = refl
or_text_nil (c ∷ a) = refl

module _ (browser : Browser) (text : Reply → Json → Text) where
  session_of_branch :
      (r : Reply) (ok : Bool) (j : Option Json) (t : Trace)
      → session browser (resume j (λ j. branch ok (keep_claim j) (alert (text r j))) t).1
        ≡ claimed ok j (session browser t)
  unfolding user_key user_tenant stored_or_empty item same branch keep_claim ◌>>=◌ emit
  session_of_branch r true none t = refl
  session_of_branch r false none t = refl
  session_of_branch r true (some j) t =
      rw
        (
          or_text_nil (show (field j (codes "key"))),
          or_text_nil (show (field j (codes "tenant_id"))),
        )
        refl
  session_of_branch r false (some j) t = refl

  session_of_reply :
      (o : Option Reply) (t : Trace)
      → session browser
          (resume o (λ r. json_of r >>= (λ j. branch r.ok (keep_claim j) (alert (text r j)))) t).1
        ≡ replied o (session browser t)
  unfolding ◌>>=◌ json_of
  session_of_reply none t = refl
  session_of_reply (some r) t = session_of_branch r r.ok (body_of r.json) t

module _ (browser : Browser) where
  session_saved :
      (k u : Text) (t : Trace)
      → session browser (save_trimmed k u t).1
        ≡ (or_text (some k) (user_key browser t), or_text (some u) (user_tenant browser t))
  unfolding save_trimmed user_key user_tenant stored_or_empty item same when ◌>>=◌ emit or_text
      is_empty
  session_saved [] [] t = refl
  session_saved [] (d ∷ u) t = refl
  session_saved (c ∷ k) [] t = refl
  session_saved (c ∷ k) (d ∷ u) t = refl

  session_out :
      (k : Text) (wipe : Bool) (t : Trace)
      → session browser (log_out k wipe t).1
        ≡ (if not (is_empty k) && wipe then ([], []) else session browser t)
  unfolding log_out user_key user_tenant stored_or_empty item same when ◌>>=◌ emit or_text is_empty
  session_out [] wipe t = refl
  session_out (c ∷ k) true t = refl
  session_out (c ∷ k) false t = refl

-- Saving a key, clearing it, claiming an invite and logging out do to the stored key and tenant
-- what the specification says, whatever was done before and whatever the control plane answers: a
-- claim that fails, or whose answer is no JSON, keeps them.
pub session-run :
    (browser : Browser) (c : Change) (t : Trace)
    → session browser (run browser c t).1 ≡ changed c (answer browser c t) (session browser t)
unfolding save_key clear_key do_claim fetch user_key user_tenant stored_or_empty item same ◌>>=◌
    emit
session-run browser (saves key tenant) t = session_saved browser (js_trim key) (js_trim tenant) t
session-run browser clears t = refl
session-run browser (logs_out wipe) t = session_out browser (user_key browser t) wipe t
session-run browser (claims token tag) t =
    session_of_reply browser _ (browser.fetch t (claim_call browser token (js_trim tag))) _

-- Once a claim has succeeded, every call that the pages make by `authedFetch` carries the key that
-- the control plane gave, unless that is empty.
pub authed_fetch_claimed :
    (browser : Browser) (token tag : Text) (t : Trace) (r : Reply) (j : Json) (f : Fetch)
    → browser.fetch t (claim_call browser token (js_trim tag)) ≡ some r
    → r.ok ≡ true
    → body_of r.json ≡ some j
    → is_empty (show (field j (codes "key"))) ≡ false
    → let t' = (do_claim browser token tag t).1 in
      (authed_fetch browser f t').1
      ≡ fetched (record f {
        headers = f.headers ++ (codes "X-KV-Key", show (field j (codes "key"))) ∷ [];
      })
        ∷ t'
unfolding authed_fetch fetch
authed_fetch_claimed browser token tag t r j f sent ok body key =
    let e : user_key browser (do_claim browser token tag t).1 ≡ show (field j (codes "key")) =
      ap (λ s. s.0) (session-run browser (claims token tag) t) ∙ (rw (sent, ok, body) refl) in
    rw (e, key) refl
