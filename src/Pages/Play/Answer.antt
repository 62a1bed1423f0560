-- ===== src/Pages/Play/Answer.antt =====
-- `fetchOp` of the playground of ui/nats-kv-user/src/lib.rs, which makes a call and shows its
-- answer, and the three demonstrations. White space between tags is left out.
pub mod Inert
use nats_kv.Prelude.{
  ℕ, zero, suc, ◌+◌, ◌-◌, Bool, true, false, Option, none, some, List, [], ◌∷◌, ◌++◌, ◌==◌,
  if◌then◌else◌,
}
use nats_kv.Text.{concat, Text, codes, is_empty, decimal}
use nats_kv.Browser.{
  Fetch, Reply, Trace, Browser, Program, pure, ◌>>=◌, lift, show_in, json_of, fetch,
}
use nats_kv.Browser.Values.{Json, field, truthy, show, show_or}
use nats_kv.Pages.Uri.{encode_uri_component}
use nats_kv.Pages.Session.{authed_fetch}
use nats_kv.Pages.Play.{Backend, nats, cosmos, Operation, op_fetch}

-- What the platform computes: the clock in microseconds, `atob`, and the texts of times.
pub record Platform : Type 0 where
  pub now : Trace → ℕ
  -- `Date.now()`
  pub date : Trace → ℕ
  pub atob : Text → Option Text
  -- `(j / 1000).toFixed(2)` and `(j / 1000).toFixed(1)`
  pub two_digits : Json → Text
  pub one_digit : Json → Text
  -- `ms.toFixed(1)`, and `(ms - parseFloat(upstream)).toFixed(1)`
  pub elapsed : ℕ → Text
  pub overhead : ℕ → Text → Text

-- `bodyText.replace(/</g, '&lt;')`
unfoldable pub escape_less : Text → Text
escape_less [] = []
escape_less (c ∷ s) =
    let rest = escape_less s in if c == b'<' then codes "&lt;" ++ rest else c ∷ rest

abbrev pub stat : Text → Text → Text
stat name value = concat (
    codes "<div class=\"stat\"><span>"
    ∷ name
    ∷ codes "</span><span>"
    ∷ value
    ∷ codes "</span></div>"
    ∷ [])

-- A line of a member, if the answer has it
abbrev pub stat_of : Text → Json → Text → Text
stat_of name value unit = if truthy value then stat name (show value ++ unit) else []

abbrev error_stat : Json → Text
error_stat e =
    if truthy e
    then concat (
        codes "<div class=\"stat\"><span>error</span><span style=\"color:var(--err)\">"
        ∷ show e
        ∷ codes "</span></div>"
        ∷ [])
    else []

abbrev badge : Backend → Text
badge nats = codes "🟢 NATS"
badge cosmos = codes "🟡 COSMOS"

unfoldable pub body_block : Text → Text
unfolding escape_less is_empty
body_block body =
    if is_empty body then [] else codes "<pre>" ++ (escape_less body ++ codes "</pre>")

-- `try { … atob(j.body_b64 || "") } catch {}`
abbrev pub body_or_empty : Option Text → Text
body_or_empty none = []
body_or_empty (some s) = s

module _ (platform : Platform) where
  -- What precedes the body of the answer, which took `ms`
  unfoldable pub answer_stats : Operation → ℕ → Json → Text
  answer_stats o ms j =
      let upstream = platform.two_digits (field j (codes "upstream_us")) in
      concat (
        stat o.label (badge o.backend ++ (codes " status=" ++ show (field j (codes "status"))))
        ∷ stat (codes "upstream (server-side)")
            (codes "<strong>" ++ (upstream ++ codes " ms</strong>"))
        ∷ stat (codes "browser overhead") (platform.overhead ms upstream ++ codes " ms")
        ∷ stat (codes "browser end-to-end") (platform.elapsed ms ++ codes " ms")
        ∷ stat_of (codes "served by") (field j (codes "served_by")) []
        ∷ stat_of (codes "revision") (field j (codes "revision")) []
        ∷ stat_of (codes "adapter internal") (field j (codes "adapter_ms")) (codes " ms")
        ∷ error_stat (field j (codes "error"))
        ∷ [])

  unfoldable pub answer_markup : Operation → ℕ → Json → Text → Text
  unfolding answer_stats body_block
  answer_markup o ms j body = answer_stats o ms j ++ body_block body

  abbrev decoded_body : Json → Option Text
  decoded_body j = platform.atob (show_or (field j (codes "body_b64")) [])

  module _ (browser : Browser) where
    abbrev op_call : Operation → Program Reply
    op_call o t = fetch browser (op_fetch browser o t) t

    abbrev clock : Program ℕ
    clock t = (some (platform.now t), t)

    -- `fetchOp`, whose answer is shown in `single-out`
    unfoldable pub fetch_op : Operation → Program (Unit {0})
    unfolding answer_markup
    fetch_op o = do
      t0 ← clock
      r ← op_call o
      t1 ← clock
      j ← json_of r
      show_in (codes "single-out") (answer_markup o (t1 - t0) j (body_or_empty (decoded_body j)))

    abbrev put_call : Text → Text → Program Reply
    put_call url body =
        authed_fetch browser
          (record { url = url; method = codes "PUT"; headers = []; body = some body })

    abbrev get_call : Text → Program Reply
    get_call url =
        authed_fetch browser (record { url = url; method = codes "GET"; headers = []; body = none })

    abbrev bucket_path : Text → Text
    bucket_path bucket = codes "/api/nats/v1/kv/" ++ encode_uri_component bucket

    -- The loop of `natsHistory`, of which `n` rounds are left, the next with the number `i`
    unfoldable pub put_versions : ℕ → ℕ → Text → Program (Unit {0})
    put_versions zero i url = pure tt
    put_versions (suc n) i url = do
      _ ← put_call url (codes "version-" ++ decimal i)
      put_versions n (suc i) url

    abbrev stamp : Program ℕ
    stamp t = (some (platform.date t), t)

    abbrev server_side : Json → Text
    server_side j =
        codes " (server-side "
        ++ (platform.one_digit (field j (codes "upstream_us")) ++ codes " ms):\n")

    -- `atob(j.body_b64)`, which throws on what is no base64
    abbrev body_text : Json → Option Text
    body_text j = platform.atob (show (field j (codes "body_b64")))

    -- `natsHistory`
    unfoldable pub nats_history : Text → Program (Unit {0})
    unfolding put_versions
    nats_history bucket = do
      id ← stamp
      let key = codes "demo-key-" ++ decimal id
      let url = bucket_path bucket ++ (codes "/" ++ key)
      _ ← put_versions 5 1 url
      r ← get_call (url ++ codes "/history")
      j ← json_of r
      body ← lift (body_text j)
      show_in (codes "demo-out") (
          codes "Wrote 5 revisions of \""
          ++ (key
              ++ (codes "\" in " ++ (bucket ++ (codes ". History" ++ (server_side j ++ body))))))

    -- The loop of `natsSubject`
    unfoldable pub put_sessions : List Text → Text → Text → Program (Unit {0})
    put_sessions [] bucket id = pure tt
    put_sessions (u ∷ us) bucket id = do
      _ ←
          put_call
            (bucket_path bucket
              ++ (codes "/users." ++ (u ++ (codes "." ++ (id ++ codes ".session")))))
            u
      put_sessions us bucket id

    -- `natsSubject`
    unfoldable pub nats_subject : Text → Program (Unit {0})
    unfolding put_sessions
    nats_subject bucket = do
      n ← stamp
      let id = decimal n
      _ ← put_sessions (codes "alice" ∷ codes "bob" ∷ codes "carol" ∷ codes "dave" ∷ []) bucket id
      r ←
          get_call
            (bucket_path bucket ++ (codes "/keys?match=users.*." ++ (id ++ codes ".session")))
      j ← json_of r
      body ← lift (body_text j)
      show_in (codes "demo-out") (
          concat (
            codes "Wrote 4 keys with subject pattern users.<name>."
            ∷ id
            ∷ codes ".session in "
            ∷ bucket
            ∷ codes "\nWildcard query users.*."
            ∷ id
            ∷ codes ".session"
            ∷ server_side j
            ∷ body
            ∷ codes "\n\nCosmos has no equivalent — keys must be exact-match or full table scan."
            ∷ []))

    -- `natsCluster`
    unfoldable pub nats_cluster : Program (Unit {0})
    nats_cluster = do
      r ← get_call (codes "/api/nats/v1/admin/cluster")
      j ← json_of r
      body ← lift (body_text j)
      show_in (codes "demo-out") body
