-- ===== src/Pages/Dashboard/Preview/Ending.antt =====
-- How the previews of the dashboard's page come to an end.
use nats_kv.Prelude.{
  ℕ, suc, ◌+◌, ◌*◌, length, ◌≤◌, ◌≡◌, refl, ap, ◌⊎◌, inl, inr, Bool, true, false, Option, none,
  some, List, [], ◌∷◌, ◌++◌, arith,
}
use nats_kv.Text.{Text}
use nats_kv.Browser.{Reply, Browser}
use nats_kv.Pages.Dashboard.Preview.{
  Call, awaiting, reading, Preview, on_error, on_response, on_body, outcome_text, show_outcome,
  without, Answer, responds, reads, Run,
}
use nats_kv.Pages.Dashboard.Preview.Order.{in_flight, bit, IsOrderly, Run-IsCurrent}

-- What the calls in flight still wait for.
abbrev pub work : List Call → ℕ
work [] = 0
work (awaiting n ∷ cs) = 2 + work cs
work (reading n r ∷ cs) = 1 + work cs

work-append : (cs ds : List Call) → work (cs ++ ds) ≡ work cs + work ds
work-append [] ds = omega arith
work-append (awaiting n ∷ cs) ds = omega (arith, work-append cs ds)
work-append (reading n r ∷ cs) ds = omega (arith, work-append cs ds)

work-on_error :
    (n : ℕ) (message : Text) (p : Preview) → work (on_error n message p).waiting ≡ work p.waiting
unfolding on_error
work-on_error n message p = ground arith

work-on_response :
    (n : ℕ) (message : Text) (r : Option Reply) (p : Preview)
    → work (on_response n message r p).waiting ≤ 1 + work p.waiting
unfolding on_response
work-on_response n message none p = omega (arith, work-on_error n message p)
work-on_response n message (some r) p = ground arith

work-show_outcome :
    (n : ℕ) (message : Text) (o : Option Text) (p : Preview)
    → work (show_outcome n message o p).waiting ≡ work p.waiting
work-show_outcome n message none p = work-on_error n message p
work-show_outcome n message (some text) p = refl

work-length : (cs : List Call) → work cs ≤ 2 * length cs
work-length [] = omega arith
work-length (awaiting n ∷ cs) = omega (arith, work-length cs)
work-length (reading n r ∷ cs) = omega (arith, work-length cs)

module _ (browser : Browser) where
  work-Answer : {p q : Preview} → Answer browser p q → suc (work q.waiting) ≤ work p.waiting
  unfolding on_body
  work-Answer {p} (responds before after n message r e) = omega (
    arith,
    ap work e,
    work-append before after,
    work-append before (awaiting n ∷ after),
    work-on_response n message r (without before after p),
  )
  work-Answer {p} (reads before after n message r e) = omega (
    arith,
    ap work e,
    work-append before after,
    work-append before (reading n r ∷ after),
    work-show_outcome n message (outcome_text browser r) (without before after p),
  )

  -- Answers alone, one after the other, with their number.
  pub data Answers : Preview → Preview → ℕ → Type 0 where
    stays : {p : Preview} → Answers p p 0
    goes : {p q s : Preview} {k : ℕ} → Answer browser p q → Answers q s k → Answers p s (suc k)

  next : (p : Preview) → (p.waiting ≡ []) ⊎ ((q : Preview) × Answer browser p q)
  next p = from p.waiting refl
    where
      from :
          (cs : List Call)
          → p.waiting ≡ cs
          → (p.waiting ≡ []) ⊎ ((q : Preview) × Answer browser p q)
      from [] e = inl e
      from (awaiting n ∷ cs) e = inr (_, Answer.responds [] cs n [] none e)
      from (reading n r ∷ cs) e = inr (_, Answer.reads [] cs n [] r e)

  -- While no preview is asked for, at most two answers per call in flight are taken up, and
  -- unless nothing is in flight any more, there is one that can be.
  pub work-Answers :
      {p q : Preview} {k : ℕ}
      → Answers p q k
      → (k + work q.waiting ≤ work p.waiting)
        × ((q.waiting ≡ []) ⊎ ((s : Preview) × Answer browser q s))
  work-Answers {p} stays = (omega arith, next p)
  work-Answers (goes a rest) =
      let (bound, end) = work-Answers rest in (omega (arith, work-Answer a), end)

  -- A page that is reached, and then only takes up answers.
  continued :
      {p q : Preview} {k : ℕ} (r : Run browser p)
      → IsOrderly r
      → Answers p q k
      → (r' : Run browser q) × IsOrderly r'
  continued r o stays = (r, o)
  continued r o (goes a rest) = continued (Run.answers r a) o rest

  -- Once no more previews are asked for, if none was asked for while a body was being read, the
  -- page takes up at most two answers per call in flight, whatever they are and in whatever order;
  -- and after any of them, either there is one more to take up, or the page shows the result of the
  -- newest preview.
  pub Run_settles :
      {p q : Preview} {k : ℕ} (r : Run browser p)
      → IsOrderly r
      → Answers p q k
      → (k ≤ 2 * length p.waiting)
        × (((s : Preview) × Answer browser q s) ⊎ ((q.author ≡ q.seq) × (q.settled ≡ true)))
  Run_settles {p} {q} {k} r o steps =
      let (bound, end) = work-Answers steps in
      let (r', o') = continued r o steps in
      let h = Run-IsCurrent browser r' o' in
      (
        omega (arith, bound, work-length p.waiting),
        elim end [
          | inl e ↦
              inr (h.newest, settled q.settled (omega (arith, h.answered, ap (in_flight q.seq) e)))
          | inr more ↦ inl more
        ],
      )
    where
      settled : (b : Bool) → bit b ≡ 1 → b ≡ true
      settled true h = refl
      settled false h = absurd (omega arith)
