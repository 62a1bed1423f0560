-- ===== src/Pages/Verify/Summary.antt =====
-- What the counts of `runVerify` say.
use nats_kv.Prelude.{
  ℕ, ◌+◌, suc, ◌≡◌, refl, sym, ap, ◌∙◌, ◌↔◌, Bool, true, false, List, [], ◌∷◌, ◌++◌, append-nil,
  map, arith, length, All, if◌then◌else◌,
}
use nats_kv.Text.{Text, codes}
use nats_kv.Pages.Verify.{Service, Reader, Run}
use nats_kv.Pages.Verify.Suite.{
  tests, Outcome, is_ok, note_result, run_tests, summary_class, run_verify,
}

-- How many of the results are a pass, and how many a failure.
abbrev pub passes : List (Text × Bool) → ℕ
passes [] = 0
passes ((name, ok) ∷ rs) = (if ok then 1 else 0) + passes rs

abbrev pub failures : List (Text × Bool) → ℕ
failures [] = 0
failures ((name, ok) ∷ rs) = (if ok then 0 else 1) + failures rs

passes-append : (rs qs : List (Text × Bool)) → passes (rs ++ qs) ≡ passes rs + passes qs
passes-append [] qs = omega arith
passes-append ((name, ok) ∷ rs) qs = omega (arith, passes-append rs qs)

failures-append : (rs qs : List (Text × Bool)) → failures (rs ++ qs) ≡ failures rs + failures qs
failures-append [] qs = omega arith
failures-append ((name, ok) ∷ rs) qs = omega (arith, failures-append rs qs)

abbrev pub IsTally : Outcome → Type 0
IsTally o = (o.passed ≡ passes o.results) × (o.failed ≡ failures o.results)

note_result-IsTally :
    (name : Text) (ok : Bool) (o : Outcome) → IsTally o → IsTally (note_result name ok o)
unfolding note_result
note_result-IsTally name true o (p, f) = (
  omega (arith, passes-append o.results ((name, true) ∷ [])),
  omega (arith, failures-append o.results ((name, true) ∷ [])),
)
note_result-IsTally name false o (p, f) = (
  omega (arith, passes-append o.results ((name, false) ∷ [])),
  omega (arith, failures-append o.results ((name, false) ∷ [])),
)

note_result-results :
    (name : Text) (ok : Bool) (o : Outcome)
    → (note_result name ok o).results ≡ o.results ++ (name, ok) ∷ []
unfolding note_result
note_result-results name true o = refl
note_result-results name false o = refl

map-push :
    (rs : List (Text × Bool)) (r : Text × Bool) (names : List Text)
    → map (λ q. q.0) (rs ++ r ∷ []) ++ names ≡ map (λ q. q.0) rs ++ r.0 ∷ names
map-push [] r names = refl
map-push (q ∷ rs) r names = ap (λ l. q.0 ∷ l) (map-push rs r names)

length-map : (rs : List (Text × Bool)) → length (map (λ r. r.0) rs) ≡ length rs
length-map [] = refl
length-map (r ∷ rs) = ap suc (length-map rs)

passes-failures : (rs : List (Text × Bool)) → passes rs + failures rs ≡ length rs
passes-failures [] = omega arith
passes-failures ((name, true) ∷ rs) = omega (arith, passes-failures rs)
passes-failures ((name, false) ∷ rs) = omega (arith, passes-failures rs)

abbrev pub IsPass : Text × Bool → Type 0
IsPass r = r.1 ≡ true

no_failures : (rs : List (Text × Bool)) → failures rs ≡ 0 → All IsPass rs
no_failures [] h = tt
no_failures ((name, true) ∷ rs) h = (refl, no_failures rs (omega arith))
no_failures ((name, false) ∷ rs) h = absurd (omega arith)

failures-All : (rs : List (Text × Bool)) → All IsPass rs → failures rs ≡ 0
failures-All [] h = refl
failures-All ((name, true) ∷ rs) (_, h) = omega (arith, failures-All rs h)
failures-All ((name, false) ∷ rs) (q, h) = cc

summary_class_iff : (o : Outcome) → (summary_class o ≡ codes "pass") ↔ (o.failed ≡ 0)
unfolding summary_class
summary_class_iff o = (ground arith, ground arith)

module _ {S : Type 0} where
  run_tests-IsTally :
      (ts : List (Text × Run S Bool)) (o : Outcome) (s : S)
      → IsTally o
      → IsTally (run_tests ts o s).0
  unfolding run_tests
  run_tests-IsTally [] o s h = h
  run_tests-IsTally ((name, test) ∷ ts) o s h =
      let (r, s') = test s in
      run_tests-IsTally ts (note_result name (is_ok r) o) s'
        (note_result-IsTally name (is_ok r) o h)

  run_tests-names :
      (ts : List (Text × Run S Bool)) (o : Outcome) (s : S)
      → map (λ r. r.0) (run_tests ts o s).0.results ≡ map (λ r. r.0) o.results ++ map (λ t. t.0) ts
  unfolding run_tests
  run_tests-names [] o s = sym (append-nil _)
  run_tests-names ((name, test) ∷ ts) o s =
      let (r, s') = test s in
      let o' = note_result name (is_ok r) o in
      run_tests-names ts o' s'
      ∙ ap (λ rs. map (λ q. q.0) rs ++ map (λ t. t.0) ts) (note_result-results name (is_ok r) o)
      ∙ map-push o.results (name, is_ok r) (map (λ t. t.0) ts)

-- Whatever the service answers, and whether its tests throw or not, a run of the page ends with a
-- result for each of the ten tests, in their order; the numbers passed and failed are those of the
-- results, and add up to ten; and the summary is `pass` exactly if every result is a pass.
pub run_verify_lem :
    {S : Type 0} (service : Service S) (reader : Reader) (bucket suffix : Text) (s : S)
    → (map (λ r. r.0) (run_verify service reader bucket suffix s).0.results
        ≡ map (λ t. t.0) (tests service reader bucket suffix))
      × IsTally (run_verify service reader bucket suffix s).0
      × ((run_verify service reader bucket suffix s).0.passed
            + (run_verify service reader bucket suffix s).0.failed
          ≡ 10)
      × ((summary_class (run_verify service reader bucket suffix s).0 ≡ codes "pass")
          ↔ All IsPass (run_verify service reader bucket suffix s).0.results)
unfolding run_verify tests
run_verify_lem service reader bucket suffix s =
    let first : Outcome = record { passed = 0; failed = 0; results = [] } in
    let ts = tests service reader bucket suffix in
    let o = (run_tests ts first s).0 in
    let names = run_tests-names ts first s in
    let (p, f) = run_tests-IsTally ts first s (refl, refl) in
    let ten : length o.results ≡ 10 = sym (length-map o.results) ∙ ap length names in
    let (to, from) = summary_class_iff o in
    (
      names,
      (p, f),
      omega (arith, passes-failures o.results),
      ((λ h. no_failures o.results (sym f ∙ to h)), (λ h. from (f ∙ failures-All o.results h))),
    )
