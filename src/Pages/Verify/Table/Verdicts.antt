-- ===== src/Pages/Verify/Table/Verdicts.antt =====
-- What the table says of each test.
use nats_kv.Prelude.{
  ℕ, suc, ◌-◌, ◌≡◌, ◌⊎◌, inl, inr, refl, subst, ap, sym, ◌∙◌, Bool, true, false, none, some, List,
  [], ◌∷◌, ◌++◌, map, append-nil, append_assoc, Option, length, length-append, arith, if◌then◌else◌,
}
use mathlib.Core.List.{map-append}
use nats_kv.Text.{Text, codes, same, is_empty}
use nats_kv.Pages.Verify.{Service, Reader, Run}
use nats_kv.Pages.Verify.Suite.{Outcome, is_ok, note_result, tests, run_tests}
use nats_kv.Pages.Verify.Table.{
  TableRow, fresh_row, row_text, set_row, verdict, run_rows, page_of, nothing_yet, Page, run_page,
}

-- What a visitor reads of a row, and what they should read of a result
abbrev pub view : TableRow → Text × Text
view r = (r.name, r.text)

abbrev pub verdict_of : Text × Bool → Text × Text
verdict_of (name, ok) = (name, if ok then codes "PASS" else codes "FAIL")

abbrev rows_for : {S : Type 0} → List (Text × Run S Bool) → List TableRow
rows_for ts = map (λ t. fresh_row t.0) ts

-- The row of a test that was run
abbrev row_after : Text → Bool → ℕ → TableRow
row_after name ok lat = record {
  name = name;
  status = verdict ok;
  text = if ok then codes "PASS" else codes "FAIL";
  lat = some lat;
}

set_row-row_after :
    (done rs : List TableRow) (name : Text) (ok : Bool) (lat : ℕ)
    → set_row
        (length done)
        (verdict ok)
        (some lat)
        (set_row (length done) (codes "run") none (done ++ fresh_row name ∷ rs))
      ≡ (done ++ row_after name ok lat ∷ []) ++ rs
unfolding set_row row_text same
set_row-row_after [] rs name true lat = refl
set_row-row_after [] rs name false lat = refl
set_row-row_after (d ∷ done) rs name ok lat =
    ap (λ xs. d ∷ xs) (set_row-row_after done rs name ok lat)

note_result-results :
    (name : Text) (ok : Bool) (o : Outcome)
    → (note_result name ok o).results ≡ o.results ++ (name, ok) ∷ []
unfolding note_result
note_result-results name true o = refl
note_result-results name false o = refl

view-append :
    (done : List TableRow) (results : List (Text × Bool)) (name : Text) (ok : Bool) (lat : ℕ)
    → map view done ≡ map verdict_of results
    → map view (done ++ row_after name ok lat ∷ []) ≡ map verdict_of (results ++ (name, ok) ∷ [])
view-append done results name ok lat h =
    map-append view done (row_after name ok lat ∷ [])
    ∙ ap (λ xs. xs ++ verdict_of (name, ok) ∷ []) h
    ∙ sym (map-append verdict_of results ((name, ok) ∷ []))

-- What `run_rows` gives, beside what `run_tests` gives
abbrev IsShown : {S : Type 0} → Outcome × List TableRow × S → Outcome × S → Type 0
IsShown (o, rows, s) out = (map view rows ≡ map verdict_of o.results) × ((o, s) ≡ out)

module _ {S : Type 0} (clock : S → ℕ) where
  run_rows-IsShown :
      (ts : List (Text × Run S Bool)) (done : List TableRow) (o : Outcome) (s : S)
      → map view done ≡ map verdict_of o.results
      → IsShown (run_rows clock ts (length done) o (done ++ rows_for ts) s) (run_tests ts o s)
  unfolding run_rows run_tests
  run_rows-IsShown [] done o s h = (ap (map view) (append-nil done) ∙ h, refl)
  run_rows-IsShown ((name, test) ∷ ts) done o s h =
      let ok = is_ok (test s).0 in
      let s' = (test s).1 in
      let row = row_after name ok (clock s' - clock s) in
      let o' = note_result name ok o in
      let seen =
        view-append done o.results name ok (clock s' - clock s) h
        ∙ ap (map verdict_of) (sym (note_result-results name ok o)) in
      let ih = run_rows-IsShown ts (done ++ row ∷ []) o' s' seen in
      let size : length (done ++ row ∷ []) ≡ suc (length done) =
        omega (arith, length-append done (row ∷ [])) in
      let rows = set_row-row_after done (rows_for ts) name ok (clock s' - clock s) in
      subst (λ x. IsShown (run_rows clock ts (suc (length done)) o' x s') (run_tests ts o' s'))
        (sym rows)
        (subst
          (λ i.
            IsShown (run_rows clock ts i o' ((done ++ row ∷ []) ++ rows_for ts) s')
              (run_tests ts o' s'))
          size ih)

-- What a visitor should read of a test, by its own result: an exception is a failure.
abbrev pub says : Option Bool → Text
says none = codes "FAIL"
says (some true) = codes "PASS"
says (some false) = codes "FAIL"

-- The tests one after the other, each in the state that the one before left
abbrev pub told_in_turn : {S : Type 0} → List (Text × Run S Bool) → S → List (Text × Text)
told_in_turn [] s = []
told_in_turn ((name, test) ∷ ts) s = (name, says (test s).0) ∷ told_in_turn ts (test s).1

abbrev pub state_after : {S : Type 0} → List (Text × Run S Bool) → S → S
state_after [] s = s
state_after ((name, test) ∷ ts) s = state_after ts (test s).1

verdict_of-says : (name : Text) (r : Option Bool) → verdict_of (name, is_ok r) ≡ (name, says r)
verdict_of-says name none = refl
verdict_of-says name (some true) = refl
verdict_of-says name (some false) = refl

run_tests-told_in_turn :
    {S : Type 0} (ts : List (Text × Run S Bool)) (o : Outcome) (s : S)
    → (map verdict_of (run_tests ts o s).0.results ≡ map verdict_of o.results ++ told_in_turn ts s)
      × ((run_tests ts o s).1 ≡ state_after ts s)
unfolding run_tests
run_tests-told_in_turn [] o s = (sym (append-nil (map verdict_of o.results)), refl)
run_tests-told_in_turn ((name, test) ∷ ts) o s =
    let ok = is_ok (test s).0 in
    let (rows, state) = run_tests-told_in_turn ts (note_result name ok o) (test s).1 in
    (
      rows
          ∙ ap (λ xs. map verdict_of xs ++ told_in_turn ts (test s).1)
              (note_result-results name ok o)
          ∙ ap (λ xs. xs ++ told_in_turn ts (test s).1)
              (map-append verdict_of o.results ((name, ok) ∷ []))
          ∙ append_assoc (map verdict_of o.results) (verdict_of (name, ok) ∷ [])
              (told_in_turn ts (test s).1)
          ∙ ap (λ x. map verdict_of o.results ++ x ∷ told_in_turn ts (test s).1)
              (verdict_of-says name (test s).0),
      state,
    )

-- When a run of the page is over, whatever the service answered, the table has a row for each test,
-- in their order, each run in the state that the one before left, that says PASS if the test gave
-- true, and FAIL if it gave false or threw; and the button can be pressed again. Without a bucket
-- the page does nothing.
pub run_page_lem :
    {S : Type 0} (clock : S → ℕ) (service : Service S) (reader : Reader) (bucket suffix : Text)
    (s : S)
    → ((bucket ≡ []) × (run_page clock service reader bucket suffix s ≡ none))
      ⊎ ((page : Page) × (run_page clock service reader bucket suffix s
            ≡ some (page, state_after (tests service reader bucket suffix) s))
          × (map view page.rows ≡ told_in_turn (tests service reader bucket suffix) s)
          × (page.button_disabled ≡ false))
unfolding run_page is_empty
run_page_lem clock service reader [] suffix s = inl (refl, refl)
run_page_lem clock service reader (c ∷ bucket) suffix s =
    let ts = tests service reader (c ∷ bucket) suffix in
    let out = run_rows clock ts 0 nothing_yet (rows_for ts) s in
    let (seen, same_run) = run_rows-IsShown clock ts [] nothing_yet s refl in
    let (rows, state) = run_tests-told_in_turn ts nothing_yet s in
    let page = page_of out.0 out.1 (length ts) in
    inr (
      page,
      ap (λ u. some (page, u)) (ap (λ p. p.1) same_run ∙ state),
      seen ∙ ap (λ p. map verdict_of p.0.results) same_run ∙ rows,
      refl,
    )
