-- ===== src/Pages/Verify/Table.antt =====
-- The table of the verify page of ui/nats-kv-user/src/lib.rs: `setRow`, and the table during
-- `runVerify`. The texts that explain a result are left out.
pub mod Verdicts
use nats_kv.Prelude.{
  ℕ, zero, suc, ◌-◌, Bool, false, Option, none, some, List, [], ◌∷◌, ◌++◌, map, length,
  if◌then◌else◌,
}
use nats_kv.Text.{Text, codes, same, is_empty, decimal, concat}
use nats_kv.Pages.Verify.{Service, Reader, Run}
use nats_kv.Pages.Verify.Suite.{Outcome, is_ok, note_result, tests, summary_class}

-- A row: the class and the text of its cell of the status, and the latency shown, in the clock's
-- unit.
pub record TableRow : Type 0 where
  pub name : Text
  pub status : Text
  pub text : Text
  pub lat : Option ℕ

-- A row of the empty table
abbrev pub fresh_row : Text → TableRow
fresh_row name = record { name = name; status = codes "idle"; text = codes "—"; lat = none }

unfoldable pub row_text : Text → Text
row_text status =
    if same status (codes "pass")
    then codes "PASS"
    else if same status (codes "fail")
    then codes "FAIL"
    else if same status (codes "run")
    then codes "…"
    else if same status (codes "skip")
    then codes "SKIP"
    else codes "—"

-- `setRow`; without a row of that number it does nothing.
unfoldable pub set_row : ℕ → Text → Option ℕ → List TableRow → List TableRow
unfolding row_text
set_row i status lat [] = []
set_row zero status lat (r ∷ rs) =
    record r { status = status; text = row_text status; lat = lat } ∷ rs
set_row (suc i) status lat (r ∷ rs) = r ∷ set_row i status lat rs

abbrev pub verdict : Bool → Text
verdict ok = if ok then codes "pass" else codes "fail"

module _ {S : Type 0} (clock : S → ℕ) where
  -- The loop of `runVerify`, from the test with the number `i`
  unfoldable pub run_rows :
      List (Text × Run S Bool) → ℕ → Outcome → List TableRow → S → Outcome × List TableRow × S
  unfolding set_row note_result
  run_rows [] i o rows s = (o, rows, s)
  run_rows ((name, test) ∷ ts) i o rows s =
      let (r, s') = test s in
      let rows1 = set_row i (codes "run") none rows in
      let rows2 = set_row i (verdict (is_ok r)) (some (clock s' - clock s)) rows1 in
      run_rows ts (suc i) (note_result name (is_ok r) o) rows2 s'

-- What the page shows when a run is over.
pub record Page : Type 0 where
  pub rows : List TableRow
  pub summary_html : Text
  pub status : Text
  pub button_disabled : Bool

abbrev passed_of : Outcome → ℕ → Text
passed_of o n = decimal o.passed ++ (codes "/" ++ (decimal n ++ codes " passed"))

abbrev failed_note : Outcome → Text
failed_note o = elim o.failed [
  | zero ↦ []
  | suc n ↦ codes " · " ++ (decimal (suc n) ++ codes " failed")
]

abbrev pub page_of : Outcome → List TableRow → ℕ → Page
page_of o rows n = record {
  rows = rows;
  summary_html = concat (
      codes "<div class=\"summary "
      ∷ summary_class o
      ∷ codes "\">"
      ∷ passed_of o n
      ∷ failed_note o
      ∷ codes "</div>"
      ∷ []);
  status = codes "done — " ++ passed_of o n;
  button_disabled = false;
}

abbrev pub nothing_yet : Outcome
nothing_yet = record { passed = 0; failed = 0; results = [] }

module _ {S : Type 0} (clock : S → ℕ) (service : Service S) (reader : Reader) where
  -- `runVerify`; without a bucket it only alerts.
  unfoldable pub run_page : Text → Text → S → Option (Page × S)
  unfolding run_rows tests
  run_page bucket suffix s =
      let ts = tests service reader bucket suffix in
      let (o, rows, s') = run_rows clock ts 0 nothing_yet (map (λ t. fresh_row t.0) ts) s in
      if is_empty bucket then none else some (page_of o rows (length ts), s')
