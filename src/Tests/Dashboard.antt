-- ===== src/Tests/Dashboard.antt =====
-- Instances of the theorems on the dashboard.
use nats_kv.Prelude.{◌≤◌, ◌*◌, ◌⊎◌, length, ◌≡◌, refl, false, true, none, some, [], ◌∷◌}
use nats_kv.Text.{codes}
use nats_kv.Browser.{Reply}
use nats_kv.Browser.Values.{Json, str, obj, no_members, member_of}
use nats_kv.Pages.Dashboard.Buckets.{NewBucket, is_disabled, button_label, create_bucket}
use nats_kv.Pages.Dashboard.Buckets.Button.{create_bucket_restores}
use nats_kv.Pages.Dashboard.Preview.{
  Form, Preview, reading, fresh, refresh, on_response, on_body, outcome_text, without, Answer, Run,
}
use nats_kv.Pages.Dashboard.Preview.Order.{IsCurrent, Run-IsCurrent}
use nats_kv.Pages.Dashboard.Preview.Ending.{Answers, Run_settles}
use nats_kv.Tests.AdminPage.{browser}

abbrev form : Form
form = record { geo = codes "auto"; anchor = codes "us-ord"; replicas = 3 }

abbrev refused : Reply
refused = record { ok = false; status = 503; json = none }

-- One preview, refused.
abbrev asked : Preview
asked = refresh form fresh

abbrev responded : Preview
responded = on_response 1 [] (some refused) (without [] [] asked)

abbrev answered : Preview
answered = on_body browser 1 [] refused (without [] [] responded)

response : Answer browser asked responded
unfolding refresh nats_kv.Text.same
response = Answer.responds [] [] 1 [] (some refused) refl

body : Answer browser responded answered
unfolding refresh on_response nats_kv.Text.same
body = Answer.reads [] [] 1 [] refused refl

run : Run browser answered
run = Run.answers (Run.answers (Run.refreshes form Run.loaded) response) body

Run-IsCurrent_example : IsCurrent answered
unfolding run response body refresh
Run-IsCurrent_example = Run-IsCurrent browser run (tt, λ _. tt)

-- The two answers that follow the first preview.
asked_run : Run browser asked
asked_run = Run.refreshes form Run.loaded

Run_settles_example :
    (2 ≤ 2 * length asked.waiting)
    × (((s : Preview) × Answer browser answered s)
        ⊎ ((answered.author ≡ answered.seq) × (answered.settled ≡ true)))
unfolding asked_run
Run_settles_example =
    Run_settles browser asked_run (tt, λ _. tt)
      (Answers.goes response (Answers.goes body Answers.stays))

-- A preview whose response has come, a newer one that is answered, and then the older one's body.
abbrev newer : Preview
newer =
    on_response 2 [] (some refused) (without [] (reading 1 refused ∷ []) (refresh form responded))

abbrev late : Preview
late =
    on_body browser 1 [] refused
      (without [] [] (on_body browser 2 [] refused (without [] (reading 1 refused ∷ []) newer)))

older_overwrites : (late.author ≡ 1) × (late.seq ≡ 2) × (late.waiting ≡ [])
unfolding refresh on_response on_body outcome_text nats_kv.Text.same
older_overwrites = (refl, refl, refl)

abbrev new_bucket : NewBucket
new_bucket = record {
  name = codes "b";
  replicas = 3;
  geo = codes "auto";
  mirrors = true;
  anchor = codes "us-ord";
}

create_bucket_restores_example :
    (is_disabled (create_bucket browser new_bucket []).1 ≡ is_disabled [])
    × (button_label (create_bucket browser new_bucket []).1 ≡ button_label [])
create_bucket_restores_example = create_bucket_restores browser new_bucket []

abbrev named : Json → Json
named name = obj (member_of (codes "name") name no_members)

abbrev own_bucket : Json
own_bucket = named (str (codes "t1__b"))

abbrev demo_bucket : Json
demo_bucket = named (str (codes "demo"))
