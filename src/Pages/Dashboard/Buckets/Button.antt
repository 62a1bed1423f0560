-- ===== src/Pages/Dashboard/Buckets/Button.antt =====
-- The button that creates a bucket.
use nats_kv.Prelude.{◌≡◌, refl, false, Bool-cases, inl, inr, Option, none, some}
use nats_kv.Text.{Text, same, is_empty}
use nats_kv.Browser.{Trace, Browser, resume, recover, ◌>>=◌, emit, branch, try}
use nats_kv.Pages.GatePage.{js_trim}
use nats_kv.Pages.Dashboard.Buckets.{
  NewBucket, is_disabled, button_label, lock, restore, provision, failed, create_bucket,
}

module _ (browser : Browser) where
  -- The `finally` is reached, whether or not the `try` threw.
  reaches_restore :
      (r : Option (Unit {0}) × Trace) (label : Text)
      → (is_disabled
            (resume
              (recover r (failed browser)).0
              (λ _. restore label)
              (recover r (failed browser)).1).1
          ≡ false)
        × (button_label
              (resume
                (recover r (failed browser)).0
                (λ _. restore label)
                (recover r (failed browser)).1).1
            ≡ label)
  unfolding is_disabled button_label same ◌>>=◌ emit
  reaches_restore (none, t) label = (refl, refl)
  reaches_restore (some u, t) label = (refl, refl)

  -- Whatever the form says, the control plane answers or a step throws, the button is left as it
  -- was found, enabled or not and with its label.
  pub create_bucket_restores :
      (form : NewBucket) (t : Trace)
      → (is_disabled (create_bucket browser form t).1 ≡ is_disabled t)
        × (button_label (create_bucket browser form t).1 ≡ button_label t)
  unfolding create_bucket branch ◌>>=◌ try is_disabled button_label emit
  create_bucket_restores form t = elim (Bool-cases (is_disabled t)) [
    | inl disabled ↦ rw disabled (disabled, refl)
    | inr enabled ↦ elim (Bool-cases (is_empty (js_trim form.name))) [
      | inl unnamed ↦ rw (enabled, unnamed) (enabled, refl)
      | inr named ↦
          rw (enabled, named) (reaches_restore (provision browser form (lock t).1) (button_label t))
    ]
  ]
