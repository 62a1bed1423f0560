-- ===== src/Pages/Picker.antt =====
-- The pickers of a bucket in the pages of ui/nats-kv-user/src/lib.rs: the playground, the load test
-- and the verify page each offer the shared bucket and the tenant's own.
pub mod Names
pub mod Offers
use nats_kv.Prelude.{Bool, true, false, Option, none, some, List, [], ◌∷◌, ◌++◌, if◌then◌else◌}
use nats_kv.Text.{Text, codes, same, is_empty}
use nats_kv.Browser.{
  Fetch, Reply, Browser, or_text, Program, pure, ◌>>=◌, show_in, branch, lift, try, json_of, fetch,
  stored_item,
}
use nats_kv.Browser.Values.{Json, field, list_of, show, truthy, is_nullish}
use nats_kv.Pages.Session.{key_item}
use nats_kv.Pages.Dashboard.Buckets.{all_buckets_call, listed_buckets}
use nats_kv.Pages.Picker.Names.{
  Offer, demo_offer, offers_of, options_markup, peers_of, peers_or_leader, info_text,
}

-- `_bucketDetails`, with the newest entry first
abbrev pub Details : Type 0
Details = List (Text × Json)

-- `_bucketDetails[name]`, if it is truthy
unfoldable pub details_of : Details → Text → Option Json
details_of [] name = none
details_of ((n, d) ∷ ds) name =
    if same n name then (if truthy d then some d else none) else details_of ds name

abbrev pub put_detail : Bool → Text → Json → Details → Details
put_detail true name d ds = (name, d) ∷ ds
put_detail false name d ds = ds

abbrev pub is_missing : Option Json → Bool
is_missing none = true
is_missing (some d) = false

-- The loop over all buckets, up to where it throws; `keeps` says whether an entry that is there
-- already stays.
unfoldable pub note_all : Bool → List Json → Details → Details
unfolding details_of
note_all keeps [] ds = ds
note_all keeps (b ∷ bs) ds =
    let name = show (field b (codes "name")) in
    let noted =
      note_all keeps bs
        (put_detail (if keeps then is_missing (details_of ds name) else true) name b ds) in
    if is_nullish b then ds else noted

-- The loop over the offers, likewise
unfoldable pub note_offers : Bool → List Offer → Details → Details
unfolding details_of
note_offers keeps [] ds = ds
note_offers keeps (o ∷ os) ds = elim o.details [
  | none ↦ note_offers keeps os ds
  | some d ↦
      note_offers keeps os
        (put_detail (if keeps then is_missing (details_of ds o.name) else true) o.name d ds)
]

unfoldable pub listed_offers : Reply → Program (List Offer)
unfolding offers_of
listed_offers r =
    branch r.ok
      (do j ← json_of r; list ← lift (list_of (field j (codes "details"))); pure (offers_of list))
      (pure [])

module _ (browser : Browser) where
  abbrev pub own_call : Text → Fetch
  own_call key = record {
    url = codes "/api/control/v1/me/buckets";
    method = codes "GET";
    headers = (codes "Authorization", codes "Bearer " ++ key) ∷ [];
    body = none;
  }

  -- The buckets of the tenant who is signed in, as far as they can be had
  unfoldable pub own_offers : Text → Program (List Offer)
  unfolding offers_of
  own_offers key =
      branch (is_empty key) (pure [])
        (try (do r ← fetch browser (own_call key); listed_offers r) (pure []))

  -- What a picker offers
  unfoldable pub offers : Program (List Offer)
  unfolding own_offers
  offers = do key ← stored_item browser key_item; own ← own_offers key; pure (demo_offer ∷ own)

  -- `loadBuckets` of the load test
  unfoldable pub load_test_buckets : Program (Unit {0})
  unfolding offers options_markup
  load_test_buckets = do os ← offers; show_in (codes "lt-bucket") (options_markup os)

  -- The listing of all buckets
  unfoldable pub all_details : Bool → Details → Program Details
  unfolding note_all
  all_details keeps ds = do
    key ← stored_item browser key_item
    try
        (do
          r ← fetch browser (all_buckets_call browser (or_text (some key) (codes "akv_demo_open")))
          j ← json_of r
          list ← lift (listed_buckets browser j)
          pure (note_all keeps list ds))
        (pure ds)

  -- `updateBucketInfo` of the playground
  unfoldable pub play_info : Details → Text → Program (Unit {0})
  unfolding details_of peers_or_leader info_text
  play_info ds name = elim (details_of ds name) [
    | none ↦
        show_in (codes "play-bucket-info")
          (codes "bucket=" ++ (name ++ codes " (no details available)"))
    | some d ↦ (do
      peers ← lift (peers_or_leader d)
      text ← lift (info_text name d peers)
      show_in (codes "play-bucket-info") text)
  ]

  -- `loadPlayBuckets`, where the first of the options is then the value of the picker
  unfoldable pub load_play_buckets : Program Details
  unfolding offers all_details note_offers options_markup play_info
  load_play_buckets = do
    os ← offers
    all ← all_details false []
    let ds = note_offers true os all
    _ ← show_in (codes "play-bucket") (options_markup os)
    _ ← play_info ds (codes "demo")
    pure ds

  -- `updateBucketInfo` of the verify page
  unfoldable pub verify_info : Details → Text → Program (Unit {0})
  unfolding details_of peers_of info_text
  verify_info ds name = elim (details_of ds name) [
    | none ↦ show_in (codes "vfy-bucket-info") (codes "bucket=" ++ name)
    | some d ↦ (do
      peers ← lift (peers_of d)
      text ← lift (info_text name d peers)
      show_in (codes "vfy-bucket-info") text)
  ]

  -- `loadVerifyBuckets`, which notes the tenant's details before those of all buckets
  unfoldable pub load_verify_buckets : Program Details
  unfolding offers all_details note_offers options_markup verify_info
  load_verify_buckets = do
    os ← offers
    ds ← all_details true (note_offers false os [])
    _ ← show_in (codes "vfy-bucket") (options_markup os)
    _ ← verify_info ds (codes "demo")
    pure ds
