-- ===== src/Pages/Picker/Offers.antt =====
-- What the pickers offer.
use nats_kv.Prelude.{
  ◌≡◌, refl, Bool, true, false, ◌⊎◌, Option, none, some, List, [], ◌∷◌, ◌++◌, arith, if◌then◌else◌,
}
use nats_kv.Text.{Text, codes, is_empty, strip_prefix}
use nats_kv.Browser.{Reply, Browser, body_of}
use nats_kv.Browser.Values.{Json, field, list_of, text_of, is_nullish}
use nats_kv.Pages.Picker.Names.{Offer, offers_of, after_mark, short_name}

-- What an answer to the question for the tenant's buckets lists.
abbrev pub listed : Option Json → List Offer
listed none = []
listed (some j) = elim (list_of (field j (codes "details"))) [ none ↦ [] | some l ↦ offers_of l ]

abbrev pub answered : Option Reply → List Offer
answered none = []
answered (some r) = if r.ok then listed (body_of r.json) else []

abbrev pub of_tenant : Text → Option Reply → List Offer
of_tenant key reply = if is_empty key then [] else answered reply

-- A bucket that is null, or whose name is no text
abbrev pub IsNameless : Json → Type 0
IsNameless d = (is_nullish d ≡ true) ⊎ (text_of (field d (codes "name")) ≡ none)

-- An offer for each bucket, up to one without a name
pub data IsOffers : List Json → List Offer → Type 0 where
  ends : IsOffers [] []
  stops : {d : Json} {ds : List Json} → IsNameless d → IsOffers (d ∷ ds) []
  goes :
      {d : Json} {ds : List Json} {o : Offer} {os : List Offer}
      → text_of (field d (codes "name")) ≡ some o.name
      → o.details ≡ some d
      → IsOffers ds os
      → IsOffers (d ∷ ds) (o ∷ os)

abbrev pub IsIn : Option (List Json) → List Offer → Type 0
IsIn none own = own ≡ []
IsIn (some l) own = IsOffers l own

abbrev pub IsListed : Option Json → List Offer → Type 0
IsListed none own = own ≡ []
IsListed (some j) own = IsIn (list_of (field j (codes "details"))) own

abbrev pub IsRead : Bool → Option Json → List Offer → Type 0
IsRead true body own = IsListed body own
IsRead false body own = own ≡ []

abbrev pub IsAnswered : Option Reply → List Offer → Type 0
IsAnswered none own = own ≡ []
IsAnswered (some r) own = IsRead r.ok (body_of r.json) own

abbrev pub IsOfTenant : Text → Option Reply → List Offer → Type 0
IsOfTenant [] reply own = own ≡ []
IsOfTenant (c ∷ key) reply own = IsAnswered reply own

after_mark_pair :
    (tenant name : Text)
    → after_mark (codes "__") (tenant ++ codes "_") ≡ none
    → after_mark (codes "__") (tenant ++ (codes "__" ++ name)) ≡ some name
unfolding after_mark strip_prefix
after_mark_pair [] name h = refl
after_mark_pair (c ∷ []) name h = ground arith
after_mark_pair (c ∷ d ∷ s) name h = ground (arith, after_mark_pair (d ∷ s) name)

-- A bucket that is named by a tenant, two underscores and a name is shown by that name, if the two
-- underscores are the first such pair.
pub short_name_lem :
    (tenant name : Text)
    → after_mark (codes "__") (tenant ++ codes "_") ≡ none
    → short_name (tenant ++ (codes "__" ++ name)) ≡ name
unfolding short_name
short_name_lem tenant name h = rw (after_mark_pair tenant name h) refl
