-- ===== src/Browser/Values.antt =====
-- JSON values as the scripts of the pages see them, and what ECMA-262 makes of them: a member that
-- is not there, `||`, and the text of a value in a template. Numbers are natural numbers.
use nats_kv.Prelude.{
  ℕ, Bool, true, false, not, Option, none, some, List, [], ◌∷◌, ◌==◌, if◌then◌else◌,
}
use nats_kv.Text.{Text, codes, same, is_empty, decimal}

mutual
  pub data Json : Type 0 where
    -- `absent` is what JavaScript calls undefined.
    absent null : Json
    bool : Bool → Json
    num : ℕ → Json
    str : Text → Json
    arr : Items → Json
    obj : Members → Json

  pub data Items : Type 0 where
    no_items : Items
    item_of : Json → Items → Items

  pub data Members : Type 0 where
    no_members : Members
    member_of : Text → Json → Members → Members

unfoldable pub find_member : Members → Text → Json
find_member no_members key = absent
find_member (member_of k j ms) key = if same k key then j else find_member ms key

-- `j.key`; where `j` is null or undefined the code throws, and the programs below do so when they
-- read the body.
unfoldable pub field : Json → Text → Json
unfolding find_member
field (obj ms) key = find_member ms key
field _ key = absent

unfoldable pub truthy : Json → Bool
truthy absent = false
truthy null = false
truthy (bool b) = b
truthy (num n) = not (n == 0)
truthy (str s) = not (is_empty s)
truthy (arr js) = true
truthy (obj ms) = true

abbrev pub elements : Items → List Json
elements no_items = []
elements (item_of j js) = j ∷ elements js

-- `j || []`, of which the elements are taken one by one; anything but an array throws.
unfoldable pub list_of : Json → Option (List Json)
list_of absent = some []
list_of null = some []
list_of (arr js) = some (elements js)
list_of _ = none

unfoldable pub is_nullish : Json → Bool
is_nullish absent = true
is_nullish null = true
is_nullish _ = false

-- A scalar in a template; an array or an object is no text that a page shows.
unfoldable pub show : Json → Text
show absent = codes "undefined"
show null = codes "null"
show (bool true) = codes "true"
show (bool false) = codes "false"
show (num n) = decimal n
show (str s) = s
show (arr js) = codes "[object]"
show (obj ms) = codes "[object Object]"

-- `j || d`, shown
unfoldable pub show_or : Json → Text → Text
unfolding truthy show
show_or j d = if truthy j then show j else d

-- `j.slice(…)` and the like throw for anything but a text.
unfoldable pub text_of : Json → Option Text
text_of (str s) = some s
text_of _ = none

unfoldable pub number_of : Json → Option ℕ
number_of (num n) = some n
number_of _ = none

-- `(j || "").…`
unfoldable pub text_or_empty : Json → Option Text
text_or_empty absent = some []
text_or_empty null = some []
text_or_empty (str s) = some s
text_or_empty _ = none
