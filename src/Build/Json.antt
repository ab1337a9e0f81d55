-- ===== src/Build/Json.antt =====
-- The values that `json.load` returns, and the operations of .devkit/scripts/docker/build.py on
-- them that do not look at the type first.
use encrypted_zone_sdk.Base.{
  Bool, true, false, ◌||◌, Option, none, some, [], ◌∷◌, ◌==◌, text_eq, if◌then◌else◌,
}
use encrypted_zone_sdk.Base.Result.{Result, ok, raise, ◌>>=◌}
use encrypted_zone_sdk.Base.Text.{Text, starts_with}

mutual
  -- A number is known by its text and by whether it is not zero.
  pub data Json : Type 0 where
    null : Json
    bool : Bool → Json
    number : Text → Bool → Json
    str : Text → Json
    arr : Items → Json
    obj : Fields → Json

  pub data Items : Type 0 where
    no_items : Items
    item : Json → Items → Items

  -- The entries of a dict, in their order.
  pub data Fields : Type 0 where
    no_fields : Fields
    field : Text → Json → Fields → Fields

-- What the scripts may raise, besides the errors that they raise themselves.
pub data Error : Type 0 where
  type_error key_error attribute_error : Error
  value_error : Text → Error

abbrev pub Checked {ℓ} : Type ℓ → Type ℓ
Checked A = Result Error A

abbrev pub get_field : Text → Fields → Option Json
get_field k no_fields = none
get_field k (field j v fs) = let rest = get_field k fs in if k == j then some v else rest

unfoldable pub has_item : Text → Items → Bool
has_item k no_items = false
has_item k (item (str s) xs) = s == k || has_item k xs
has_item k (item v xs) = has_item k xs

-- `part in text`
unfoldable pub has_part : Text → Text → Bool
has_part part [] = starts_with [] part
has_part part (c ∷ s) = starts_with (c ∷ s) part || has_part part s

-- `key in value`
unfoldable pub key_in : Text → Json → Checked Bool
unfolding has_item has_part
key_in k (obj fs) = ok (elim (get_field k fs) [ none ↦ false | some _ ↦ true ])
key_in k (arr xs) = ok (has_item k xs)
key_in k (str s) = ok (has_part k s)
key_in k v = raise type_error

-- `value[key]`
unfoldable pub at_key : Text → Json → Checked Json
at_key k (obj fs) = elim (get_field k fs) [ none ↦ raise key_error | some v ↦ ok v ]
at_key k v = raise type_error

-- `f(value[key])` where `key in value`, and `default` elsewhere.
unfoldable pub if_key {ℓ} : {A : Type ℓ} → Text → A → (Json → Checked A) → Json → Checked A
unfolding key_in at_key
if_key k default f v =
    key_in k v >>= λ present. elim present [ true ↦ at_key k v >>= f | false ↦ ok default ]

-- `value.items()`
unfoldable pub items_of : Json → Checked Fields
items_of (obj fs) = ok fs
items_of v = raise attribute_error

-- `bool(value)`
unfoldable pub truthy : Json → Bool
truthy null = false
truthy (bool b) = b
truthy (number n b) = b
truthy (str []) = false
truthy (arr no_items) = false
truthy (obj no_fields) = false
truthy v = true

-- `f"{value}"`; `show` is `str` at the values that are no texts.
unfoldable pub format : (Json → Text) → Json → Text
format show (str s) = s
format show v = show v
