-- ===== src/Json.antt =====
-- The JSON values of serde_json that the metadata of messages is made of, and their accessors.
use piscis_engine.Prelude.{
  ◌≡◌, refl, Bool, Option, none, some, Text, text_eq, text_eq_sound, text_eq_refl, arith,
  if◌then◌else◌,
}

mutual
  pub data Json : Type 0 where
    null : Json
    bool : Bool → Json
    string : Text → Json
    object : Fields → Json

  pub data Fields : Type 0 where
    no_fields : Fields
    field : Text → Json → Fields → Fields

-- `Map::get` and `Map::insert`.
unfoldable pub get : Text → Fields → Option Json
get key no_fields = none
get key (field k v fs) = if text_eq k key then some v else get key fs

unfoldable pub insert : Text → Json → Fields → Fields
insert key v no_fields = field key v no_fields
insert key v (field k old fs) =
    let rest = insert key v fs in if text_eq k key then field k v fs else field k old rest

-- `Value::get`, `as_str`, `as_bool` and `as_object`.
unfoldable pub value_get : Text → Json → Option Json
unfolding get
value_get key (object fs) = get key fs
value_get key _ = none

abbrev pub as_str : Json → Option Text
as_str (string t) = some t
as_str _ = none

abbrev pub as_bool : Json → Option Bool
as_bool (bool b) = some b
as_bool _ = none

abbrev pub as_object : Json → Option Fields
as_object (object fs) = some fs
as_object _ = none

pub get-insert :
    (key : Text) (v : Json) (fs : Fields) (other : Text)
    → get other (insert key v fs) ≡ (if text_eq key other then some v else get other fs)
unfolding get insert
get-insert key v no_fields other = refl
get-insert key v (field k old fs) other = ground (
  arith,
  get-insert key v fs other,
  text_eq_sound k key,
  text_eq_sound key other,
  text_eq_sound k other,
  text_eq_refl other,
)
