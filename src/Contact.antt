-- ===== src/Contact.antt =====
-- backend/src/db/contact.rs: a contact as a JSON object with its `meta` and `adif` parts, and the
-- JSON values themselves as serde_json holds them.
pub mod Meta
use log.Base.{Bool, true, false, Option, none, some, ltb, unwrap_or, if◌then◌else◌, ◌>>=◌}
use log.Base.Int.{ℤ, pos, negsuc, wrap_at, half_i64}
use log.Base.Text.{Text, text, text_eq, trim, to_upper, decimal, parse_i64}

-- An integer that fits `i64` or `u64`, or a float by the text that serde_json prints for it.
pub data Number : Type 0 where
  int : ℤ → Number
  float : Text → Number

-- Arrays carry no information for the modelled code but that they are arrays.
mutual
  pub data Value : Type 0 where
    null : Value
    bool : Bool → Value
    number : Number → Value
    string : Text → Value
    array : Values → Value
    object : Fields → Value

  pub data Values : Type 0 where
    end : Values
    item : Value → Values → Values

  pub data Fields : Type 0 where
    nil : Fields
    field : Text → Value → Fields → Fields

-- `Map::get`, `Map::insert` and `Map::remove`.
unfoldable pub get : Text → Fields → Option Value
get k nil = none
get k (field j v rest) = if text_eq j k then some v else get k rest

unfoldable pub put : Text → Value → Fields → Fields
put k v nil = field k v nil
put k v (field j w rest) = if text_eq j k then field k v rest else field j w (put k v rest)

unfoldable pub delete : Text → Fields → Fields
delete k nil = nil
delete k (field j w rest) =
    let others = delete k rest in if text_eq j k then others else field j w others

abbrev pub Contact : Type 0
Contact = Fields

abbrev pub meta_key : Text
meta_key = text "meta"

abbrev pub adif_key : Text
adif_key = text "adif"

abbrev pub as_object : Value → Option Fields
as_object (object m) = some m
as_object _ = none

abbrev pub as_bool : Value → Option Bool
as_bool (bool b) = some b
as_bool _ = none

abbrev pub as_str : Value → Option Text
as_str (string s) = some s
as_str _ = none

abbrev pub fits_i64 : ℤ → Bool
fits_i64 (pos n) = ltb n half_i64
fits_i64 (negsuc n) = ltb n half_i64

abbrev pub as_i64 : Value → Option ℤ
as_i64 (number (int z)) = if fits_i64 z then some z else none
as_i64 _ = none

unfoldable pub normalize_adif_field_name : Text → Text
normalize_adif_field_name key = to_upper (trim key)

-- Two names that become one keep the value of the later.
unfoldable pub normalize_fields : Fields → Fields → Fields
normalize_fields acc nil = acc
normalize_fields acc (field k v rest) =
    normalize_fields (put (normalize_adif_field_name k) v acc) rest

unfoldable pub normalize_contact_adif : Fields → Fields
unfolding normalize_fields
normalize_contact_adif adif = normalize_fields nil adif

unfoldable pub build_contact : Fields → Fields → Contact
build_contact meta adif =
    put adif_key (object (normalize_contact_adif adif)) (put meta_key (object meta) nil)

unfoldable pub contact_meta : Contact → Option Fields
contact_meta contact = get meta_key contact >>= as_object

unfoldable pub contact_adif : Contact → Option Fields
contact_adif contact = get adif_key contact >>= as_object

unfoldable pub contact_meta_value : Contact → Text → Option Value
contact_meta_value contact key = contact_meta contact >>= get key

unfoldable pub contact_adif_value : Contact → Text → Option Value
contact_adif_value contact key = contact_adif contact >>= get (normalize_adif_field_name key)

-- A part that is absent, or no object, is first replaced by an empty one.
unfoldable pub set_contact_meta : Contact → Text → Value → Contact
set_contact_meta contact key value =
    put meta_key (object (put key value (unwrap_or (contact_meta contact) nil))) contact

unfoldable pub set_contact_adif : Contact → Text → Value → Contact
set_contact_adif contact key value =
    put adif_key
      (object (put (normalize_adif_field_name key) value (unwrap_or (contact_adif contact) nil)))
      contact

unfoldable pub remove_contact_meta : Contact → Text → Contact
remove_contact_meta contact key = elim (contact_meta contact) [
  | none ↦ contact
  | some meta ↦ put meta_key (object (delete key meta)) contact
]

-- A number above `i64` is read as a `u64` and cast.
unfoldable pub json_i64_value : Value → Option ℤ
json_i64_value (number (int z)) = if fits_i64 z then some z else some (wrap_at half_i64 z)
json_i64_value (string s) = parse_i64 s
json_i64_value _ = none

unfoldable pub contact_id : Contact → Option ℤ
contact_id contact = contact_meta_value contact (text "id") >>= json_i64_value

unfoldable pub contact_log_id : Contact → Option ℤ
contact_log_id contact = contact_meta_value contact (text "logId") >>= json_i64_value

abbrev number_text : Number → Text
number_text (int z) = decimal z
number_text (float s) = s

abbrev bool_text : Bool → Text
bool_text true = text "true"
bool_text false = text "false"

abbrev pub value_text : Value → Option Text
value_text (string s) = some s
value_text (number n) = some (number_text n)
value_text (bool b) = some (bool_text b)
value_text _ = none

unfoldable pub json_string : Option Value → Option Text
json_string none = none
json_string (some value) = value_text value
