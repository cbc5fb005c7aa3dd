-- ===== src/Adif/Contacts.antt =====
-- The fields that a contact is exported with (`contact_fields`, `ordered_fields` and `render_log` of
-- backend/src/adif.rs, and the modes of radio-io/src/modes.rs).
use log.Base.{
  ℕ, ◌%◌, Bool, ◌&&◌, ◌||◌, Option, none, some, List, [], ◌∷◌, ◌++◌, ◌==◌, if◌then◌else◌, ◌>>=◌,
  unwrap_or, suc,
}
use log.Base.Int.{ℤ, pos, negsuc, quot}
use log.Base.Text.{
  Text, text, text_eq, trim, to_upper, is_empty, one_of, decimal, padded, parse_i64, starts_with,
}
use log.Base.Table.{Table, lookup, remove, contains_key, text_eq_instance}
use log.Contact.{
  Contact, Value, Fields, string, nil, field, as_i64, contact_adif, contact_adif_value,
}
use log.QsoTime.{qso_datetime_adif}
use log.Adif.Names.{normalize_field_name, insert_field}
use log.Adif.Import.{value_string}
use log.Adif.Export.{render}

unfoldable pub normalize_logger_mode : Text → Text
normalize_logger_mode mode = to_upper (trim mode)

unfoldable pub adif_mode_for_logger_mode : Text → Text
adif_mode_for_logger_mode mode =
    let normalized = normalize_logger_mode mode in
    if text_eq normalized (text "CW-R")
    then text "CW"
    else if text_eq normalized (text "DATA")
    then text "RTTY"
    else normalized

abbrev pub as_number : Value → Option ℤ
as_number (string s) = parse_i64 (trim s)
as_number v = as_i64 v

abbrev pub contact_i64 : Option Value → Option ℤ
contact_i64 value = value >>= as_number

abbrev pub magnitude : ℤ → ℕ
magnitude (pos n) = n
magnitude (negsuc n) = suc n

-- Without the zeros at the end.
unfoldable pub drop_zeros : Text → Text
drop_zeros [] = []
drop_zeros (c ∷ s) =
    let rest = drop_zeros s in if (c == b'0') && is_empty rest then [] else c ∷ rest

-- The point is never last, since the digits behind it are not all zero.
unfoldable pub format_frequency_mhz : ℤ → Text
format_frequency_mhz hz =
    let fractional = magnitude hz % 1000000 in
    let mhz = decimal (quot hz 1000000) in
    if fractional == 0 then mhz else mhz ++ b'.' ∷ drop_zeros (padded 6 (decimal (pos fractional)))

unfoldable pub frequency_value_string : Value → Option Text
frequency_value_string value = contact_i64 (some value) >>= λ hz. some (format_frequency_mhz hz)

unfoldable pub mode_value_string : Value → Option Text
mode_value_string value = value_string value >>= λ mode. some (adif_mode_for_logger_mode mode)

unfoldable pub should_skip_field : Text → Bool
should_skip_field name =
    starts_with name (text "_")
    || one_of (text "ID" ∷ text "LOG_ID" ∷ text "JSON" ∷ text "QSO_DATE_TIME_ON" ∷ []) name

unfoldable pub serialized : Text → Value → Option Text
serialized name value =
    if text_eq name (text "FREQ")
    then frequency_value_string value
    else if text_eq name (text "MODE")
    then mode_value_string value
    else value_string value

abbrev pub insert_serialized : Text → Option Text → Table Text Text → Table Text Text
insert_serialized name none fields = fields
insert_serialized name (some value) fields =
    if is_empty value then fields else insert_field name value fields

-- One field of the contact. The time of the contact is known where this is called, so that its own
-- date and time are left out.
unfoldable pub add_contact_field : Text → Value → Table Text Text → Table Text Text
add_contact_field key value fields =
    if should_skip_field key || one_of (text "QSO_DATE" ∷ text "TIME_ON" ∷ []) key
    then fields
    else if is_empty (normalize_field_name key)
    then fields
    else insert_serialized (normalize_field_name key) (serialized (normalize_field_name key) value)
        fields

unfoldable pub add_contact_fields : Fields → Table Text Text → Table Text Text
unfolding add_contact_field
add_contact_fields nil fields = fields
add_contact_fields (field key value rest) fields =
    add_contact_fields rest (add_contact_field key value fields)

abbrev pub add_station : Text → Table Text Text → Table Text Text
add_station station fields =
    let callsign = to_upper (trim station) in
    if contains_key (text "STATION_CALLSIGN") fields || is_empty callsign
    then fields
    else insert_field (text "STATION_CALLSIGN") callsign fields

-- Without a time that is valid, an error.
unfoldable pub contact_fields : Contact → Text → Option (Table Text Text)
unfolding add_contact_fields
contact_fields contact station =
    contact_i64 (contact_adif_value contact (text "QSO_DATE_TIME_ON"))
    >>= qso_datetime_adif
    >>= λ t. some (
        add_station station (
          add_contact_fields (unwrap_or (contact_adif contact) contact)
            (insert_field (text "TIME_ON") t.1 (insert_field (text "QSO_DATE") t.0 []))))

abbrev pub preferred_field_order : List Text
preferred_field_order =
    text "QSO_DATE"
    ∷ text "TIME_ON"
    ∷ text "STATION_CALLSIGN"
    ∷ text "OPERATOR"
    ∷ text "CALL"
    ∷ text "BAND"
    ∷ text "FREQ"
    ∷ text "MODE"
    ∷ text "RST_SENT"
    ∷ text "STX"
    ∷ text "STX_STRING"
    ∷ text "MY_STATE"
    ∷ text "MY_CNTY"
    ∷ text "MY_ARRL_SECT"
    ∷ text "MY_GRIDSQUARE"
    ∷ text "MY_CQ_ZONE"
    ∷ text "RST_RCVD"
    ∷ text "SRX"
    ∷ text "SRX_STRING"
    ∷ text "STATE"
    ∷ text "CNTY"
    ∷ text "ARRL_SECT"
    ∷ text "GRIDSQUARE"
    ∷ text "CQZ"
    ∷ text "DXCC"
    ∷ text "TX_PWR"
    ∷ []

unfoldable pub in_order : List Text → Table Text Text → List (Text × Text)
in_order [] remaining = remaining
in_order (key ∷ keys) remaining = elim (lookup key remaining) [
  | none ↦ in_order keys remaining
  | some value ↦ (key, value) ∷ in_order keys (remove key remaining)
]

unfoldable pub ordered_fields : Table Text Text → List (Text × Text)
unfolding in_order
ordered_fields fields = in_order preferred_field_order fields

-- The fields of each contact, unless one of them has none.
unfoldable pub all_fields : List Contact → Text → Option (List (List (Text × Text)))
unfolding ordered_fields
all_fields [] station = some []
all_fields (contact ∷ contacts) station = contact_fields contact station >>= λ fields.
    all_fields contacts station >>= λ rows. some (ordered_fields fields ∷ rows)

unfoldable pub render_log : Text → Text → List Contact → Option Text
unfolding all_fields
render_log program_version station contacts =
    all_fields contacts station >>= λ rows. some (render program_version rows)
