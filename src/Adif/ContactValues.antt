-- ===== src/Adif/ContactValues.antt =====
-- The value that a contact gives each field of its record (`contact_fields` of backend/src/adif.rs),
-- read off the contact one name at a time, without the map of fields.
use log.Base.{
  ◌≡◌, ◌∙◌, sym, ap, refl, Bool, true, false, not, ◌||◌, Option, none, some, [], ◌∷◌, inl, inr,
  if◌then◌else◌, ◌>>=◌, or_else, unwrap_or, keep_if, Option-cases, Bool-cases,
}
use log.Base.Text.{Text, text, text_eq, text_eq_iff, trim, to_upper, is_empty, one_of}
use log.Base.Table.{Table, lookup, contains_key, text_eq_instance}
use log.Contact.{Contact, Value, Fields, nil, field, contact_adif, contact_adif_value}
use log.QsoTime.{qso_datetime_adif}
use log.Adif.Names.{normalize_field_name, insert_field}
use log.Adif.Contacts.{
  serialized, insert_serialized, should_skip_field, add_contact_field, add_contact_fields,
  add_station, contact_fields, contact_i64,
}
use log.Adif.FieldMaps.{lookup-insert_field, IsAscending, insert_field-IsAscending}

-- A field of a contact that is not for the file: one of the program's own, the date or the time, or
-- one without a name.
abbrev pub is_left_out : Text → Bool
is_left_out key =
    (should_skip_field key || one_of (text "QSO_DATE" ∷ text "TIME_ON" ∷ []) key)
    || is_empty (normalize_field_name key)

-- What one field of the contact gives a name of the file.
abbrev pub field_value : Text → Value → Text → Option Text
field_value key value k =
    if is_left_out key
    then none
    else if text_eq (normalize_field_name key) k
    then keep_if (λ v. not (is_empty v)) (serialized (normalize_field_name key) value)
    else none

-- The last of the fields that give the name a value decides.
abbrev pub adif_value : Fields → Text → Option Text
adif_value nil k = none
adif_value (field key value rest) k = or_else (adif_value rest k) (field_value key value k)

abbrev pub time_value : Text × Text → Text → Option Text
time_value t k =
    if text_eq (text "TIME_ON") k
    then some t.1
    else if text_eq (text "QSO_DATE") k
    then some t.0
    else none

abbrev pub station_value : Text → Text → Option Text
station_value station k =
    if is_empty (to_upper (trim station))
    then none
    else if text_eq (text "STATION_CALLSIGN") k
    then some (to_upper (trim station))
    else none

-- A name has the value of the contact's own field, that of its time, or the callsign of the station,
-- the first of them that there is.
abbrev pub contact_value : Contact → Text → Text → Option Text
contact_value contact station k =
    contact_i64 (contact_adif_value contact (text "QSO_DATE_TIME_ON"))
    >>= qso_datetime_adif
    >>= λ t.
        or_else (or_else (adif_value (unwrap_or (contact_adif contact) contact) k) (time_value t k))
          (station_value station k)

or_else_assoc : (a b c : Option Text) → or_else a (or_else b c) ≡ or_else (or_else a b) c
or_else_assoc none b c = refl
or_else_assoc (some v) b c = refl

lookup-insert_serialized :
    (name : Text) (o : Option Text) (fields : Table Text Text) (k : Text)
    → lookup k (insert_serialized name o fields)
      ≡ or_else
          (if text_eq name k then keep_if (λ v. not (is_empty v)) o else none)
          (lookup k fields)
lookup-insert_serialized name none fields k = nothing (text_eq name k)
  where
    nothing : (b : Bool) → lookup k fields ≡ or_else (if b then none else none) (lookup k fields)
    nothing true = refl
    nothing false = refl
lookup-insert_serialized name (some []) fields k = nothing (text_eq name k)
  where
    nothing : (b : Bool) → lookup k fields ≡ or_else (if b then none else none) (lookup k fields)
    nothing true = refl
    nothing false = refl
lookup-insert_serialized name (some (c ∷ value)) fields k =
    lookup-insert_field name (c ∷ value) k fields ∙ taken (text_eq name k)
  where
    taken :
        (b : Bool)
        → (if b then some (c ∷ value) else lookup k fields)
          ≡ or_else (if b then some (c ∷ value) else none) (lookup k fields)
    taken true = refl
    taken false = refl

lookup-add_contact_field :
    (key : Text) (value : Value) (fields : Table Text Text) (k : Text)
    → lookup k (add_contact_field key value fields)
      ≡ or_else (field_value key value k) (lookup k fields)
unfolding add_contact_field
lookup-add_contact_field key value fields k =
    elim (Bool-cases
      (should_skip_field key || one_of (text "QSO_DATE" ∷ text "TIME_ON" ∷ []) key)) [
        | inl e ↦ rw e refl
        | inr e ↦ elim (Bool-cases (is_empty (normalize_field_name key))) [
          | inl f ↦ rw (e, f) refl
          | inr f ↦
              rw (e, f)
                (lookup-insert_serialized (normalize_field_name key)
                  (serialized (normalize_field_name key) value) fields k)
        ]
      ]

lookup-add_contact_fields :
    (adif : Fields) (fields : Table Text Text) (k : Text)
    → lookup k (add_contact_fields adif fields) ≡ or_else (adif_value adif k) (lookup k fields)
unfolding add_contact_fields
lookup-add_contact_fields nil fields k = refl
lookup-add_contact_fields (field key value rest) fields k =
    lookup-add_contact_fields rest (add_contact_field key value fields) k
    ∙ (ap (or_else (adif_value rest k)) (lookup-add_contact_field key value fields k)
        ∙ or_else_assoc (adif_value rest k) (field_value key value k) (lookup k fields))

pub or_else-none : (a : Option Text) → or_else a none ≡ a
or_else-none none = refl
or_else-none (some v) = refl

lookup-same :
    (name k : Text) (fields : Table Text Text)
    → text_eq name k ≡ true
    → lookup k fields ≡ lookup name fields
lookup-same name k fields e = sym (ap (λ n. lookup n fields) ((text_eq_iff name k).0 e))

lookup-add_station :
    (station : Text) (fields : Table Text Text) (k : Text)
    → lookup k (add_station station fields) ≡ or_else (lookup k fields) (station_value station k)
unfolding contains_key
lookup-add_station station fields k =
    let name = text "STATION_CALLSIGN" in
    elim (Option-cases (lookup name fields)) [
      | inl e ↦ elim (Bool-cases (is_empty (to_upper (trim station)))) [
        | inl b ↦ rw (e, b) (sym (or_else-none (lookup k fields)))
        | inr b ↦
            rw (e, b)
              (lookup-insert_field name (to_upper (trim station)) k fields
                ∙ elim (Bool-cases (text_eq name k)) [
                  | inl f ↦ rw (f, lookup-same name k fields f ∙ e) refl
                  | inr f ↦ rw f (sym (or_else-none (lookup k fields)))
                ])
      ]
      | inr (value, e) ↦ rw e (elim (Bool-cases (text_eq name k)) [
        | inl f ↦ rw (lookup-same name k fields f ∙ e) refl
        | inr f ↦ rw f (none_given (is_empty (to_upper (trim station))))
      ])
    ]
  where
    none_given : (b : Bool) → lookup k fields ≡ or_else (lookup k fields) (if b then none else none)
    none_given true = sym (or_else-none (lookup k fields))
    none_given false = sym (or_else-none (lookup k fields))

insert_serialized-IsAscending :
    (name : Text) (o : Option Text) (fields : Table Text Text)
    → IsAscending fields
    → IsAscending (insert_serialized name o fields)
insert_serialized-IsAscending name none fields h = h
insert_serialized-IsAscending name (some []) fields h = h
insert_serialized-IsAscending name (some (c ∷ value)) fields h =
    insert_field-IsAscending name (c ∷ value) fields h

IsAscending-if :
    (b : Bool) (fields more : Table Text Text)
    → IsAscending fields
    → IsAscending more
    → IsAscending (if b then fields else more)
IsAscending-if true fields more h k = h
IsAscending-if false fields more h k = k

add_contact_fields-IsAscending :
    (adif : Fields) (fields : Table Text Text)
    → IsAscending fields
    → IsAscending (add_contact_fields adif fields)
unfolding add_contact_fields add_contact_field
add_contact_fields-IsAscending nil fields h = h
add_contact_fields-IsAscending (field key value rest) fields h =
    add_contact_fields-IsAscending rest (add_contact_field key value fields) (
      IsAscending-if (should_skip_field key || one_of (text "QSO_DATE" ∷ text "TIME_ON" ∷ []) key)
        fields _ h
        (IsAscending-if (is_empty (normalize_field_name key)) fields _ h (
          insert_serialized-IsAscending (normalize_field_name key)
            (serialized (normalize_field_name key) value) fields h)))

add_station-IsAscending :
    (station : Text) (fields : Table Text Text)
    → IsAscending fields
    → IsAscending (add_station station fields)
add_station-IsAscending station fields h =
    IsAscending-if
      (contains_key (text "STATION_CALLSIGN") fields || is_empty (to_upper (trim station))) fields _
      h (insert_field-IsAscending (text "STATION_CALLSIGN") (to_upper (trim station)) fields h)

-- The map before the fields of the contact are added.
abbrev dated_map : Text × Text → Table Text Text
dated_map t = insert_field (text "TIME_ON") t.1 (insert_field (text "QSO_DATE") t.0 [])

lookup-dated_map : (t : Text × Text) (k : Text) → lookup k (dated_map t) ≡ time_value t k
unfolding lookup
lookup-dated_map t k =
    lookup-insert_field (text "TIME_ON") t.1 k (insert_field (text "QSO_DATE") t.0 [])
    ∙ ap (λ o. if text_eq (text "TIME_ON") k then some t.1 else o)
        (lookup-insert_field (text "QSO_DATE") t.0 k [])

dated_map-IsAscending : (t : Text × Text) → IsAscending (dated_map t)
dated_map-IsAscending t =
    insert_field-IsAscending (text "TIME_ON") t.1 (insert_field (text "QSO_DATE") t.0 [])
      (insert_field-IsAscending (text "QSO_DATE") t.0 [] tt)

-- The map holds the values of the contact, its names in order.
abbrev pub HasValues : (Text → Option Text) → Option (Table Text Text) → Type 0
HasValues values none = Unit {0}
HasValues values (some fields) = IsAscending fields × ((k : Text) → lookup k fields ≡ values k)

pub contact_fields-HasValues :
    (contact : Contact) (station : Text)
    → HasValues (contact_value contact station) (contact_fields contact station)
unfolding contact_fields
contact_fields-HasValues contact station =
    dated (contact_i64 (contact_adif_value contact (text "QSO_DATE_TIME_ON")) >>= qso_datetime_adif)
  where
    adif : Fields
    adif = unwrap_or (contact_adif contact) contact

    dated :
        (o : Option (Text × Text))
        → HasValues
            (λ k. o >>= λ t.
              or_else (or_else (adif_value adif k) (time_value t k)) (station_value station k))
            (o >>= λ t. some (add_station station (add_contact_fields adif (dated_map t))))
    dated none = tt
    dated (some t) = (
      add_station-IsAscending station (add_contact_fields adif (dated_map t))
          (add_contact_fields-IsAscending adif (dated_map t) (dated_map-IsAscending t)),
      λ k.
          lookup-add_station station (add_contact_fields adif (dated_map t)) k
          ∙ ap (λ o. or_else o (station_value station k))
              (lookup-add_contact_fields adif (dated_map t) k
                ∙ ap (or_else (adif_value adif k)) (lookup-dated_map t k)),
    )
