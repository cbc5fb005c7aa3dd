-- ===== src/Adif/Exported.antt =====
-- An exported log (`render_log` of backend/src/adif.rs).
use log.Base.{
  ℕ, suc, ◌^◌, ◌<◌, ◌≡◌, ◌∙◌, sym, ap, subst, refl, Bool, true, false, ◌||◌, Option, none, some,
  List, [], ◌∷◌, arith, inl, inr, Bool-cases, if◌then◌else◌, ◌>>=◌, unwrap_or,
}
use log.Base.Text.{Text, text, trim, to_upper, is_empty, one_of, byte_len}
use log.Base.Table.{Table, lookup, contains_key, text_eq_instance}
use log.Contact.{Contact, Value, Fields, nil, field, contact_adif, contact_adif_value}
use log.QsoTime.{qso_datetime_adif}
use log.Adif.Names.{normalize_field_name, insert_field}
use log.Adif.Parse.{AdifRecord, ok, no_fields, parse_records}
use log.Adif.FieldMaps.{ascending-IsUnique, clean, lookup-read_fields}
use log.Adif.ContactValues.{contact_value, HasValues, contact_fields-HasValues, or_else-none}
use log.Adif.Export.{render}
use log.Adif.Fields.{normalize-is_name}
use log.Adif.Files.{AllNamed, AllRows, read_rows, parse_records-render, insert_field-some}
use log.Adif.Records.{IsFieldName, AllNames, insert_field-AllNames}
use log.Adif.Ordering.{
  lookup-in_order, in_order-AllNamed, in_order-some, in_order-AllNames, in_order-IsUnique,
}
use log.Adif.Contacts.{
  serialized, insert_serialized, should_skip_field, add_contact_field, add_contact_fields,
  add_station, contact_fields, contact_i64, preferred_field_order, in_order, ordered_fields,
  all_fields, render_log,
}

-- The order in which the fields of a contact are written keeps what each name has.
pub lookup-ordered_fields :
    (fields : Table Text Text) (k : Text) → lookup k (ordered_fields fields) ≡ lookup k fields
unfolding ordered_fields
lookup-ordered_fields fields k = lookup-in_order preferred_field_order fields k

insert_serialized-AllNames :
    (name : Text) (o : Option Text) (fields : Table Text Text)
    → IsFieldName name
    → AllNames fields
    → AllNames (insert_serialized name o fields)
insert_serialized-AllNames name none fields n h = h
insert_serialized-AllNames name (some []) fields n h = h
insert_serialized-AllNames name (some (c ∷ value)) fields n h =
    insert_field-AllNames name (c ∷ value) fields n h

insert_serialized-some :
    (name : Text) (o : Option Text) (fields : Table Text Text)
    → no_fields fields ≡ false
    → no_fields (insert_serialized name o fields) ≡ false
insert_serialized-some name none fields h = h
insert_serialized-some name (some []) fields h = h
insert_serialized-some name (some (c ∷ value)) fields h = insert_field-some name (c ∷ value) fields

-- Fields with good names, of which there is one at least.
abbrev IsWritable : Table Text Text → Type 0
IsWritable fields = AllNames fields × (no_fields fields ≡ false)

IsWritable-if :
    (b : Bool) (fields more : Table Text Text)
    → IsWritable fields
    → IsWritable more
    → IsWritable (if b then fields else more)
IsWritable-if true fields more h k = h
IsWritable-if false fields more h k = k

add_contact_field-IsWritable :
    (key : Text) (value : Value) (fields : Table Text Text)
    → IsWritable fields
    → IsWritable (add_contact_field key value fields)
unfolding add_contact_field
add_contact_field-IsWritable key value fields h =
    let name = normalize_field_name key in
    IsWritable-if (should_skip_field key || one_of (text "QSO_DATE" ∷ text "TIME_ON" ∷ []) key)
      fields _ h
      (elim (Bool-cases (is_empty name)) [
        | inl e ↦ rw e h
        | inr e ↦ rw e (
          insert_serialized-AllNames name (serialized name value) fields (e, normalize-is_name key)
              h.0,
          insert_serialized-some name (serialized name value) fields h.1,
        )
      ])

add_contact_fields-IsWritable :
    (adif : Fields) (fields : Table Text Text)
    → IsWritable fields
    → IsWritable (add_contact_fields adif fields)
unfolding add_contact_fields
add_contact_fields-IsWritable nil fields h = h
add_contact_fields-IsWritable (field key value rest) fields h =
    add_contact_fields-IsWritable rest (add_contact_field key value fields)
      (add_contact_field-IsWritable key value fields h)

add_station-IsWritable :
    (station : Text) (fields : Table Text Text)
    → IsWritable fields
    → IsWritable (add_station station fields)
add_station-IsWritable station fields h =
    let name = text "STATION_CALLSIGN" in
    IsWritable-if (contains_key name fields || is_empty (to_upper (trim station))) fields _ h (
      insert_field-AllNames name (to_upper (trim station)) fields (refl, refl) h.0,
      insert_field-some name (to_upper (trim station)) fields,
    )

abbrev Writable : Option (Table Text Text) → Type 0
Writable none = Unit {0}
Writable (some fields) = IsWritable fields

contact_fields-Writable :
    (contact : Contact) (station : Text) → Writable (contact_fields contact station)
unfolding contact_fields
contact_fields-Writable contact station =
    dated (contact_i64 (contact_adif_value contact (text "QSO_DATE_TIME_ON")) >>= qso_datetime_adif)
  where
    dated :
        (o : Option (Text × Text))
        → Writable (
            o >>= λ t. some (
              add_station station (
                add_contact_fields
                  (unwrap_or (contact_adif contact) contact)
                  (insert_field (text "TIME_ON") t.1 (insert_field (text "QSO_DATE") t.0 [])))))
    dated none = tt
    dated (some t) =
        let date = insert_field (text "QSO_DATE") t.0 [] in
        let start : IsWritable (insert_field (text "TIME_ON") t.1 date) = (
          insert_field-AllNames (text "TIME_ON") t.1 date (refl, refl)
              (insert_field-AllNames (text "QSO_DATE") t.0 [] (refl, refl) tt),
          insert_field-some (text "TIME_ON") t.1 date,
        ) in
        add_station-IsWritable station _
          (add_contact_fields-IsWritable (unwrap_or (contact_adif contact) contact) _ start)

-- Each record stands on its line and holds, under every name, what the contact gives that name.
abbrev pub Reads : Text → ℕ → List Contact → List AdifRecord → Type 0
Reads station line [] [] = Unit {0}
Reads station line [] (r ∷ records) = ⊥
Reads station line (contact ∷ contacts) [] = ⊥
Reads station line (contact ∷ contacts) (r ∷ records) =
    (r.line ≡ line)
    × ((k : Text) → lookup k r.fields ≡ (contact_value contact station k >>= λ v. some (clean v)))
    × Reads station (suc line) contacts records

row-AllRows :
    (row : List (Text × Text)) (rows : List (List (Text × Text)))
    → AllNamed row
    → no_fields row ≡ false
    → AllRows rows
    → AllRows (row ∷ rows)
row-AllRows [] rows a e h = ground arith
row-AllRows (f ∷ row) rows a e h = (a, h)

-- The rows can be written, and what is read of them are the contacts.
abbrev Exported : Text → List Contact → Option (List (List (Text × Text))) → Type 0
Exported station contacts none = Unit {0}
Exported station contacts (some rows) =
    AllRows rows × ((line : ℕ) → Reads station line contacts (read_rows line rows))

all_fields-Exported :
    (contacts : List Contact) (station : Text)
    → Exported station contacts (all_fields contacts station)
unfolding all_fields ordered_fields lookup
all_fields-Exported [] station = (tt, λ line. tt)
all_fields-Exported (contact ∷ contacts) station =
    both (contact_fields contact station) (all_fields contacts station)
      (contact_fields-Writable contact station) (contact_fields-HasValues contact station)
      (all_fields-Exported contacts station)
  where
    both :
        (o : Option (Table Text Text)) (p : Option (List (List (Text × Text))))
        → Writable o
        → HasValues (contact_value contact station) o
        → Exported station contacts p
        → Exported station
            (contact ∷ contacts)
            (o >>= λ fields. p >>= λ rows. some (ordered_fields fields ∷ rows))
    both none p h v k = tt
    both (some fields) none h v k = tt
    both (some fields) (some rows) h v k = (
      row-AllRows (in_order preferred_field_order fields) rows
          (in_order-AllNamed preferred_field_order fields h.0)
          (in_order-some preferred_field_order fields h.1) k.0,
      λ line. (
        refl,
        λ name.
            lookup-read_fields (in_order preferred_field_order fields) [] name
              (in_order-AllNames preferred_field_order fields h.0)
              (in_order-IsUnique preferred_field_order fields (ascending-IsUnique fields v.0))
            ∙ (or_else-none
                  (lookup name (in_order preferred_field_order fields) >>= λ w. some (clean w))
                ∙ ap (λ o. o >>= λ w. some (clean w))
                    (lookup-in_order preferred_field_order fields name ∙ v.1 name)),
        k.1 (suc line),
      ),
    )

-- When the export of a log gives a file, of less than 2 ^ 63 bytes, the file is read back without an
-- error, as one record for each contact, in their order from line 3 on. Under every name a record
-- has the value the contact gives that name (its own field, else its date or time, else the callsign
-- of the station), with its line breaks replaced and trimmed, or none where the contact gives none.
pub parse_records-render_log :
    (version station : Text) (contacts : List Contact) (s : Text)
    → render_log version station contacts ≡ some s
    → byte_len s < 2 ^ 63
    → (records : List AdifRecord) × (parse_records s ≡ ok records)
      × Reads station 3 contacts records
unfolding render_log
parse_records-render_log version station contacts s e h =
    rendered (all_fields contacts station) (all_fields-Exported contacts station) e
  where
    rendered :
        (o : Option (List (List (Text × Text))))
        → Exported station contacts o
        → (o >>= λ rows. some (render version rows)) ≡ some s
        → (records : List AdifRecord) × (parse_records s ≡ ok records)
          × Reads station 3 contacts records
    rendered none x f = ground arith
    rendered (some rows) x f =
        let same_text : render version rows ≡ s = ap (λ o. unwrap_or o []) f in
        (
          read_rows 3 rows,
          subst (λ t. parse_records t ≡ ok (read_rows 3 rows)) same_text
              (parse_records-render version rows x.0
                (subst (λ t. byte_len t < 2 ^ 63) (sym same_text) h)),
          x.1 3,
        )
