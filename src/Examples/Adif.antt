-- ===== src/Examples/Adif.antt =====
-- An ADIF file of two records, and files that are refused.
use log.Base.{
  ltb, ltb→lt, ℕ, ◌<◌, ◌^◌, ◌≤◌, ◌≡◌, refl, Bool, true, false, Option, none, some, List, [], ◌∷◌,
  arith, length,
}
use log.Base.Int.{ℤ, pos}
use log.Base.Table.{Table, lookup, text_eq_instance}
use log.Base.Text.{trim, decimal, Text, text, byte_len}
use log.Adif.Parse.{
  AdifRecord, Parsed, ok, failed, parse_records, parse_loop, initial_parser, truncated, not_utf8,
  invalid_tag, unterminated_tag, index_overflow, empty_name,
}
use log.Adif.Names.{normalize_field_name, single_line}
use log.Adif.Export.{render}
use log.Adif.Files.{parse_records-render, read_rows}
use log.Adif.Import.{
  ImportMapping, adif_field, ExchangeField, Log, import_all, Imported, stopped, is_required,
}
use log.Adif.Records.{AllFilled, parse_records-AllFilled}
use log.Contact.{Contact, string, number, int, nil, build_contact}
use log.Adif.Contacts.{all_fields, render_log, ordered_fields}
use log.Adif.Exported.{Reads, parse_records-render_log, lookup-ordered_fields}
use log.Adif.Fuel.{Finished, parse_loop_fuel}

abbrev rows : List (List (Text × Text))
rows =
    ((text "CALL", text "W1AW") ∷ (text "comment", text " two\nlines ") ∷ [])
    ∷ ((text "CALL", text "K1ABC") ∷ [])
    ∷ []

rows_bytes : ltb (byte_len (render (text "1.0") rows)) (2 ^ 63) ≡ true
unfolding render normalize_field_name trim byte_len single_line decimal
rows_bytes = refl

parse_records-render_example : parse_records (render (text "1.0") rows) ≡ ok (read_rows 3 rows)
unfolding normalize_field_name trim
parse_records-render_example =
    parse_records-render (text "1.0") rows ((refl, (refl, tt)), ((refl, tt), tt))
      (ltb→lt (byte_len (render (text "1.0") rows)) (2 ^ 63) rows_bytes)

abbrev one_record : List AdifRecord
one_record = record { line = 1; fields = (text "CALL", text "W1AW") ∷ [] } ∷ []

field_read : parse_records (text "<EOH><CALL:4>W1AW<EOR>") ≡ ok one_record
unfolding parse_records log.Adif.Parse.scan_tag log.Base.Text.text_eq log.Base.Text.to_upper
    log.Adif.Parse.add_field log.Adif.Parse.end_record log.Adif.Names.insert_field
    log.Adif.Parse.finish trim log.Adif.Parse.parse_tag log.Adif.Parse.tag_of log.Base.Text.split
    log.Base.Text.parse_unsigned log.Adif.Parse.read_value log.Adif.Parse.end_header byte_len
    log.Adif.Names.take_bytes normalize_field_name
field_read = refl

parse_records-AllFilled_example : AllFilled one_record
parse_records-AllFilled_example =
    parse_records-AllFilled (text "<EOH><CALL:4>W1AW<EOR>") one_record field_read

abbrev field : Text
field = text "<CALL:4>W1AW<EOR>"

parse_loop_fuel_example :
    Finished (parse_loop 40 initial_parser field)
    × (parse_loop 40 initial_parser field ≡ parse_records field)
parse_loop_fuel_example = parse_loop_fuel 40 field (omega arith)

truncated_test : parse_records (text "<EOH>\n<CALL:9>W1AW") ≡ failed 2 (truncated (text "CALL"))
unfolding parse_records log.Adif.Parse.scan_tag log.Base.Text.text_eq log.Base.Text.to_upper
    log.Base.Text.trim log.Adif.Parse.parse_tag log.Adif.Parse.tag_of log.Base.Text.split
    log.Base.Text.parse_unsigned log.Adif.Parse.read_value log.Adif.Parse.end_header byte_len
    log.Adif.Names.take_bytes log.Adif.Names.normalize_field_name
truncated_test = refl

overflow_test :
    parse_records (text "<EOH><CALL:18446744073709551615>W1AW") ≡ failed 1 index_overflow
unfolding parse_records log.Adif.Parse.scan_tag log.Base.Text.text_eq log.Base.Text.to_upper
    log.Base.Text.trim log.Adif.Parse.parse_tag log.Adif.Parse.tag_of log.Base.Text.split
    log.Base.Text.parse_unsigned log.Adif.Parse.read_value log.Adif.Parse.end_header byte_len
    log.Adif.Names.take_bytes log.Adif.Names.normalize_field_name
overflow_test = refl

half_char_test : parse_records (text "<EOH><CALL:1>é") ≡ failed 1 (not_utf8 (text "CALL"))
unfolding parse_records log.Adif.Parse.scan_tag log.Base.Text.text_eq log.Base.Text.to_upper
    log.Base.Text.trim log.Adif.Parse.parse_tag log.Adif.Parse.tag_of log.Base.Text.split
    log.Base.Text.parse_unsigned log.Adif.Parse.read_value log.Adif.Parse.end_header byte_len
    log.Adif.Names.take_bytes log.Adif.Names.normalize_field_name
half_char_test = refl

abbrev twenty : Text → Option ℤ
twenty s = some (pos 14025000)

abbrev contest : Log
contest = record { contest_id = text "CQ-WW"; contest_params = log.Contact.null }

abbrev zone : List ExchangeField
zone = record { adif = text "CQZ"; label = text "Zone"; source = none; default = none } ∷ []

abbrev from_field : Table Text ImportMapping
from_field = (text "cqz", adif_field (text "CQZ")) ∷ []

abbrev worked : AdifRecord
worked = record {
  line = 3;
  fields =
      (text "BAND", text "20m")
      ∷ (text "CALL", text "W1AW")
      ∷ (text "CQZ", text "5")
      ∷ (text "FREQ", text "14.025")
      ∷ (text "MODE", text "CW")
      ∷ (text "QSO_DATE", text "20240101")
      ∷ (text "STATION_CALLSIGN", text "K1ABC")
      ∷ (text "TIME_ON", text "1200")
      ∷ [];
}

abbrev undated : AdifRecord
undated = record { line = 4; fields = (text "CALL", text "W1AW") ∷ [] }

import_test :
    import_all twenty contest zone from_field (undated ∷ worked ∷ [])
    ≡ stopped 4 (is_required (text "QSO_DATE"))
unfolding import_all log.Adif.Import.import_qso_epoch log.Adif.Import.required_field
    log.Base.Table.lookup log.Base.Text.text_eq trim log.Adif.Import.import_record
import_test = refl

abbrev exported : List Contact
exported =
    build_contact nil (
      log.Contact.field (text "CALL") (string (text "W1AW"))
        (log.Contact.field (text "QSO_DATE_TIME_ON") (number (int (pos 1700000123))) nil))
    ∷ []

abbrev exported_rows : List (List (Text × Text))
exported_rows =
    ((text "QSO_DATE", text "20231114")
      ∷ (text "TIME_ON", text "221523")
      ∷ (text "STATION_CALLSIGN", text "K1ABC")
      ∷ (text "CALL", text "W1AW")
      ∷ [])
    ∷ []

exported_fields : all_fields exported (text "k1abc") ≡ some exported_rows
unfolding all_fields log.Adif.Contacts.contact_fields log.Contact.contact_adif_value
    log.Contact.contact_adif log.Contact.get build_contact log.Contact.put log.Base.Text.text_eq
    log.Contact.normalize_contact_adif log.Contact.normalize_adif_field_name log.Base.Text.to_upper
    trim log.QsoTime.qso_datetime_adif lookup log.Base.Table.contains_key
    log.Adif.Contacts.should_skip_field log.Base.Text.starts_with
    log.Adif.Contacts.add_contact_field log.Adif.Contacts.add_contact_fields ordered_fields
    log.Adif.Contacts.serialized log.Adif.Import.value_string log.Adif.Names.insert_field
    normalize_field_name log.Base.Int.quot log.Base.Int.◌*ℤ◌ log.Base.Int.◌+ℤ◌ log.Base.Int.◌-ℤ◌
    log.Base.Table.remove decimal log.Base.Text.padded log.LogCache.Cached.leb_text
    log.QsoTime.calendar_date log.QsoTime.civil_from_days log.QsoTime.civil_of_doe
    log.QsoTime.days_before_year log.QsoTime.era_of log.QsoTime.qso_datetime_parts
    log.QsoTime.two_digits log.QsoTime.year_of_doe log.QsoTime.year_text
exported_fields = refl

exported_bytes : ltb (byte_len (render (text "1.0") exported_rows)) (2 ^ 63) ≡ true
unfolding render normalize_field_name trim byte_len single_line decimal
exported_bytes = refl

exported_file :
    render_log (text "1.0") (text "k1abc") exported ≡ some (render (text "1.0") exported_rows)
unfolding render_log
exported_file = rw (render_log, exported_fields) refl

parse_records-render_log_example :
    (records : List AdifRecord) × (parse_records (render (text "1.0") exported_rows) ≡ ok records)
    × Reads (text "k1abc") 3 exported records
parse_records-render_log_example =
    parse_records-render_log (text "1.0") (text "k1abc") exported
      (render (text "1.0") exported_rows) exported_file
      (ltb→lt (byte_len (render (text "1.0") exported_rows)) (2 ^ 63) exported_bytes)

lookup-ordered_fields_example :
    lookup
      (text "CALL")
      (ordered_fields ((text "CALL", text "W1AW") ∷ (text "QSO_DATE", text "20231114") ∷ []))
    ≡ lookup (text "CALL") ((text "CALL", text "W1AW") ∷ (text "QSO_DATE", text "20231114") ∷ [])
lookup-ordered_fields_example =
    lookup-ordered_fields ((text "CALL", text "W1AW") ∷ (text "QSO_DATE", text "20231114") ∷ [])
      (text "CALL")
