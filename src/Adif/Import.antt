-- ===== src/Adif/Import.antt =====
-- Contacts of an ADIF file (`import_contacts` of backend/src/adif.rs). The reader of floating-point
-- numbers is a parameter: the hertz of a frequency in megahertz, if it is finite and positive.
use log.Base.{
  ℕ, Bool, not, Option, none, some, List, [], ◌∷◌, if◌then◌else◌, ◌>>=◌, keep_if, find_first,
}
use log.Base.Int.{ℤ, pos, leb_ℤ}
use log.Base.Text.{Text, text, trim, is_empty, one_of, eq_ignore_case, parse_i64}
use log.Base.Table.{Table, lookup, text_eq_instance}
use log.Contact.{
  Contact, Value, Fields, int, number, string, nil, field, get, put, as_object, build_contact,
  value_text,
}
use log.QsoTime.{qso_epoch}
use log.Adif.Names.{normalize_field_name}
use log.Adif.Parse.{AdifRecord, ParseError, ok, failed, parse_records}

pub data ImportMapping : Type 0 where
  adif_field : Text → ImportMapping
  fixed_config : ImportMapping
  fixed_value : Text → ImportMapping

-- The fields of `ExchangeField` and of `Log` that an import reads.
pub record ExchangeField : Type 0 where
  pub adif : Text
  pub label : Text
  pub source : Option Text
  pub default : Option Value

pub record Log : Type 0 where
  pub contest_id : Text
  pub contest_params : Value

pub data ImportError : Type 0 where
  refused : ℕ → ParseError → ImportError
  no_records invalid_time invalid_frequency : ImportError
  is_required mapping_required no_fixed_value value_required : Text → ImportError
  source_missing : Text → Text → ImportError

-- A result, or the line of an error and the error.
pub data Imported (A : Type 0) : Type 0 where
  imported : A → Imported A
  stopped : ℕ → ImportError → Imported A

abbrev pub then_import : {A B : Type 0} → Imported A → (A → Imported B) → Imported B
then_import (imported a) f = f a
then_import (stopped line error) f = stopped line error

abbrev pub or_stop : {A : Type 0} → ℕ → ImportError → Option A → Imported A
or_stop line error none = stopped line error
or_stop line error (some a) = imported a

abbrev pub trimmed : Value → Value
trimmed (string s) = string (trim s)
trimmed v = v

-- Strings are trimmed, numbers and Booleans printed.
unfoldable pub value_string : Value → Option Text
value_string v = value_text (trimmed v)

unfoldable pub required_field : AdifRecord → Text → Imported Text
required_field r name =
    or_stop r.line (is_required name) (
      keep_if (λ value. not (is_empty value)) (lookup name r.fields >>= λ value. some (trim value)))

unfoldable pub fixed_config_value : Log → ExchangeField → Option Text
fixed_config_value log f = elim f.source [
  | none ↦ f.default >>= value_string
  | some param ↦ as_object log.contest_params >>= λ params.
      get param params >>= λ value. keep_if (λ t. not (is_empty t)) (value_string value)
]

abbrev pub not_blank : Text → Bool
not_blank value = not (is_empty (trim value))

abbrev pub mapped : Log → ExchangeField → AdifRecord → ImportMapping → Imported Text
mapped log f r (adif_field source) =
    or_stop r.line (source_missing f.label (normalize_field_name source))
      (keep_if not_blank (lookup (normalize_field_name source) r.fields))
mapped log f r fixed_config = or_stop r.line (no_fixed_value f.label) (fixed_config_value log f)
mapped log f r (fixed_value value) = imported (trim value)

unfoldable pub mapping_value : Log → ExchangeField → AdifRecord → ImportMapping → Imported Text
mapping_value log f r mapping =
    then_import (mapped log f r mapping)
      (λ value. if is_empty value then stopped r.line (value_required f.label) else imported value)

unfoldable pub import_qso_epoch : AdifRecord → Imported ℤ
import_qso_epoch r = then_import (required_field r (text "QSO_DATE")) (λ date.
    then_import (required_field r (text "TIME_ON"))
      (λ time. or_stop r.line invalid_time (qso_epoch date time)))

-- The record's own fields, but for those that name an id or a state of another program.
unfoldable pub own_fields : Table Text Text → Fields
own_fields [] = nil
own_fields ((name, value) ∷ fields) =
    let rest = own_fields fields in
    if one_of (text "ID" ∷ text "_ID" ∷ text "_LOG_ID" ∷ text "_STATUS" ∷ []) name
    then rest
    else field name (string value) rest

unfoldable pub require_all : AdifRecord → List Text → Imported (Unit {0})
require_all r [] = imported tt
require_all r (name ∷ names) = then_import (required_field r name) (λ value. require_all r names)

unfoldable pub add_exchange :
    Log → Table Text ImportMapping → AdifRecord → List ExchangeField → Fields → Imported Fields
add_exchange log mappings r [] adif = imported adif
add_exchange log mappings r (f ∷ fs) adif =
    then_import
      (or_stop r.line (mapping_required f.label)
        (find_first (λ m. eq_ignore_case m.0 f.adif) mappings))
      (λ mapping.
        then_import (mapping_value log f r mapping.1)
          (λ value. add_exchange log mappings r fs (put f.adif (string value) adif)))

module _ (hertz_of : Text → Option ℤ) where
  unfoldable pub import_frequency_hz : Text → Option ℤ
  import_frequency_hz value =
      if is_empty (trim value)
      then none
      else elim (keep_if (λ z. not (leb_ℤ z (pos 1000))) (parse_i64 (trim value))) [
        | some hz ↦ some hz
        | none ↦ hertz_of (trim value)
      ]

  unfoldable pub import_record :
      Log → List ExchangeField → Table Text ImportMapping → AdifRecord → Imported Contact
  import_record log exchange mappings r = then_import (import_qso_epoch r) (λ epoch.
      then_import (required_field r (text "FREQ")) (λ freq.
        then_import (or_stop r.line invalid_frequency (import_frequency_hz freq)) (λ hz.
          then_import
            (require_all r (text "STATION_CALLSIGN" ∷ text "CALL" ∷ text "BAND" ∷ text "MODE" ∷ []))
            (λ all.
              then_import
                (add_exchange log mappings r exchange (
                  put (text "FREQ") (number (int hz)) (
                    put (text "CONTEST_ID") (string log.contest_id)
                      (put (text "QSO_DATE_TIME_ON") (number (int epoch)) (own_fields r.fields)))))
                (λ adif. imported (build_contact nil adif))))))

  unfoldable pub import_all :
      Log
      → List ExchangeField
      → Table Text ImportMapping
      → List AdifRecord
      → Imported (List (ℕ × Contact))
  unfolding import_record
  import_all log exchange mappings [] = imported []
  import_all log exchange mappings (r ∷ records) =
      then_import (import_record log exchange mappings r) (λ contact.
        then_import (import_all log exchange mappings records)
          (λ contacts. imported ((r.line, contact) ∷ contacts)))

  unfoldable pub import_contacts :
      Log → List ExchangeField → Text → Table Text ImportMapping → Imported (List (ℕ × Contact))
  unfolding import_all
  import_contacts log exchange s mappings = elim (parse_records s) [
    | failed line error ↦ stopped 1 (refused line error)
    | ok [] ↦ stopped 1 no_records
    | ok (r ∷ records) ↦ import_all log exchange mappings (r ∷ records)
  ]
