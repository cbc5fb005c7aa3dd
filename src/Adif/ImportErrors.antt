-- ===== src/Adif/ImportErrors.antt =====
-- The errors of an import (`import_contacts` of backend/src/adif.rs).
use log.Base.{ℕ, ◌≡◌, refl, Option, none, some, List, [], ◌∷◌, map, if◌then◌else◌, find_map}
use log.Base.Int.{ℤ}
use log.Base.Text.{Text, text, is_empty}
use log.Base.Table.{Table}
use log.Contact.{Contact, Fields, string, put}
use log.QsoTime.{qso_epoch}
use log.Adif.Parse.{AdifRecord}
use log.Adif.Import.{
  ImportMapping, adif_field, fixed_config, fixed_value, ExchangeField, Log, ImportError, Imported,
  imported, stopped, then_import, or_stop, required_field, mapped, mapping_value, import_qso_epoch,
  require_all, add_exchange, import_frequency_hz, import_record,
}

-- If an import stops, it is at this line.
abbrev pub StopsAt : {A : Type 0} → ℕ → Imported A → Type 0
StopsAt line (imported a) = Unit {0}
StopsAt line (stopped other error) = other ≡ line

module _ {A : Type 0} where
  or_stop-StopsAt :
      (line : ℕ) (error : ImportError) (o : Option A) → StopsAt line (or_stop line error o)
  or_stop-StopsAt line error none = refl
  or_stop-StopsAt line error (some a) = tt

  then_import-StopsAt :
      {B : Type 0} (line : ℕ) (r : Imported B) (f : B → Imported A)
      → StopsAt line r
      → ((b : B) → StopsAt line (f b))
      → StopsAt line (then_import r f)
  then_import-StopsAt line (imported b) f h k = k b
  then_import-StopsAt line (stopped other error) f h k = h

required_field-StopsAt : (r : AdifRecord) (name : Text) → StopsAt r.line (required_field r name)
unfolding required_field
required_field-StopsAt r name = or_stop-StopsAt r.line _ _

mapped-StopsAt :
    (log : Log) (f : ExchangeField) (r : AdifRecord) (m : ImportMapping)
    → StopsAt r.line (mapped log f r m)
mapped-StopsAt log f r (adif_field source) = or_stop-StopsAt r.line _ _
mapped-StopsAt log f r fixed_config = or_stop-StopsAt r.line _ _
mapped-StopsAt log f r (fixed_value value) = tt

mapping_value-StopsAt :
    (log : Log) (f : ExchangeField) (r : AdifRecord) (m : ImportMapping)
    → StopsAt r.line (mapping_value log f r m)
unfolding mapping_value
mapping_value-StopsAt log f r m =
    then_import-StopsAt r.line (mapped log f r m) _ (mapped-StopsAt log f r m)
      (λ value. filled value)
  where
    filled :
        (value : Text)
        → StopsAt r.line (
            if is_empty value
            then stopped r.line (ImportError.value_required f.label)
            else imported value)
    filled [] = refl
    filled (c ∷ value) = tt

import_qso_epoch-StopsAt : (r : AdifRecord) → StopsAt r.line (import_qso_epoch r)
unfolding import_qso_epoch
import_qso_epoch-StopsAt r =
    then_import-StopsAt r.line (required_field r (text "QSO_DATE")) _
      (required_field-StopsAt r (text "QSO_DATE"))
      (λ date.
        then_import-StopsAt r.line (required_field r (text "TIME_ON")) _
          (required_field-StopsAt r (text "TIME_ON"))
          (λ time. or_stop-StopsAt r.line _ (qso_epoch date time)))

require_all-StopsAt : (r : AdifRecord) (names : List Text) → StopsAt r.line (require_all r names)
unfolding require_all
require_all-StopsAt r [] = tt
require_all-StopsAt r (name ∷ names) =
    then_import-StopsAt r.line (required_field r name) _ (required_field-StopsAt r name)
      (λ value. require_all-StopsAt r names)

add_exchange-StopsAt :
    (log : Log) (mappings : Table Text ImportMapping) (r : AdifRecord) (fs : List ExchangeField)
    (adif : Fields)
    → StopsAt r.line (add_exchange log mappings r fs adif)
unfolding add_exchange
add_exchange-StopsAt log mappings r [] adif = tt
add_exchange-StopsAt log mappings r (f ∷ fs) adif =
    then_import-StopsAt r.line _ _ (or_stop-StopsAt r.line _ _) (λ m.
      then_import-StopsAt r.line (mapping_value log f r m.1) _ (mapping_value-StopsAt log f r m.1)
        (λ value. add_exchange-StopsAt log mappings r fs (put f.adif (string value) adif)))

module _ (hertz_of : Text → Option ℤ) (log : Log) (exchange : List ExchangeField)
    (mappings : Table Text ImportMapping) where
  pub import_record-StopsAt :
      (r : AdifRecord) → StopsAt r.line (import_record hertz_of log exchange mappings r)
  unfolding import_record
  import_record-StopsAt r =
      then_import-StopsAt r.line (import_qso_epoch r) _ (import_qso_epoch-StopsAt r) (λ epoch.
        then_import-StopsAt r.line (required_field r (text "FREQ")) _
          (required_field-StopsAt r (text "FREQ"))
          (λ freq.
            then_import-StopsAt r.line _ _
              (or_stop-StopsAt r.line _ (import_frequency_hz hertz_of freq))
              (λ hz. then_import-StopsAt r.line _ _ (require_all-StopsAt r _) (λ all.
                then_import-StopsAt r.line _ _ (add_exchange-StopsAt log mappings r exchange _)
                  (λ adif. tt)))))

  -- The error of a record, if it has one.
  abbrev pub error_of : AdifRecord → Option (ℕ × ImportError)
  error_of r = elim (import_record hertz_of log exchange mappings r) [
    | imported contact ↦ none
    | stopped line error ↦ some (r.line, error)
  ]

  -- What an import gives for the records of a file: every record's contact at its line, or one error.
  abbrev pub Outcome : List AdifRecord → Imported (List (ℕ × Contact)) → Type 0
  Outcome records (stopped line error) = find_map error_of records ≡ some (line, error)
  Outcome records (imported contacts) =
      (find_map error_of records ≡ none) × (map (λ c. c.0) contacts ≡ map (λ r. r.line) records)
