-- ===== src/Adif/Files.antt =====
-- A whole ADIF file, written and read back (`render_log` and `parse_records` of backend/src/adif.rs).
use log.Base.{
  ℕ, suc, ◌+◌, ◌^◌, ◌<◌, ◌≡◌, ◌∙◌, ap, refl, Bool, true, false, none, some, List, [], ◌∷◌, ◌++◌,
  arith, inl, inr, Bool-cases, if◌then◌else◌,
}
use log.Base.Text.{Text, text, text_eq, to_upper, trim_start, trim_end, trim, is_empty, byte_len}
use log.Base.Table.{Table}
use log.LogCache.Cached.{leb_text}
use log.Adif.Names.{normalize_field_name, single_line, insert_field}
use log.Adif.Parse.{
  AdifRecord, AdifParser, ok, no_fields, end_record, end_header, add_field, finish, parse_loop,
  parse_records, read_next, read_tag, scan_tag, initial_parser, advance,
}
use log.Adif.Export.{serialize_field, serialize_fields, render_records, render}
use log.Adif.RoundTrip.{run, run_field, after_field, byte_len-append, append_assoc, run_next}

-- What a reader makes of the fields of a record.
abbrev pub read_fields : List (Text × Text) → Table Text Text → Table Text Text
read_fields [] fields = fields
read_fields ((name, value) ∷ more) fields =
    read_fields more (insert_field (normalize_field_name name) (trim (single_line value)) fields)

-- The records of a file whose first record is on the given line, one on each.
abbrev pub read_rows : ℕ → List (List (Text × Text)) → List AdifRecord
read_rows line [] = []
read_rows line (row ∷ rows) =
    record { line = line; fields = read_fields row [] } ∷ read_rows (suc line) rows

-- Every name has a character beside white space.
abbrev pub AllNamed : List (Text × Text) → Type 0
AllNamed [] = Unit {0}
AllNamed ((name, value) ∷ fields) = (is_empty (normalize_field_name name) ≡ false) × AllNamed fields

-- Every record has a field, and its fields have names.
abbrev pub AllRows : List (List (Text × Text)) → Type 0
AllRows [] = Unit {0}
AllRows ([] ∷ rows) = ⊥
AllRows ((f ∷ row) ∷ rows) = AllNamed (f ∷ row) × AllRows rows

-- The parser behind the header, within a record that began on its line.
abbrev within : ℕ → ℕ → Table Text Text → List AdifRecord → AdifParser
within index line fields records = record {
  index = index;
  line = line;
  in_header = false;
  pending = [];
  pending_line = none;
  current = fields;
  current_line = if no_fields fields then none else some line;
  records = records;
}

pub insert_field-some :
    (name value : Text) (fields : Table Text Text)
    → no_fields (insert_field name value fields) ≡ false
unfolding insert_field
insert_field-some name value [] = refl
insert_field-some name value ((other, v) ∷ fields) = elim (Bool-cases (leb_text name other)) [
  | inl e ↦ elim (Bool-cases (leb_text other name)) [
    | inl f ↦ rw (e, f) refl
    | inr f ↦ rw (e, f) refl
  ]
  | inr e ↦ rw e refl
]

first_line :
    (b : Bool) (line : ℕ) → (if b then some line else (if b then none else some line)) ≡ some line
first_line true line = refl
first_line false line = refl

after_field-within :
    (name value : Text) (i line : ℕ) (fields : Table Text Text) (records : List AdifRecord)
    → after_field name value (within i line fields records)
      ≡ within
          (i + byte_len (serialize_field name value))
          line
          (insert_field (normalize_field_name name) (trim (single_line value)) fields)
          records
unfolding add_field
after_field-within name value i line fields records =
    rw
      (
        insert_field-some (normalize_field_name name) (trim (single_line value)) fields,
        first_line (no_fields fields) line,
      )
      refl

no_bytes : (i : ℕ) → i ≡ i + byte_len []
unfolding byte_len
no_bytes i = omega arith

run_fields :
    (row : List (Text × Text)) (i line : ℕ) (fields : Table Text Text) (records : List AdifRecord)
    (t : Text)
    → AllNamed row
    → i + byte_len (serialize_fields row) < 2 ^ 63
    → run (within i line fields records) (serialize_fields row ++ t)
      ≡ run (within (i + byte_len (serialize_fields row)) line (read_fields row fields) records) t
unfolding serialize_fields
run_fields [] i line fields records t a h =
    ap (λ j. run (within j line fields records) t) (no_bytes i)
run_fields ((name, value) ∷ row) i line fields records t a h =
    let field = serialize_field name value in
    let rest = serialize_fields row in
    let next = insert_field (normalize_field_name name) (trim (single_line value)) fields in
    let k : i + byte_len field + byte_len rest ≡ i + byte_len (field ++ rest) =
      omega (arith, byte_len-append field rest) in
    ap (run (within i line fields records)) (append_assoc field rest t)
    ∙ (run_field name value (rest ++ t) (within i line fields records) a.0 (omega (arith, k, h))
        ∙ (ap (λ p. run p (rest ++ t)) (after_field-within name value i line fields records)
            ∙ (run_fields row (i + byte_len field) line next records t a.1 (omega (arith, k, h))
                ∙ ap (λ j. run (within j line (read_fields row next) records) t) k)))

read_fields-some :
    (row : List (Text × Text)) (fields : Table Text Text)
    → no_fields fields ≡ false
    → no_fields (read_fields row fields) ≡ false
read_fields-some [] fields h = h
read_fields-some ((name, value) ∷ row) fields h =
    read_fields-some row _
      (insert_field-some (normalize_field_name name) (trim (single_line value)) fields)

abbrev end_mark : Text
end_mark = text "<EOR>\n"

read_end :
    (i line : ℕ) (fields : Table Text Text) (records : List AdifRecord) (t : Text)
    → no_fields fields ≡ false
    → read_next (within i line fields records) b'<' (text "EOR>\n" ++ t)
      ≡ ok (
        within (i + 5) (line + 0) [] (records ++ record { line = line; fields = fields } ∷ []),
        b'\n' ∷ t,
      )
unfolding end_record read_next read_tag byte_len scan_tag trim trim_start trim_end to_upper text_eq
read_end i line fields records t e = rw e refl

read_newline :
    (i line : ℕ) (records : List AdifRecord) (t : Text)
    → read_next (within i line [] records) b'\n' t ≡ ok (within (i + 1) (line + 1) [] records, t)
unfolding read_next byte_len
read_newline i line records t = refl

places :
    (i line : ℕ) (records : List AdifRecord) (t : Text)
    → run (within (i + 5 + 1) (line + 0 + 1) [] records) t
      ≡ run (within (i + byte_len end_mark) (suc line) [] records) t
unfolding byte_len
places i line records t =
    let p : i + 5 + 1 ≡ i + byte_len end_mark = omega arith in
    let q : line + 0 + 1 ≡ suc line = omega arith in
    ap (λ j. run (within j (line + 0 + 1) [] records) t) p
    ∙ ap (λ l. run (within (i + 6) l [] records) t) q

run_end :
    (i line : ℕ) (fields : Table Text Text) (records : List AdifRecord) (t : Text)
    → no_fields fields ≡ false
    → run (within i line fields records) (end_mark ++ t)
      ≡ run
          (within
            (i + byte_len end_mark)
            (suc line)
            []
            (records ++ record { line = line; fields = fields } ∷ []))
          t
run_end i line fields records t e =
    let rs = records ++ record { line = line; fields = fields } ∷ [] in
    run_next (within i line fields records) (within (i + 5) (line + 0) [] rs) b'<'
      (text "EOR>\n" ++ t) (b'\n' ∷ t) (read_end i line fields records t e)
    ∙ (run_next (within (i + 5) (line + 0) [] rs) (within (i + 5 + 1) (line + 0 + 1) [] rs) b'\n' t
          t (read_newline (i + 5) (line + 0) rs t)
        ∙ places i line rs t)

append_nil : (records : List AdifRecord) → records ≡ records ++ []
append_nil [] = refl
append_nil (r ∷ records) = ap (λ rs. r ∷ rs) (append_nil records)

append_one :
    (records : List AdifRecord) (r : AdifRecord) (more : List AdifRecord)
    → (records ++ r ∷ []) ++ more ≡ records ++ r ∷ more
append_one [] r more = refl
append_one (s ∷ records) r more = ap (λ rs. s ∷ rs) (append_one records r more)

run_rows :
    (rows : List (List (Text × Text))) (i line : ℕ) (records : List AdifRecord)
    → AllRows rows
    → i + byte_len (render_records rows) < 2 ^ 63
    → run (within i line [] records) (render_records rows) ≡ ok (records ++ read_rows line rows)
unfolding render_records parse_loop finish
run_rows [] i line records a h = ap ok (append_nil records)
run_rows ([] ∷ rows) i line records a h = elim a [ ]
run_rows (((name, value) ∷ row) ∷ rows) i line records a h =
    let fields = (name, value) ∷ row in
    let rest = end_mark ++ render_records rows in
    let j = i + byte_len (serialize_fields fields) in
    let read = read_fields fields [] in
    let e : no_fields read ≡ false =
      read_fields-some row _
        (insert_field-some (normalize_field_name name) (trim (single_line value)) []) in
    let m : i + (byte_len (serialize_fields fields) + byte_len rest) < 2 ^ 63 =
      omega (arith, byte_len-append (serialize_fields fields) rest, h) in
    let k : j + byte_len end_mark + byte_len (render_records rows) < 2 ^ 63 =
      omega (arith, byte_len-append end_mark (render_records rows), m) in
    run_fields fields i line [] records rest a.0 (omega (arith, m))
    ∙ (run_end j line read records (render_records rows) e
        ∙ (run_rows rows (j + byte_len end_mark) (suc line)
              (records ++ record { line = line; fields = read } ∷ []) a.1 k
            ∙ ap ok (
                append_one records (record { line = line; fields = read })
                  (read_rows (suc line) rows))))

-- The parser behind the first line.
abbrev behind_title : AdifParser
behind_title = record initial_parser { index = 18; line = 2 }

run_title : (t : Text) → run initial_parser (text "Log73 ADIF Export\n" ++ t) ≡ run behind_title t
unfolding parse_loop read_next byte_len
run_title t = refl

read_header_end :
    (parser : AdifParser) (t : Text)
    → read_next parser b'<' (text "EOH>\n" ++ t)
      ≡ ok (end_header (advance (text "<EOH>") parser), b'\n' ∷ t)
unfolding read_next read_tag scan_tag trim trim_start trim_end to_upper text_eq
read_header_end parser t = refl

run_header_end :
    (parser : AdifParser) (t : Text)
    → run parser (text "<EOH>\n" ++ t)
      ≡ run (advance (text "\n") (end_header (advance (text "<EOH>") parser))) t
unfolding read_next
run_header_end parser t =
    let next = end_header (advance (text "<EOH>") parser) in
    run_next parser next b'<' (text "EOH>\n" ++ t) (b'\n' ∷ t) (read_header_end parser t)
    ∙ run_next next (advance (text "\n") next) b'\n' t t refl

-- The parser behind the fields of the header.
abbrev behind_header : Text → AdifParser
behind_header version = after_field (text "PROGRAMVERSION") version (
    after_field (text "PROGRAMID") (text "Log73")
      (after_field (text "ADIF_VER") (text "3.1.0") behind_title))

abbrev index_of : Text → ℕ
index_of version = (behind_header version).index + 5 + 1

header_within :
    (version : Text)
    → advance (text "\n") (end_header (advance (text "<EOH>") (behind_header version)))
      ≡ within (index_of version) 3 [] []
unfolding add_field end_header byte_len
header_within version = refl

abbrev field_1 : Text
field_1 = serialize_field (text "ADIF_VER") (text "3.1.0")

abbrev field_2 : Text
field_2 = serialize_field (text "PROGRAMID") (text "Log73")

abbrev field_3 : Text → Text
field_3 version = serialize_field (text "PROGRAMVERSION") version

run_header :
    (version t : Text)
    → 18 + byte_len field_1 + byte_len field_2 + byte_len (field_3 version) < 2 ^ 63
    → run initial_parser (
        text "Log73 ADIF Export\n"
        ++ (field_1 ++ (field_2 ++ (field_3 version ++ (text "<EOH>\n" ++ t)))))
      ≡ run (within (index_of version) 3 [] []) t
unfolding add_field normalize_field_name trim trim_start trim_end
run_header version t h =
    let last = text "<EOH>\n" ++ t in
    let p = after_field (text "ADIF_VER") (text "3.1.0") behind_title in
    let q = after_field (text "PROGRAMID") (text "Log73") p in
    run_title (field_1 ++ (field_2 ++ (field_3 version ++ last)))
    ∙ (run_field (text "ADIF_VER") (text "3.1.0") (field_2 ++ (field_3 version ++ last))
          behind_title refl (omega (arith, h))
        ∙ (run_field (text "PROGRAMID") (text "Log73") (field_3 version ++ last) p refl
              (omega (arith, h))
            ∙ (run_field (text "PROGRAMVERSION") version last q refl (omega (arith, h))
                ∙ (run_header_end (behind_header version) t
                    ∙ ap (λ r. run r t) (header_within version)))))

six : (n : ℕ) → byte_len (text "<EOH>\n") + n ≡ 6 + n
unfolding byte_len
six n = refl

title : (n : ℕ) → byte_len (text "Log73 ADIF Export\n") + n ≡ 18 + n
unfolding byte_len
title n = refl

-- The bytes of a file, part by part.
file_bytes :
    (version : Text) (rows : List (List (Text × Text)))
    → byte_len (render version rows)
      ≡ 18
        + byte_len field_1
        + byte_len field_2
        + byte_len (field_3 version)
        + 6
        + byte_len (render_records rows)
unfolding render
file_bytes version rows =
    let rest = render_records rows in
    let last = text "<EOH>\n" ++ rest in
    let mark : byte_len last ≡ 6 + byte_len rest =
      byte_len-append (text "<EOH>\n") rest ∙ six (byte_len rest) in
    byte_len-append (text "Log73 ADIF Export\n") (field_1 ++ (field_2 ++ (field_3 version ++ last)))
    ∙ title (byte_len (field_1 ++ (field_2 ++ (field_3 version ++ last))))
    ∙ omega (
      arith,
      byte_len-append field_1 (field_2 ++ (field_3 version ++ last)),
      byte_len-append field_2 (field_3 version ++ last),
      byte_len-append (field_3 version) last,
      mark,
    )

index_of_lem :
    (version : Text)
    → index_of version ≡ 18 + byte_len field_1 + byte_len field_2 + byte_len (field_3 version) + 6
unfolding add_field
index_of_lem version = omega arith

-- A written file, of less than 2 ^ 63 bytes, in which every record has a field and every field a
-- name that is not only white space, is read back without an error: its records in their order, the
-- first on line 3 and one on each line, with the names normalized, and the values on one line and
-- without the white space around them.
pub parse_records-render :
    (version : Text) (rows : List (List (Text × Text)))
    → AllRows rows
    → byte_len (render version rows) < 2 ^ 63
    → parse_records (render version rows) ≡ ok (read_rows 3 rows)
unfolding parse_records render
parse_records-render version rows a h =
    let bytes = file_bytes version rows in
    let index = index_of_lem version in
    run_header version (render_records rows) (omega (arith, bytes, h))
    ∙ run_rows rows (index_of version) 3 [] a (omega (arith, bytes, index, h))
