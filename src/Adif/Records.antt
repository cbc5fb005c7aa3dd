-- ===== src/Adif/Records.antt =====
-- What every record of an ADIF file that is accepted is like (`parse_records` of
-- backend/src/adif.rs).
use log.Base.{
  ℕ, zero, suc, ◌+◌, ◌≡◌, refl, Bool, true, false, not, Option, none, some, List, [], ◌∷◌, ◌++◌,
  Bool-cases, inl, inr, ltb, ◌==◌, if◌then◌else◌, ◌>>=◌, all, length, unwrap_or, subst,
}
use log.Base.Text.{Text, text, text_eq, trim, to_upper, is_empty, split, parse_unsigned}
use log.Base.Table.{Table}
use log.LogCache.Cached.{leb_text}
use log.Adif.Names.{
  normalize_field_name, Taken, taken, past_end, inside_char, take_bytes, insert_field,
}
use log.Adif.Parse.{
  AdifRecord, AdifParser, Parsed, ok, failed, no_fields, pushed, end_header, end_record, add_field,
  advance, tag_of, parse_tag, usize_max, scan_tag, read_taken, read_value, read_field, read_tag,
  read_scanned, read_next, and_then, finish, parse_loop, parse_records, initial_parser,
}
use log.Adif.Fields.{is_name, normalize-is_name}

abbrev pub IsFieldName : Text → Type 0
IsFieldName name = (is_empty name ≡ false) × (all is_name name ≡ true)

-- Every field has a name, of capital letters, digits and underscores.
abbrev pub AllNames : Table Text Text → Type 0
AllNames [] = Unit {0}
AllNames ((name, value) ∷ fields) = IsFieldName name × AllNames fields

-- Every record has a field.
abbrev pub AllFilled : List AdifRecord → Type 0
AllFilled [] = Unit {0}
AllFilled (r ∷ records) = ((no_fields r.fields ≡ false) × AllNames r.fields) × AllFilled records

record IsSound (parser : AdifParser) : Type 0 where
  waiting : AllNames parser.pending
  open_fields : AllNames parser.current
  done : AllFilled parser.records

pub insert_field-AllNames :
    (name value : Text) (fields : Table Text Text)
    → IsFieldName name
    → AllNames fields
    → AllNames (insert_field name value fields)
unfolding insert_field
insert_field-AllNames name value [] n h = (n, tt)
insert_field-AllNames name value ((other, v) ∷ fields) n h =
    elim (Bool-cases (leb_text name other)) [
      | inl e ↦ elim (Bool-cases (leb_text other name)) [
        | inl f ↦ rw (e, f) h
        | inr f ↦ rw (e, f) (n, h)
      ]
      | inr e ↦ rw e (h.0, insert_field-AllNames name value fields n h.1)
    ]

append-AllFilled :
    (records : List AdifRecord) (line : ℕ) (fields : Table Text Text)
    → AllFilled records
    → no_fields fields ≡ false
    → AllNames fields
    → AllFilled (records ++ record { line = line; fields = fields } ∷ [])
append-AllFilled [] line fields h e n = ((e, n), tt)
append-AllFilled (r ∷ records) line fields h e n =
    (h.0, append-AllFilled records line fields h.1 e n)

pushed-AllFilled :
    (line : ℕ) (first : Option ℕ) (fields : Table Text Text) (parser : AdifParser)
    → AllFilled parser.records
    → AllNames fields
    → AllFilled (pushed line first fields parser)
pushed-AllFilled line first [] parser h n = h
pushed-AllFilled line first (f ∷ fields) parser h n =
    append-AllFilled parser.records (unwrap_or first line) (f ∷ fields) h refl n

end_record-IsSound :
    (line : ℕ) (parser : AdifParser) → IsSound parser → IsSound (end_record line parser)
unfolding end_record
end_record-IsSound line parser h = elim (Bool-cases parser.in_header) [
  | inl e ↦ rw e (record {
    waiting = tt;
    open_fields = h.open_fields;
    done = pushed-AllFilled line parser.pending_line parser.pending parser h.done h.waiting;
  })
  | inr e ↦ rw e (record {
    waiting = h.waiting;
    open_fields = tt;
    done = pushed-AllFilled line parser.current_line parser.current parser h.done h.open_fields;
  })
]

add_field-IsSound :
    (line : ℕ) (name value : Text) (parser : AdifParser)
    → IsFieldName name
    → IsSound parser
    → IsSound (add_field line name value parser)
unfolding add_field
add_field-IsSound line name value parser n h = elim (Bool-cases parser.in_header) [
  | inl e ↦ rw e (record {
    waiting = insert_field-AllNames name value parser.pending n h.waiting;
    open_fields = h.open_fields;
    done = h.done;
  })
  | inr e ↦ rw e (record {
    waiting = h.waiting;
    open_fields = insert_field-AllNames name value parser.current n h.open_fields;
    done = h.done;
  })
]

advance-IsSound : (s : Text) (parser : AdifParser) → IsSound parser → IsSound (advance s parser)
advance-IsSound s parser h = record {
  waiting = h.waiting;
  open_fields = h.open_fields;
  done = h.done;
}

-- If the text is not refused yet, the parser is sound.
abbrev Kept : Parsed (AdifParser × Text) → Type 0
Kept (failed line e) = Unit {0}
Kept (ok p) = IsSound p.0

Kept-if :
    (b : Bool) (p q : Parsed (AdifParser × Text)) → Kept p → Kept q → Kept (if b then p else q)
Kept-if true p q h k = h
Kept-if false p q h k = k

read_taken-Kept :
    (line : ℕ) (name : Text) (parser : AdifParser) (t : Taken)
    → all is_name name ≡ true
    → IsSound parser
    → Kept (read_taken line name parser t)
read_taken-Kept line name parser past_end n h = tt
read_taken-Kept line name parser inside_char n h = tt
read_taken-Kept line name parser (taken value after) n h = elim (Bool-cases (is_empty name)) [
  | inl e ↦ rw e tt
  | inr e ↦ rw e (
      add_field-IsSound line name (trim value) (advance value parser) (e, n)
        (advance-IsSound value parser h))
]

abbrev NameOf : Option (Text × ℕ) → Type 0
NameOf none = Unit {0}
NameOf (some p) = all is_name p.0 ≡ true

tag_of-NameOf : (parts : List Text) → NameOf (tag_of parts)
unfolding tag_of
tag_of-NameOf [] = tt
tag_of-NameOf (name ∷ []) = tt
tag_of-NameOf (name ∷ digits ∷ parts) = numbered (parse_unsigned usize_max (trim digits))
  where
    numbered : (o : Option ℕ) → NameOf (o >>= λ n. some (normalize_field_name name, n))
    numbered none = tt
    numbered (some n) = normalize-is_name name

read_field-Kept :
    (line : ℕ) (tag : Text) (parser : AdifParser) (s : Text) (o : Option (Text × ℕ))
    → NameOf o
    → IsSound parser
    → Kept (read_field line tag parser s o)
unfolding read_value
read_field-Kept line tag parser s none n h = tt
read_field-Kept line tag parser s (some (name, k)) n h =
    Kept-if (ltb usize_max (parser.index + k)) _ _ tt
      (read_taken-Kept line name parser (take_bytes k s) n h)

read_tag-Kept :
    (line : ℕ) (tag : Text) (parser : AdifParser) (s : Text)
    → IsSound parser
    → Kept (read_tag line tag parser s)
unfolding read_tag end_header parse_tag
read_tag-Kept line tag parser s h =
    let ended : IsSound (end_header parser) = record {
      waiting = tt;
      open_fields = h.open_fields;
      done = h.done;
    } in
    Kept-if (text_eq (to_upper (trim tag)) (text "EOH")) _ _ ended (
      Kept-if (text_eq (to_upper (trim tag)) (text "EOR")) _ _ (end_record-IsSound line parser h)
        (read_field-Kept line tag parser s (parse_tag tag) (tag_of-NameOf (split b':' tag)) h))

read_scanned-Kept :
    (parser : AdifParser) (o : Option (Text × Text)) → IsSound parser → Kept (read_scanned parser o)
read_scanned-Kept parser none h = tt
read_scanned-Kept parser (some (tag, rest)) h =
    let over = b'<' ∷ tag ++ b'>' ∷ [] in
    read_tag-Kept parser.line tag (advance over parser) rest (advance-IsSound over parser h)

read_next-Kept :
    (parser : AdifParser) (c : ℕ) (s : Text) → IsSound parser → Kept (read_next parser c s)
unfolding read_next
read_next-Kept parser c s h =
    Kept-if (not (c == b'<')) _ _ (advance-IsSound (c ∷ []) parser h)
      (read_scanned-Kept parser (scan_tag s) h)

finish-AllFilled : (parser : AdifParser) → IsSound parser → AllFilled (finish parser)
unfolding finish
finish-AllFilled parser h = elim (Bool-cases (no_fields parser.current)) [
  | inl e ↦ elim (Bool-cases parser.in_header) [
    | inl f ↦
        rw (e, f)
          (pushed-AllFilled parser.line parser.pending_line parser.pending parser h.done h.waiting)
    | inr f ↦ rw (e, f) h.done
  ]
  | inr e ↦ rw e (append-AllFilled parser.records _ parser.current h.done e h.open_fields)
]

-- What the caller gets.
abbrev pub Accepted : Parsed (List AdifRecord) → Type 0
Accepted (failed line e) = Unit {0}
Accepted (ok records) = AllFilled records

and_then-Accepted :
    (r : Parsed (AdifParser × Text)) (f : AdifParser × Text → Parsed (List AdifRecord))
    → Kept r
    → ((p : AdifParser × Text) → IsSound p.0 → Accepted (f p))
    → Accepted (and_then r f)
and_then-Accepted (failed line e) f h k = tt
and_then-Accepted (ok p) f h k = k p h

parse_loop-Accepted :
    (fuel : ℕ) (parser : AdifParser) (s : Text)
    → IsSound parser
    → Accepted (parse_loop fuel parser s)
unfolding parse_loop
parse_loop-Accepted fuel parser [] h = finish-AllFilled parser h
parse_loop-Accepted zero parser (c ∷ s) h = tt
parse_loop-Accepted (suc fuel) parser (c ∷ s) h =
    and_then-Accepted (read_next parser c s) (λ next. parse_loop fuel next.0 next.1)
      (read_next-Kept parser c s h) (λ p k. parse_loop-Accepted fuel p.0 p.1 k)

-- Every record of a file that is accepted has a field, and the names of its fields are not empty and
-- consist of capital letters, digits and underscores.
pub parse_records-AllFilled :
    (s : Text) (records : List AdifRecord) → parse_records s ≡ ok records → AllFilled records
unfolding parse_records
parse_records-AllFilled s records e =
    subst (λ r. Accepted r) e
      (parse_loop-Accepted (length s) initial_parser s
        (record { waiting = tt; open_fields = tt; done = tt }))
