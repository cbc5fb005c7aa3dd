-- ===== src/Adif/Parse.antt =====
-- `parse_records` of backend/src/adif.rs: the loop over the bytes of a file.
use log.Base.{
  ℕ, zero, suc, ◌+◌, ◌-◌, ◌^◌, Bool, true, false, not, Option, none, some, List, [], ◌∷◌, ◌++◌, ltb,
  ◌==◌, if◌then◌else◌, ◌>>=◌, unwrap_or, length,
}
use log.Base.Text.{Text, text, text_eq, trim, to_upper, split, parse_unsigned, is_empty, byte_len}
use log.Base.Table.{Table}
use log.Adif.Names.{
  normalize_field_name, Taken, taken, past_end, inside_char, take_bytes, insert_field,
}

pub record AdifRecord : Type 0 where
  pub line : ℕ
  pub fields : Table Text Text

-- Why a file is refused. `index_overflow` is the sum `index + length` beyond `usize`, at which the
-- code panics: by the sum itself or, where sums wrap around, by the slice that follows. `out_of_fuel`
-- is the model's own: it would stand for a loop that does not end.
pub data ParseError : Type 0 where
  unterminated_tag empty_name index_overflow out_of_fuel : ParseError
  invalid_tag truncated not_utf8 : Text → ParseError

pub data Parsed (A : Type 0) : Type 0 where
  ok : A → Parsed A
  failed : ℕ → ParseError → Parsed A

-- The variables of the loop.
pub record AdifParser : Type 0 where
  pub index : ℕ
  pub line : ℕ
  pub in_header : Bool
  pub pending : Table Text Text
  pub pending_line : Option ℕ
  pub current : Table Text Text
  pub current_line : Option ℕ
  pub records : List AdifRecord

abbrev pub no_fields : Table Text Text → Bool
no_fields [] = true
no_fields (f ∷ fields) = false

abbrev pub newlines : Text → ℕ
newlines [] = 0
newlines (c ∷ s) = (if c == b'\n' then 1 else 0) + newlines s

-- The content of a tag, and what follows its `>`.
unfoldable pub scan_tag : Text → Option (Text × Text)
scan_tag [] = none
scan_tag (c ∷ s) = if c == b'>' then some ([], s) else (scan_tag s >>= λ p. some (c ∷ p.0, p.1))

abbrev pub usize_max : ℕ
usize_max = 2 ^ 64 - 1

unfoldable pub tag_of : List Text → Option (Text × ℕ)
tag_of (name ∷ length ∷ parts) =
    parse_unsigned usize_max (trim length) >>= λ n. some (normalize_field_name name, n)
tag_of _ = none

unfoldable pub parse_tag : Text → Option (Text × ℕ)
parse_tag tag = tag_of (split b':' tag)

abbrev pub pushed : ℕ → Option ℕ → Table Text Text → AdifParser → List AdifRecord
pushed tag_line first_line fields parser =
    if no_fields fields
    then parser.records
    else parser.records ++ record { line = unwrap_or first_line tag_line; fields = fields } ∷ []

unfoldable pub end_header : AdifParser → AdifParser
end_header parser = record parser { in_header = false; pending = []; pending_line = none }

unfoldable pub end_record : ℕ → AdifParser → AdifParser
end_record tag_line parser =
    if parser.in_header
    then record parser {
      records = pushed tag_line parser.pending_line parser.pending parser;
      pending = [];
    }
    else record parser {
      records = pushed tag_line parser.current_line parser.current parser;
      current = [];
      current_line = if no_fields parser.current then parser.current_line else none;
    }

unfoldable pub add_field : ℕ → Text → Text → AdifParser → AdifParser
add_field tag_line name value parser =
    if parser.in_header
    then record parser {
      pending_line = if no_fields parser.pending then some tag_line else parser.pending_line;
      pending = insert_field name value parser.pending;
    }
    else record parser {
      current_line = if no_fields parser.current then some tag_line else parser.current_line;
      current = insert_field name value parser.current;
    }

-- The parser behind some text that it went over.
abbrev pub advance : Text → AdifParser → AdifParser
advance s parser = record parser {
  index = parser.index + byte_len s;
  line = parser.line + newlines s;
}

-- What the slice of a value gives, and what follows it.
abbrev pub read_taken : ℕ → Text → AdifParser → Taken → Parsed (AdifParser × Text)
read_taken tag_line name parser past_end = failed tag_line (truncated name)
read_taken tag_line name parser inside_char = failed tag_line (not_utf8 name)
read_taken tag_line name parser (taken value after) =
    if is_empty name
    then failed tag_line empty_name
    else ok (add_field tag_line name (trim value) (advance value parser), after)

-- A field whose tag is read.
unfoldable pub read_value : ℕ → Text → ℕ → AdifParser → Text → Parsed (AdifParser × Text)
read_value tag_line name length parser rest =
    if ltb usize_max (parser.index + length)
    then failed tag_line index_overflow
    else read_taken tag_line name parser (take_bytes length rest)

abbrev pub read_field :
    ℕ → Text → AdifParser → Text → Option (Text × ℕ) → Parsed (AdifParser × Text)
read_field tag_line tag parser rest none = failed tag_line (invalid_tag tag)
read_field tag_line tag parser rest (some (name, length)) =
    read_value tag_line name length parser rest

-- A tag that is read, `parser` being behind it. Its content is valid UTF-8, since `<` and `>` bound it.
unfoldable pub read_tag : ℕ → Text → AdifParser → Text → Parsed (AdifParser × Text)
read_tag tag_line tag parser rest =
    if text_eq (to_upper (trim tag)) (text "EOH")
    then ok (end_header parser, rest)
    else if text_eq (to_upper (trim tag)) (text "EOR")
    then ok (end_record tag_line parser, rest)
    else read_field tag_line tag parser rest (parse_tag tag)

abbrev pub read_scanned : AdifParser → Option (Text × Text) → Parsed (AdifParser × Text)
read_scanned parser none = failed parser.line unterminated_tag
read_scanned parser (some (tag, rest)) =
    read_tag parser.line tag (advance (b'<' ∷ tag ++ b'>' ∷ []) parser) rest

unfoldable pub read_next : AdifParser → ℕ → Text → Parsed (AdifParser × Text)
unfolding read_tag
read_next parser c s =
    if not (c == b'<') then ok (advance (c ∷ []) parser, s) else read_scanned parser (scan_tag s)

unfoldable pub finish : AdifParser → List AdifRecord
finish parser =
    if not (no_fields parser.current)
    then pushed parser.line parser.current_line parser.current parser
    else if parser.in_header
    then pushed parser.line parser.pending_line parser.pending parser
    else parser.records

-- The rest of the loop, unless the file is refused.
abbrev pub and_then : {A B : Type 0} → Parsed A → (A → Parsed B) → Parsed B
and_then (ok a) f = f a
and_then (failed line error) f = failed line error

-- The loop; the fuel bounds the rounds, of which each takes a character or more.
unfoldable pub parse_loop : ℕ → AdifParser → Text → Parsed (List AdifRecord)
unfolding read_next
parse_loop fuel parser [] = ok (finish parser)
parse_loop zero parser (c ∷ s) = failed parser.line out_of_fuel
parse_loop (suc fuel) parser (c ∷ s) =
    and_then (read_next parser c s) (λ next. parse_loop fuel next.0 next.1)

abbrev pub initial_parser : AdifParser
initial_parser = record {
  index = 0;
  line = 1;
  in_header = true;
  pending = [];
  pending_line = none;
  current = [];
  current_line = none;
  records = [];
}

unfoldable pub parse_records : Text → Parsed (List AdifRecord)
unfolding parse_loop
parse_records s = parse_loop (length s) initial_parser s
