-- ===== src/Adif/RoundTrip.antt =====
-- A written ADIF file is read back (`render_log` and `parse_records` of backend/src/adif.rs).
use log.Base.{
  ℕ, ◌+◌, ◌^◌, ◌≤◌, ◌<◌, ◌≡◌, ◌∙◌, sym, ap, subst, refl, true, false, List, [], ◌∷◌, ◌++◌, arith,
  ltb, all, length,
}
use log.Base.Int.{pos}
use log.Base.Text.{Text, text, trim, is_empty, byte_len, decimal}
use log.Adif.Names.{normalize_field_name, single_line}
use log.Adif.Parse.{
  AdifRecord, AdifParser, Parsed, ok, newlines, usize_max, add_field, advance, read_value, read_tag,
  read_next, parse_loop,
}
use log.Adif.Export.{serialize_field}
use log.Adif.Fuel.{parse_loop_same, read_next-Left, Left}
use log.Adif.Decimal.{pow10}
use log.Adif.Fields.{
  is_name, normalize-is_name, single_line-newlines, scan_tag_lem, take_bytes_lem, tag_text,
  parse_tag-tag_text, tag_text-no_close, tag_text-newlines, tag_text-no_end,
}

-- The loop with just enough fuel.
abbrev pub run : AdifParser → Text → Parsed (List AdifRecord)
run parser s = parse_loop (length s) parser s

pub run_next :
    (parser next : AdifParser) (c : ℕ) (s t : Text)
    → read_next parser c s ≡ ok (next, t)
    → run parser (c ∷ s) ≡ run next t
unfolding parse_loop
run_next parser next c s t e =
    let l : Left (length s) (ok (next, t)) =
      subst (λ r. Left (length s) r) e (read_next-Left parser c s) in
    let k : length t ≤ length s = l in
    rw e (parse_loop_same (length s) (length t) next t k (omega arith))

pub byte_len-append : (s t : Text) → byte_len (s ++ t) ≡ byte_len s + byte_len t
unfolding byte_len
byte_len-append [] t = omega arith
byte_len-append (c ∷ s) t = let ih = byte_len-append s t in rw ih (omega arith)

pub append_assoc : (s t u : Text) → (s ++ t) ++ u ≡ s ++ (t ++ u)
append_assoc [] t u = refl
append_assoc (c ∷ s) t u = ap (λ r. c ∷ r) (append_assoc s t u)

framed_rest :
    (b : ℕ) (digits value t : Text) → (digits ++ b ∷ value) ++ t ≡ digits ++ b ∷ (value ++ t)
framed_rest b [] value t = refl
framed_rest b (d ∷ digits) value t = ap (λ r. d ∷ r) (framed_rest b digits value t)

framed :
    (a b : ℕ) (name digits value t : Text)
    → (name ++ a ∷ (digits ++ b ∷ value)) ++ t ≡ (name ++ a ∷ digits) ++ b ∷ (value ++ t)
framed a b [] digits value t = ap (λ r. a ∷ r) (framed_rest b digits value t)
framed a b (c ∷ name) digits value t = ap (λ r. c ∷ r) (framed a b name digits value t)

framed_last : (b : ℕ) (digits value : Text) → digits ++ b ∷ value ≡ (digits ++ b ∷ []) ++ value
framed_last b [] value = refl
framed_last b (d ∷ digits) value = ap (λ r. d ∷ r) (framed_last b digits value)

framed_apart :
    (a b : ℕ) (name digits value : Text)
    → name ++ a ∷ (digits ++ b ∷ value) ≡ ((name ++ a ∷ digits) ++ b ∷ []) ++ value
framed_apart a b [] digits value = ap (λ r. a ∷ r) (framed_last b digits value)
framed_apart a b (c ∷ name) digits value = ap (λ r. c ∷ r) (framed_apart a b name digits value)

-- The tag of a field, and its length in bytes.
abbrev tag_of_field : Text → Text → Text
tag_of_field name value = tag_text (normalize_field_name name) (byte_len (single_line value))

-- The text of a field: its tag and its value.
serialize_field_lem :
    (name value t : Text)
    → serialize_field name value ++ t
      ≡ b'<' ∷ (tag_of_field name value ++ b'>' ∷ (single_line value ++ t))
unfolding serialize_field
serialize_field_lem name value t =
    ap (λ r. b'<' ∷ r)
      (framed b':' b'>' (normalize_field_name name) (decimal (pos (byte_len (single_line value))))
        (single_line value) t)

-- The bytes of a field are those of its tag and of its value.
byte_len-serialize_field :
    (name value : Text)
    → byte_len (b'<' ∷ tag_of_field name value ++ b'>' ∷ []) + byte_len (single_line value)
      ≡ byte_len (serialize_field name value)
unfolding serialize_field
byte_len-serialize_field name value = sym (
    ap (λ r. byte_len (b'<' ∷ r))
      (framed_apart b':' b'>' (normalize_field_name name)
        (decimal (pos (byte_len (single_line value)))) (single_line value))
    ∙ byte_len-append (b'<' ∷ tag_of_field name value ++ b'>' ∷ []) (single_line value))

-- The parser after a field.
abbrev pub after_field : Text → Text → AdifParser → AdifParser
after_field name value parser =
    add_field parser.line (normalize_field_name name) (trim (single_line value))
      (record parser { index = parser.index + byte_len (serialize_field name value) })

read_written_tag :
    (tag_line : ℕ) (name value t : Text) (parser : AdifParser)
    → is_empty name ≡ false
    → all is_name name ≡ true
    → parser.index + byte_len value < 2 ^ 63
    → read_tag tag_line (tag_text name (byte_len value)) parser (value ++ t)
      ≡ ok (add_field tag_line name (trim value) (advance value parser), t)
unfolding read_tag read_value
read_written_tag tag_line name value t parser e a h =
    let n = byte_len value in
    let small : n < pow10 19 = omega arith in
    let fits : ltb usize_max (parser.index + n) ≡ false = ground arith in
    rw
      (
        tag_text-no_end name n (text "EOH") a refl,
        tag_text-no_end name n (text "EOR") a refl,
        parse_tag-tag_text name n a small,
        fits,
        take_bytes_lem value t,
        e,
      )
      refl

-- Both parts of a written field, at the places where they end.
advanced :
    (name value : Text) (parser : AdifParser)
    → advance (single_line value) (advance (b'<' ∷ tag_of_field name value ++ b'>' ∷ []) parser)
      ≡ record parser { index = parser.index + byte_len (serialize_field name value) }
advanced name value parser =
    let tag = b'<' ∷ tag_of_field name value ++ b'>' ∷ [] in
    let i : parser.index + byte_len tag + byte_len (single_line value)
        ≡ parser.index + byte_len (serialize_field name value) =
      omega (arith, byte_len-serialize_field name value) in
    let l : parser.line + newlines tag + newlines (single_line value) ≡ parser.line = omega (
      arith,
      tag_text-newlines (normalize_field_name name) (byte_len (single_line value))
          (normalize-is_name name),
      single_line-newlines value,
    ) in
    ap (λ (m : ℕ × ℕ). record parser { index = m.0; line = m.1 }) (pair i l)
  where
    pair : {a b c d : ℕ} → a ≡ c → b ≡ d → Path (ℕ × ℕ) (a, b) (c, d)
    pair p q = λ i. (p i, q i)

pub run_field :
    (name value t : Text) (parser : AdifParser)
    → is_empty (normalize_field_name name) ≡ false
    → parser.index + byte_len (serialize_field name value) < 2 ^ 63
    → run parser (serialize_field name value ++ t) ≡ run (after_field name value parser) t
unfolding read_next
run_field name value t parser e h =
    let tag = tag_of_field name value in
    let n = normalize_field_name name in
    let small : parser.index + byte_len (b'<' ∷ tag ++ b'>' ∷ []) + byte_len (single_line value)
        < 2 ^ 63 =
      omega (arith, byte_len-serialize_field name value, h) in
    let read : read_next parser b'<' (tag ++ b'>' ∷ (single_line value ++ t))
        ≡ ok (after_field name value parser, t) =
      rw
        (scan_tag_lem tag (single_line value ++ t)
          (tag_text-no_close n (byte_len (single_line value)) (normalize-is_name name)))
        (read_written_tag parser.line n (single_line value) t
            (advance (b'<' ∷ tag ++ b'>' ∷ []) parser) e (normalize-is_name name) small
          ∙ ap (λ p. ok (add_field parser.line n (trim (single_line value)) p, t))
              (advanced name value parser)) in
    ap (run parser) (serialize_field_lem name value t)
    ∙ run_next parser (after_field name value parser) b'<' (tag ++ b'>' ∷ (single_line value ++ t))
        t read
