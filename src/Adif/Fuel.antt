-- ===== src/Adif/Fuel.antt =====
-- The loop of `parse_records` (backend/src/adif.rs) and its fuel.
use log.Base.{
  ℕ, zero, suc, ◌+◌, ◌-◌, ◌≤◌, ◌<◌, ◌≡◌, ◌==◌, refl, Bool, true, false, not, Option, none, some, [],
  ◌∷◌, ltb, length, arith, ◌++◌, Bool-cases, inl, inr, if◌then◌else◌, ◌>>=◌,
}
use log.Base.Text.{Text, text, text_eq, trim, to_upper, is_empty}
use log.Adif.Names.{utf8_len, Taken, taken, past_end, inside_char, take_bytes, onto_taken}
use log.Adif.Parse.{
  ParseError, out_of_fuel, parse_records, initial_parser, AdifParser, Parsed, ok, failed, scan_tag,
  parse_tag, read_taken, read_value, read_field, read_scanned, read_tag, usize_max, advance,
  read_next, parse_loop, and_then,
}

abbrev AfterTag : Text → Option (Text × Text) → Type 0
AfterTag s none = Unit {0}
AfterTag s (some p) = length p.1 < length s

scan_tag-AfterTag : (s : Text) → AfterTag s (scan_tag s)
unfolding scan_tag
scan_tag-AfterTag [] = tt
scan_tag-AfterTag (c ∷ s) = elim (Bool-cases (c == b'>')) [
  | inl e ↦ rw e (omega arith)
  | inr e ↦ rw e (longer (scan_tag s) (scan_tag-AfterTag s))
]
  where
    longer :
        (o : Option (Text × Text))
        → AfterTag s o
        → AfterTag (c ∷ s) (o >>= λ p. some (c ∷ p.0, p.1))
    longer none h = tt
    longer (some p) h = omega arith

abbrev AfterValue : Text → Taken → Type 0
AfterValue s (taken value rest) = length rest ≤ length s
AfterValue s past_end = Unit {0}
AfterValue s inside_char = Unit {0}

take_bytes-AfterValue : (n : ℕ) (s : Text) → AfterValue s (take_bytes n s)
unfolding take_bytes
take_bytes-AfterValue n [] = elim (Bool-cases (n == 0)) [
  | inl e ↦ rw e (omega arith)
  | inr e ↦ rw e tt
]
take_bytes-AfterValue n (c ∷ s) = elim (Bool-cases (n == 0)) [
  | inl e ↦ rw e (omega arith)
  | inr e ↦ elim (Bool-cases (ltb n (utf8_len c))) [
    | inl f ↦ rw (e, f) tt
    | inr f ↦
        rw (e, f)
          (longer (take_bytes (n - utf8_len c) s) (take_bytes-AfterValue (n - utf8_len c) s))
  ]
]
  where
    longer : (t : Taken) → AfterValue s t → AfterValue (c ∷ s) (onto_taken c t)
    longer (taken value rest) h = omega arith
    longer past_end h = tt
    longer inside_char h = tt

abbrev pub is_out_of_fuel : ParseError → Bool
is_out_of_fuel out_of_fuel = true
is_out_of_fuel _ = false

-- A step that is not refused leaves so many characters, or fewer; none runs out of fuel.
abbrev pub Left : ℕ → Parsed (AdifParser × Text) → Type 0
Left n (failed line e) = is_out_of_fuel e ≡ false
Left n (ok p) = length p.1 ≤ n

Left-if :
    (n : ℕ) (b : Bool) (p q : Parsed (AdifParser × Text))
    → Left n p
    → Left n q
    → Left n (if b then p else q)
Left-if n true p q h k = h
Left-if n false p q h k = k

read_taken-Left :
    (tag_line : ℕ) (name : Text) (parser : AdifParser) (s : Text) (t : Taken)
    → AfterValue s t
    → Left (length s) (read_taken tag_line name parser t)
read_taken-Left tag_line name parser s past_end h = refl
read_taken-Left tag_line name parser s inside_char h = refl
read_taken-Left tag_line name parser s (taken value after) h =
    Left-if (length s) (is_empty name) _ _ refl h

read_value-Left :
    (tag_line : ℕ) (name : Text) (n : ℕ) (parser : AdifParser) (s : Text)
    → Left (length s) (read_value tag_line name n parser s)
unfolding read_value
read_value-Left tag_line name n parser s =
    Left-if (length s) (ltb usize_max (parser.index + n)) _ _ refl
      (read_taken-Left tag_line name parser s (take_bytes n s) (take_bytes-AfterValue n s))

read_field-Left :
    (tag_line : ℕ) (tag : Text) (parser : AdifParser) (s : Text) (o : Option (Text × ℕ))
    → Left (length s) (read_field tag_line tag parser s o)
read_field-Left tag_line tag parser s none = refl
read_field-Left tag_line tag parser s (some (name, n)) = read_value-Left tag_line name n parser s

read_tag-Left :
    (tag_line : ℕ) (tag : Text) (parser : AdifParser) (s : Text)
    → Left (length s) (read_tag tag_line tag parser s)
unfolding read_tag
read_tag-Left tag_line tag parser s =
    let same : length s ≤ length s = omega arith in
    Left-if (length s) (text_eq (to_upper (trim tag)) (text "EOH")) _ _ same (
      Left-if (length s) (text_eq (to_upper (trim tag)) (text "EOR")) _ _ same
        (read_field-Left tag_line tag parser s (parse_tag tag)))

Left-le : (m n : ℕ) (r : Parsed (AdifParser × Text)) → m ≤ n → Left m r → Left n r
Left-le m n (failed line e) h k = k
Left-le m n (ok p) h k = omega arith

read_scanned-Left :
    (parser : AdifParser) (s : Text) (o : Option (Text × Text))
    → AfterTag s o
    → Left (length s) (read_scanned parser o)
read_scanned-Left parser s none h = refl
read_scanned-Left parser s (some (tag, rest)) h =
    Left-le (length rest) (length s) _ (omega arith)
      (read_tag-Left parser.line tag (advance (b'<' ∷ tag ++ b'>' ∷ []) parser) rest)

-- Each round takes at least one character.
pub read_next-Left :
    (parser : AdifParser) (c : ℕ) (s : Text) → Left (length s) (read_next parser c s)
unfolding read_next
read_next-Left parser c s =
    Left-if (length s) (not (c == b'<')) _ _ (omega arith)
      (read_scanned-Left parser s (scan_tag s) (scan_tag-AfterTag s))

then_same :
    (n f g : ℕ) (r : Parsed (AdifParser × Text))
    → Left n r
    → ((parser : AdifParser) (s : Text)
        → length s ≤ n
        → parse_loop f parser s ≡ parse_loop g parser s)
    → and_then r (λ next. parse_loop f next.0 next.1)
      ≡ and_then r (λ next. parse_loop g next.0 next.1)
then_same n f g (failed line e) h same = refl
then_same n f g (ok p) h same = same p.0 p.1 h

-- Any two amounts that are at least the length of the text give the same.
pub parse_loop_same :
    (f g : ℕ) (parser : AdifParser) (s : Text)
    → length s ≤ f
    → length s ≤ g
    → parse_loop f parser s ≡ parse_loop g parser s
unfolding parse_loop
parse_loop_same f g parser [] h k = refl
parse_loop_same zero g parser (c ∷ s) h k = ground arith
parse_loop_same (suc f) zero parser (c ∷ s) h k = ground arith
parse_loop_same (suc f) (suc g) parser (c ∷ s) h k =
    then_same (length s) f g (read_next parser c s) (read_next-Left parser c s)
      (λ next rest l. parse_loop_same f g next rest (omega arith) (omega arith))

-- The result is not that of a loop without fuel.
abbrev pub Finished : {A : Type 0} → Parsed A → Type 0
Finished (ok a) = Unit {0}
Finished (failed line e) = is_out_of_fuel e ≡ false

and_then-Finished :
    {B : Type 0} (n : ℕ) (r : Parsed (AdifParser × Text)) (f : AdifParser × Text → Parsed B)
    → Left n r
    → ((p : AdifParser × Text) → length p.1 ≤ n → Finished (f p))
    → Finished (and_then r f)
and_then-Finished n (failed line e) f h k = h
and_then-Finished n (ok p) f h k = k p h

parse_loop-Finished :
    (f : ℕ) (parser : AdifParser) (s : Text) → length s ≤ f → Finished (parse_loop f parser s)
unfolding parse_loop
parse_loop-Finished f parser [] h = tt
parse_loop-Finished zero parser (c ∷ s) h = ground arith
parse_loop-Finished (suc f) parser (c ∷ s) h =
    and_then-Finished (length s) (read_next parser c s) (λ next. parse_loop f next.0 next.1)
      (read_next-Left parser c s) (λ p l. parse_loop-Finished f p.0 p.1 (omega arith))

-- The loop over a file ends before its fuel does: with as many rounds as the text has characters, or
-- more, the result is never that of a loop out of fuel, and it is that of `parse_records`.
pub parse_loop_fuel :
    (f : ℕ) (s : Text)
    → length s ≤ f
    → Finished (parse_loop f initial_parser s) × (parse_loop f initial_parser s ≡ parse_records s)
unfolding parse_records
parse_loop_fuel f s h = (
  parse_loop-Finished f initial_parser s h,
  parse_loop_same f (length s) initial_parser s h (omega arith),
)
