-- ===== src/Adif/Fields.antt =====
-- The text of one field (`serialize_field` and `normalize_field_name` of backend/src/adif.rs).
use log.Base.{
  ℕ, ◌+◌, ◌-◌, ◌<◌, ◌≡◌, refl, Bool, true, false, not, ◌||◌, some, [], ◌∷◌, ◌++◌, map, arith, inl,
  inr, Bool-cases, ltb, ◌==◌, all, subst,
}
use log.Base.Int.{pos}
use log.Base.Text.{
  Text, text_eq, text_eq_iff, trim, trim_start, trim_end, is_whitespace, is_digit, is_upper,
  to_upper, split, decimal, byte_len, has_char,
}
use log.Adif.Names.{
  name_char, normalize_field_name, single_line, unix_lines, line_char, utf8_len, taken, take_bytes,
}
use log.Adif.Decimal.{pow10, decimal-digits, parse_unsigned-decimal}
use log.Adif.Parse.{scan_tag, newlines, parse_tag, tag_of, usize_max}

pub all_mono :
    (p q : ℕ → Bool)
    → ((c : ℕ) → p c ≡ true → q c ≡ true)
    → (s : Text) → all p s ≡ true
    → all q s ≡ true
all_mono p q f [] h = refl
all_mono p q f (c ∷ s) h = elim (Bool-cases (p c)) [
  | inl e ↦ let k : all p s ≡ true = rw e at h in rw (f c e) (all_mono p q f s k)
  | inr e ↦ let k : false ≡ true = rw e at h in ground arith
]

pub all-append :
    (p : ℕ → Bool) (s t : Text) → all p s ≡ true → all p t ≡ true → all p (s ++ t) ≡ true
all-append p [] t h k = k
all-append p (c ∷ s) t h k = elim (Bool-cases (p c)) [
  | inl e ↦ let m : all p s ≡ true = rw e at h in rw e (all-append p s t m k)
  | inr e ↦ let m : false ≡ true = rw e at h in ground arith
]

all-map :
    (p : ℕ → Bool) (f : ℕ → ℕ) → ((c : ℕ) → p (f c) ≡ true) → (s : Text) → all p (map f s) ≡ true
all-map p f h [] = refl
all-map p f h (c ∷ s) = rw (h c) (all-map p f h s)

-- The characters of a normalized name.
abbrev pub is_name : ℕ → Bool
is_name c = is_upper c || is_digit c || (c == b'_')

name_char-is_name : (c : ℕ) → is_name (name_char c) ≡ true
name_char-is_name c = ground arith

pub normalize-is_name : (name : Text) → all is_name (normalize_field_name name) ≡ true
unfolding normalize_field_name
normalize-is_name name = all-map is_name name_char name_char-is_name (trim name)

abbrev is_solid : ℕ → Bool
is_solid c = not (is_whitespace c)

trim_end-solid : (s : Text) → all is_solid s ≡ true → trim_end s ≡ s
unfolding trim_end
trim_end-solid [] h = refl
trim_end-solid (c ∷ s) h = elim (Bool-cases (is_whitespace c)) [
  | inl e ↦ let k : false ≡ true = rw e at h in ground arith
  | inr e ↦ let k : all is_solid s ≡ true = rw e at h in rw (e, trim_end-solid s k) refl
]

pub trim-solid : (s : Text) → all is_solid s ≡ true → trim s ≡ s
unfolding trim trim_start trim_end
trim-solid [] h = refl
trim-solid (c ∷ s) h = elim (Bool-cases (is_whitespace c)) [
  | inl e ↦ let k : false ≡ true = rw e at h in ground arith
  | inr e ↦ rw e (trim_end-solid (c ∷ s) h)
]

name-solid : (c : ℕ) → is_name c ≡ true → is_solid c ≡ true
name-solid c h = ground arith

name_char-same : (c : ℕ) → is_name c ≡ true → name_char c ≡ c
name_char-same c h = ground arith

map-same :
    (p : ℕ → Bool) (f : ℕ → ℕ)
    → ((c : ℕ) → p c ≡ true → f c ≡ c)
    → (s : Text) → all p s ≡ true
    → map f s ≡ s
map-same p f g [] h = refl
map-same p f g (c ∷ s) h = elim (Bool-cases (p c)) [
  | inl e ↦ let k : all p s ≡ true = rw e at h in rw (g c e, map-same p f g s k) refl
  | inr e ↦ let k : false ≡ true = rw e at h in ground arith
]

-- A normalized name stays as it is.
pub normalize-normal : (s : Text) → all is_name s ≡ true → normalize_field_name s ≡ s
unfolding normalize_field_name
normalize-normal s h =
    rw (trim-solid s (all_mono is_name is_solid name-solid s h))
      (map-same is_name name_char name_char-same s h)

-- A value is written on one line.
line_char-same_line : (c : ℕ) → not (line_char c == b'\n') ≡ true
line_char-same_line c = ground arith

newlines_none : (s : Text) → all (λ c. not (c == b'\n')) s ≡ true → newlines s ≡ 0
newlines_none [] h = refl
newlines_none (c ∷ s) h = elim (Bool-cases (c == b'\n')) [
  | inl e ↦ let k : false ≡ true = rw e at h in ground arith
  | inr e ↦
      let k : all (λ c. not (c == b'\n')) s ≡ true = rw e at h in
      rw e (omega (arith, newlines_none s k))
]

pub single_line-newlines : (value : Text) → newlines (single_line value) ≡ 0
unfolding single_line
single_line-newlines value =
    newlines_none (map line_char (unix_lines value))
      (all-map (λ c. not (c == b'\n')) line_char line_char-same_line (unix_lines value))

-- A tag ends at its first `>`.
pub scan_tag_lem :
    (s t : Text) → all (λ c. not (c == b'>')) s ≡ true → scan_tag (s ++ b'>' ∷ t) ≡ some (s, t)
unfolding scan_tag
scan_tag_lem [] t h = refl
scan_tag_lem (c ∷ s) t h = elim (Bool-cases (c == b'>')) [
  | inl e ↦ let k : false ≡ true = rw e at h in ground arith
  | inr e ↦
      let k : all (λ c. not (c == b'>')) s ≡ true = rw e at h in rw (e, scan_tag_lem s t k) refl
]

-- A value of as many bytes as are asked for is taken whole.
pub take_bytes_lem : (value t : Text) → take_bytes (byte_len value) (value ++ t) ≡ taken value t
unfolding take_bytes byte_len
take_bytes_lem [] [] = refl
take_bytes_lem [] (c ∷ t) = refl
take_bytes_lem (c ∷ value) t =
    let p : (utf8_len c + byte_len value == 0) ≡ false = ground arith in
    let q : ltb (utf8_len c + byte_len value) (utf8_len c) ≡ false = ground arith in
    let r : utf8_len c + byte_len value - utf8_len c ≡ byte_len value = omega arith in
    rw (p, q, r, take_bytes_lem value t) refl

-- The parts of a tag at its only colon.
split_none : (s : Text) → all (λ c. not (c == b':')) s ≡ true → split b':' s ≡ s ∷ []
unfolding split
split_none [] h = refl
split_none (c ∷ s) h = elim (Bool-cases (c == b':')) [
  | inl e ↦ let k : false ≡ true = rw e at h in ground arith
  | inr e ↦ let k : all (λ c. not (c == b':')) s ≡ true = rw e at h in rw (e, split_none s k) refl
]

split_lem :
    (s t : Text)
    → all (λ c. not (c == b':')) s ≡ true
    → all (λ c. not (c == b':')) t ≡ true
    → split b':' (s ++ b':' ∷ t) ≡ s ∷ t ∷ []
unfolding split
split_lem [] t h k = rw (split_none t k) refl
split_lem (c ∷ s) t h k = elim (Bool-cases (c == b':')) [
  | inl e ↦ let m : false ≡ true = rw e at h in ground arith
  | inr e ↦
      let m : all (λ c. not (c == b':')) s ≡ true = rw e at h in rw (e, split_lem s t m k) refl
]

name-no_colon : (c : ℕ) → is_name c ≡ true → not (c == b':') ≡ true
name-no_colon c h = ground arith

digit-no_colon : (c : ℕ) → is_digit c ≡ true → not (c == b':') ≡ true
digit-no_colon c h = ground arith

digit-solid : (c : ℕ) → is_digit c ≡ true → is_solid c ≡ true
digit-solid c h = ground arith

-- A written tag.
abbrev pub tag_text : Text → ℕ → Text
tag_text name n = name ++ b':' ∷ decimal (pos n)

pub parse_tag-tag_text :
    (name : Text) (n : ℕ)
    → all is_name name ≡ true
    → n < pow10 19
    → parse_tag (tag_text name n) ≡ some (name, n)
unfolding parse_tag tag_of
parse_tag-tag_text name n a h =
    let digits = decimal-digits n in
    rw
      (
        split_lem name (decimal (pos n)) (all_mono is_name _ name-no_colon name a)
            (all_mono is_digit _ digit-no_colon (decimal (pos n)) digits),
        trim-solid (decimal (pos n))
            (all_mono is_digit is_solid digit-solid (decimal (pos n)) digits),
        parse_unsigned-decimal usize_max n h (omega arith),
        normalize-normal name a,
      )
      refl

name-no_close : (c : ℕ) → is_name c ≡ true → not (c == b'>') ≡ true
name-no_close c h = ground arith

digit-no_close : (c : ℕ) → is_digit c ≡ true → not (c == b'>') ≡ true
digit-no_close c h = ground arith

pub tag_text-no_close :
    (name : Text) (n : ℕ)
    → all is_name name ≡ true
    → all (λ c. not (c == b'>')) (tag_text name n) ≡ true
tag_text-no_close name n a =
    all-append (λ c. not (c == b'>')) name (b':' ∷ decimal (pos n))
      (all_mono is_name _ name-no_close name a)
      (all_mono is_digit _ digit-no_close (decimal (pos n)) (decimal-digits n))

name-same_line : (c : ℕ) → is_name c ≡ true → not (c == b'\n') ≡ true
name-same_line c h = ground arith

digit-same_line : (c : ℕ) → is_digit c ≡ true → not (c == b'\n') ≡ true
digit-same_line c h = ground arith

pub tag_text-newlines :
    (name : Text) (n : ℕ)
    → all is_name name ≡ true
    → newlines (b'<' ∷ tag_text name n ++ b'>' ∷ []) ≡ 0
tag_text-newlines name n a = newlines_none (b'<' ∷ tag_text name n ++ b'>' ∷ []) (
    all-append (λ c. not (c == b'\n')) (tag_text name n) (b'>' ∷ [])
      (all-append (λ c. not (c == b'\n')) name (b':' ∷ decimal (pos n))
        (all_mono is_name _ name-same_line name a)
        (all_mono is_digit _ digit-same_line (decimal (pos n)) (decimal-digits n)))
      refl)

-- A written tag is no tag of an end: it has a colon.
has_colon : (s t : Text) → has_char b':' (to_upper (s ++ b':' ∷ t)) ≡ true
unfolding to_upper
has_colon [] t = refl
has_colon (c ∷ s) t = or_true _ _ (has_colon s t)
  where
    or_true : (a b : Bool) → b ≡ true → (a || b) ≡ true
    or_true true b h = refl
    or_true false b h = h

not_same : (s t : Text) → has_char b':' s ≡ true → has_char b':' t ≡ false → text_eq s t ≡ false
not_same s t h k = elim (Bool-cases (text_eq s t)) [
  | inl e ↦
      let m : has_char b':' t ≡ true =
        subst (λ u. has_char b':' u ≡ true) ((text_eq_iff s t).0 e) h in
      ground arith
  | inr e ↦ e
]

pub tag_text-no_end :
    (name : Text) (n : ℕ) (end : Text)
    → all is_name name ≡ true
    → has_char b':' end ≡ false
    → text_eq (to_upper (trim (tag_text name n))) end ≡ false
tag_text-no_end name n end a h =
    let solid : all is_solid (tag_text name n) ≡ true =
      all-append is_solid name (b':' ∷ decimal (pos n))
        (all_mono is_name is_solid name-solid name a)
        (all_mono is_digit is_solid digit-solid (decimal (pos n)) (decimal-digits n)) in
    rw (trim-solid (tag_text name n) solid)
      (not_same (to_upper (tag_text name n)) end (has_colon name (decimal (pos n))) h)
