-- ===== src/Adif/Names.antt =====
-- Field names and values, and sorted maps of them (backend/src/adif.rs). A text that the code slices
-- by bytes is a list of code points, which `take_bytes` slices by the bytes of UTF-8.
use log.Base.{ℕ, ◌-◌, ◌&&◌, ◌||◌, [], ◌∷◌, map, ltb, ◌==◌, if◌then◌else◌}
use log.Base.Text.{Text, trim, is_upper, is_lower, is_digit, upper_char}
use log.Base.Table.{Table}
use log.LogCache.Cached.{leb_text}

abbrev pub name_char : ℕ → ℕ
name_char c =
    if is_lower c then upper_char c else if is_upper c || is_digit c || (c == b'_') then c else b'_'

unfoldable pub normalize_field_name : Text → Text
normalize_field_name name = map name_char (trim name)

-- `replace("\r\n", "\n")`.
unfoldable pub unix_lines : Text → Text
unix_lines [] = []
unix_lines (c ∷ []) = c ∷ []
unix_lines (c ∷ d ∷ s) =
    let later = unix_lines (d ∷ s) in
    let last = unix_lines s in if (c == b'\r') && (d == b'\n') then d ∷ last else c ∷ later

abbrev pub line_char : ℕ → ℕ
line_char c = if (c == b'\r') || (c == b'\n') then b' ' else c

-- The value as it is written, on one line.
unfoldable pub single_line : Text → Text
unfolding unix_lines
single_line value = map line_char (unix_lines value)

abbrev pub utf8_len : ℕ → ℕ
utf8_len c = if ltb c 0x80 then 1 else if ltb c 0x800 then 2 else if ltb c 0x10000 then 3 else 4

-- What a slice of so many bytes from the start is: a text and what follows, longer than what is left, or an
-- end inside a character, which is no valid UTF-8.
pub data Taken : Type 0 where
  taken : Text → Text → Taken
  past_end inside_char : Taken

abbrev pub onto_taken : ℕ → Taken → Taken
onto_taken c (taken value rest) = taken (c ∷ value) rest
onto_taken c t = t

unfoldable pub take_bytes : ℕ → Text → Taken
take_bytes n [] = if n == 0 then taken [] [] else past_end
take_bytes n (c ∷ s) =
    let rest = take_bytes (n - utf8_len c) s in
    if n == 0
    then taken [] (c ∷ s)
    else if ltb n (utf8_len c)
    then inside_char
    else onto_taken c rest

-- `BTreeMap::insert`: the entries are in the order of their keys.
unfoldable pub insert_field : Text → Text → Table Text Text → Table Text Text
insert_field name value [] = (name, value) ∷ []
insert_field name value ((other, v) ∷ fields) =
    let rest = insert_field name value fields in
    if leb_text name other
    then (if leb_text other name
        then (other, value) ∷ fields
        else (name, value) ∷ (other, v) ∷ fields)
    else (other, v) ∷ rest
