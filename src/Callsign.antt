-- ===== src/Callsign.antt =====
-- backend/src/callsign.rs: the structure of a callsign, its base and its modifier.
pub mod Swap
pub mod Normal
use log.Base.{
  ℕ, Bool, true, false, not, ◌&&◌, ◌||◌, Option, none, some, List, [], ◌∷◌, ltb, ◌==◌,
  if◌then◌else◌, all, select, length, get_elem?, unwrap_or,
}
use log.Base.Text.{
  Text, text, trim, to_upper, is_digit, is_upper, is_empty, starts_with, ends_with, split,
}

pub record CallsignParts : Type 0 where
  pub normalized : Text
  pub base : Option Text
  pub modifier : Option Text

pub data StructureError : Type 0 where
  invalid_character too_many_slashes edge_slash : StructureError

-- Trim surrounding white space and uppercase the input.
unfoldable pub normalize : Text → Text
normalize input = to_upper (trim input)

abbrev digit_at : ℕ → Text → Bool
digit_at n s = is_digit (unwrap_or (get_elem? s n) 0)

-- A digit in the second or third character.
unfoldable pub is_callsign_like : Text → Bool
is_callsign_like component = digit_at 1 component || digit_at 2 component

abbrev pub slash : Text
slash = text "/"

abbrev pub is_allowed : Bool → ℕ → Bool
is_allowed allow_query c = is_upper c || is_digit c || (c == b'/') || (allow_query && (c == b'?'))

-- `none` stands for `Ok(())`.
unfoldable pub check_structure : Text → Bool → Option StructureError
check_structure normalized allow_query =
    if not (all (is_allowed allow_query) normalized)
    then some invalid_character
    else if ltb 1 (length (select (λ c. c == b'/') normalized))
    then some too_many_slashes
    else if starts_with normalized slash || ends_with normalized slash
    then some edge_slash
    else none

pub data Slash : Type 0 where
  absent : Slash
  pair : Text → Text → Slash
  invalid : Slash

unfoldable pub slash_of : List Text → Slash
slash_of [] = invalid
slash_of (first ∷ []) = absent
slash_of (first ∷ second ∷ []) =
    if is_empty first || is_empty second then invalid else pair first second
slash_of (first ∷ second ∷ third ∷ rest) = invalid

unfoldable pub split_middle_slash : Text → Slash
unfolding slash_of
split_middle_slash normalized = slash_of (split b'/' normalized)

unfoldable pub resolve_by : Bool → Bool → Text → Text → Option Text × Option Text
resolve_by false true left right = (some right, some left)
resolve_by true false left right = (some left, some right)
resolve_by true true left right =
    if ltb (length right) (length left) then (some left, some right) else (some right, some left)
resolve_by false false left right = (none, none)

unfoldable pub resolve_pair : Text → Text → Option Text × Option Text
unfolding resolve_by
resolve_pair left right = resolve_by (is_callsign_like left) (is_callsign_like right) left right

unfoldable pub resolve_slash : Text → Slash → Option Text × Option Text
resolve_slash normalized absent = (some normalized, none)
resolve_slash normalized (pair left right) = resolve_pair left right
resolve_slash normalized invalid = (none, none)

unfoldable pub parse : Text → CallsignParts
unfolding resolve_slash
parse input =
    let normalized = normalize input in
    let resolved = resolve_slash normalized (split_middle_slash normalized) in
    record { normalized = normalized; base = resolved.0; modifier = resolved.1 }

-- The resolved base, else the whole normalized input.
unfoldable pub dupe_identity : Text → Text
unfolding parse
dupe_identity input = unwrap_or (parse input).base (parse input).normalized
