-- ===== src/Dxcc/Prefix.antt =====
-- `callsign_prefix` of backend/src/dxcc.rs: the operating prefix that WPX counts.
use log.Base.{
  ℕ, Bool, true, false, not, ◌||◌, Option, none, some, List, [], ◌∷◌, ◌++◌, reverse, ltb, ◌==◌,
  if◌then◌else◌, ◌>>=◌, all, any, select, take, length, drop_while,
}
use log.Base.Text.{
  Text, text, one_of, is_digit, is_alpha, is_alphanumeric, is_empty, has_char, split_once, byte_len,
}
use log.Callsign.{normalize}

abbrev designators : List Text
designators =
    text "MM"
    ∷ text "M"
    ∷ text "AM"
    ∷ text "A"
    ∷ text "E"
    ∷ text "J"
    ∷ text "P"
    ∷ text "QRP"
    ∷ text "QRPP"
    ∷ text "AG"
    ∷ text "AE"
    ∷ text "KT"
    ∷ []

unfoldable pub is_non_prefix_callsign_designator : Text → Bool
is_non_prefix_callsign_designator = one_of designators

abbrev first_is_digit : Text → Bool
first_is_digit [] = false
first_is_digit (c ∷ s) = is_digit c

unfoldable pub is_prefix_like_callsign_component : Text → Bool
is_prefix_like_callsign_component value = not (any is_digit value) || first_is_digit (reverse value)

abbrev pub not_digit : ℕ → Bool
not_digit c = not (is_digit c)

-- A text up to its last digit.
unfoldable pub last_digit_part : Text → Text
last_digit_part s = reverse (drop_while not_digit (reverse s))

-- The text in front of the last group of digits, with the portable number behind it; `none` if
-- there is no digit, or nothing in front of the group.
unfoldable pub portable_numeric_prefix : Text → Text → Option Text
portable_numeric_prefix base portable_number =
    if any is_digit base
    then (let stem = reverse (drop_while is_digit (drop_while not_digit (reverse base))) in
        if is_empty stem then none else some (stem ++ portable_number))
    else none

unfoldable pub letters_prefix : Text → Option Text
letters_prefix component =
    let letters = take 2 (select is_alpha component) in
    if length letters == 2 then some (letters ++ text "0") else none

unfoldable pub prefix_from_component : Text → Option Text
unfolding last_digit_part letters_prefix
prefix_from_component component =
    if is_empty component || not (all is_alphanumeric component)
    then none
    else if any is_digit component
    then some (last_digit_part component)
    else letters_prefix component

unfoldable pub prefer_component : Bool → Bool → Text → Text → Text
prefer_component true false left right = left
prefer_component false true left right = right
prefer_component _ _ left right = if ltb (byte_len left) (byte_len right) then left else right

-- The component that carries the prefix of a callsign with one slash.
unfoldable pub slash_source : Text → Text → Option Text
unfolding is_non_prefix_callsign_designator portable_numeric_prefix
    is_prefix_like_callsign_component prefer_component
slash_source left right =
    if is_empty left || is_empty right || has_char b'/' right
    then none
    else if is_non_prefix_callsign_designator right
    then some left
    else if all is_digit right
    then portable_numeric_prefix left right
    else some (
        prefer_component (is_prefix_like_callsign_component left)
          (is_prefix_like_callsign_component right) left right)

abbrev prefix_source : Text → Option (Text × Text) → Option Text
prefix_source normalized none = some normalized
prefix_source normalized (some (left, right)) = slash_source left right

unfoldable pub callsign_prefix : Text → Option Text
unfolding slash_source prefix_from_component
callsign_prefix callsign =
    let normalized = normalize callsign in
    if is_empty normalized || not (all (λ c. is_alphanumeric c || (c == b'/')) normalized)
    then none
    else prefix_source normalized (split_once b'/' normalized) >>= prefix_from_component
