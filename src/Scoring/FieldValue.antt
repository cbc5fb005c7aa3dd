-- ===== src/Scoring/FieldValue.antt =====
-- `field_value` of backend/src/scoring.rs: the value of a field of a contact, derived fields
-- included, as the scoring rules compare it.
use log.Base.{
  ℕ, ◌-◌, ◌^◌, Bool, false, not, ◌&&◌, ◌||◌, Option, none, some, List, [], ◌∷◌, ◌++◌, reverse, ◌==◌,
  leb, if◌then◌else◌, ◌>>=◌, or_else, keep_if, unwrap_or, is_some, take, length, find_first,
}
use log.Base.Text.{
  Text, text, one_of, trim, to_upper, upper_char, eq_ignore_case, is_digit, is_alpha, is_empty,
  starts_with, parse_unsigned,
}
use log.Callsign.{dupe_identity}
use log.Contact.{Contact, contact_adif_value, contact_meta_value, json_string}
use log.Dxcc.{callsign_prefix}

abbrev pub adif_text : Contact → Text → Option Text
adif_text contact key = json_string (contact_adif_value contact key)

abbrev upper_trimmed : Option Text → Option Text
upper_trimmed none = none
upper_trimmed (some s) = some (to_upper (trim s))

abbrev not_empty : Text → Bool
not_empty s = not (is_empty s)

unfoldable pub mode_class : Text → Text
mode_class mode =
    if one_of (text "CW" ∷ text "CW-R" ∷ []) mode
    then text "CW"
    else if one_of (text "SSB" ∷ text "FM" ∷ text "AM" ∷ []) mode
    then text "PHONE"
    else mode

unfoldable pub contact_prefix : Contact → Option Text
contact_prefix contact =
    or_else (keep_if not_empty (upper_trimmed (adif_text contact (text "PFX"))))
      (adif_text contact (text "CALL") >>= callsign_prefix)

abbrev jarl_japanese : List Text
jarl_japanese =
    text "JA"
    ∷ text "JE"
    ∷ text "JF"
    ∷ text "JG"
    ∷ text "JH"
    ∷ text "JI"
    ∷ text "JJ"
    ∷ text "JK"
    ∷ text "JL"
    ∷ text "JM"
    ∷ text "JN"
    ∷ text "JO"
    ∷ text "JP"
    ∷ text "JQ"
    ∷ text "JR"
    ∷ text "JS"
    ∷ text "7J"
    ∷ text "7K"
    ∷ text "7L"
    ∷ text "7M"
    ∷ text "8J"
    ∷ []

unfoldable pub is_jarl_japanese_prefix : Text → Bool
is_jarl_japanese_prefix prefix = one_of jarl_japanese (take 2 prefix)

unfoldable pub is_jarl_us_mainland_prefix : Text → Bool
is_jarl_us_mainland_prefix [] = false
is_jarl_us_mainland_prefix (c ∷ []) = (c == b'K') || (c == b'N') || (c == b'W')
is_jarl_us_mainland_prefix (c ∷ d ∷ s) =
    (c == b'K') || (c == b'N') || (c == b'W') || ((c == b'A') && leb b'A' d && leb d b'L')

abbrev starts_with_one : List Text → Text → Bool
starts_with_one [] s = false
starts_with_one (p ∷ ps) s = starts_with s p || starts_with_one ps s

unfoldable pub is_jarl_canadian_prefix : Text → Bool
is_jarl_canadian_prefix =
    starts_with_one (text "VA" ∷ text "VE" ∷ text "VO" ∷ text "VY" ∷ text "CY" ∷ [])

unfoldable pub is_jarl_australian_prefix : Text → Bool
is_jarl_australian_prefix = starts_with_one (text "AX" ∷ text "VI" ∷ text "VK" ∷ [])

abbrev parsed_u16 : Option Text → Option ℕ
parsed_u16 o = o >>= λ s. parse_unsigned (2 ^ 16 - 1) (trim s)

-- The call area of a prefix, by the DXCC entity of the contact, or by the prefix alone.
unfoldable pub jarl_area : Text → ℕ → Option ℕ → Option Text
unfolding is_jarl_japanese_prefix is_jarl_us_mainland_prefix is_jarl_canadian_prefix
    is_jarl_australian_prefix
jarl_area prefix area (some dxcc) =
    if (dxcc == 339) && not (starts_with prefix (text "JD1"))
    then some (text "JA" ++ area ∷ [])
    else if (dxcc == 291) && is_jarl_us_mainland_prefix prefix
    then some (text "W" ++ area ∷ [])
    else if (dxcc == 1) && is_jarl_canadian_prefix prefix
    then some (text "VE" ++ area ∷ [])
    else if (dxcc == 150) && is_jarl_australian_prefix prefix
    then some (text "VK" ++ area ∷ [])
    else none
jarl_area prefix area none =
    if is_jarl_japanese_prefix prefix && not (starts_with prefix (text "JD1"))
    then some (text "JA" ++ area ∷ [])
    else if is_jarl_us_mainland_prefix prefix
    then some (text "W" ++ area ∷ [])
    else if is_jarl_canadian_prefix prefix
    then some (text "VE" ++ area ∷ [])
    else if is_jarl_australian_prefix prefix
    then some (text "VK" ++ area ∷ [])
    else none

unfoldable pub jarl_call_area : Contact → Option Text
unfolding jarl_area
jarl_call_area contact = do
  callsign ← adif_text contact (text "CALL")
  prefix ← callsign_prefix callsign
  let area = unwrap_or (find_first is_digit (reverse prefix)) b'0'
  jarl_area prefix area (parsed_u16 (adif_text contact (text "DXCC")))

abbrev sac_countries : List (ℕ × Text)
sac_countries =
    (259, text "JW")
    ∷ (118, text "JX")
    ∷ (266, text "LA")
    ∷ (224, text "OH")
    ∷ (237, text "OX")
    ∷ (222, text "OY")
    ∷ (221, text "OZ")
    ∷ (284, text "SM")
    ∷ (242, text "TF")
    ∷ []

unfoldable pub sac_area : Contact → Option Text
unfolding contact_prefix
sac_area contact = do
  value ← adif_text contact (text "DXCC")
  dxcc ← parse_unsigned (2 ^ 16 - 1) value
  country ← find_first (λ p. p.0 == dxcc) sac_countries
  let area = unwrap_or (contact_prefix contact >>= find_first is_digit) b'0'
  some (country.1 ++ area ∷ [])

unfoldable pub normalized_field_value : Text → Text → Text
normalized_field_value field value =
    let normalized = to_upper (trim value) in
    if eq_ignore_case field (text "CALL") then dupe_identity normalized else normalized

abbrev grid_field : Option Text → Option Text
grid_field none = none
grid_field (some grid) = if leb 2 (length grid) then some (take 2 grid) else none

unfoldable pub plain_field_value : Contact → Text → Option Text
unfolding normalized_field_value
plain_field_value contact field = keep_if not_empty (
    or_else (adif_text contact field) (json_string (contact_meta_value contact field)) >>= λ value.
    some (normalized_field_value field value))

unfoldable pub jarl_entity : Contact → Option Text
unfolding jarl_call_area
jarl_entity contact =
    if is_some (jarl_call_area contact)
    then none
    else keep_if not_empty (upper_trimmed (adif_text contact (text "DXCC")))

unfoldable pub dok_area : Contact → Option Text
dok_area contact =
    or_else (adif_text contact (text "SRX_STRING")) (adif_text contact (text "SRX")) >>= λ exchange.
    find_first is_alpha exchange >>= λ c. some (upper_char c ∷ [])

unfoldable pub field_value : Contact → Text → Option Text
unfolding mode_class contact_prefix jarl_call_area jarl_entity dok_area sac_area plain_field_value
field_value contact field =
    if eq_ignore_case field (text "MODE_CLASS")
    then (adif_text contact (text "MODE") >>= λ mode. some (mode_class (to_upper (trim mode))))
    else if eq_ignore_case field (text "WPX_PREFIX")
    then contact_prefix contact
    else if eq_ignore_case field (text "GRID_FIELD")
    then grid_field (upper_trimmed (adif_text contact (text "GRIDSQUARE")))
    else if eq_ignore_case field (text "JARL_CALL_AREA")
    then jarl_call_area contact
    else if eq_ignore_case field (text "JARL_ENTITY")
    then jarl_entity contact
    else if eq_ignore_case field (text "DOK_AREA")
    then dok_area contact
    else if eq_ignore_case field (text "SAC_AREA")
    then sac_area contact
    else plain_field_value contact field
