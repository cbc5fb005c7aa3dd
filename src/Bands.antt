-- ===== src/Bands.antt =====
-- backend/src/bands.rs and radio-io/src/bands.rs: the band catalogue of a region, its parser and its
-- lookups. The CSV reader is a library: a file is the list of its rows.
pub mod Overlap
use log.Base.{
  ℕ, zero, suc, ◌+◌, ◌-◌, ◌*◌, ◌^◌, Bool, true, false, not, ◌&&◌, ◌||◌, Option, none, some, List,
  [], ◌∷◌, ◌++◌, ltb, leb, ◌==◌, if◌then◌else◌, all, length, find_first,
}
use log.Base.Text.{
  Text, text, text_eq, one_of, trim, to_upper, eq_ignore_case, is_digit, is_empty, split_once,
  digits_from,
}

pub record Band : Type 0 where
  pub iaru_region : ℕ
  pub name : Text
  pub lower_hz : ℕ
  pub upper_hz : ℕ
  pub default_ssb_mode : Text
  pub sort_order : ℕ
  pub cabrillo : Text

-- One row of a band file.
pub record BandCsvRow : Type 0 where
  pub band : Text
  pub start : Text
  pub end_text : Text
  pub cabrillo : Text

-- The messages of the source, by the place that raises them.
pub data BandError : Type 0 where
  frequency_empty not_decimal out_of_range not_positive : BandError
  name_empty duplicate_name start_not_lower cabrillo_empty catalog_empty overlap : BandError

pub data Result {ℓ} (A : Type ℓ) : Type ℓ where
  ok : A → Result A
  err : BandError → Result A

infixl 5 ◌>>=◌
abbrev pub ◌>>=◌ {ℓ κ} : {A : Type ℓ} {B : Type κ} → Result A → (A → Result B) → Result B
ok a >>= f = f a
err e >>= f = err e

abbrev pub max_i64 : ℕ
max_i64 = 2 ^ 63 - 1

-- The whole part and the fraction; a point with nothing behind it is an error.
unfoldable pub split_khz : Text → Result (Text × Text)
split_khz value = elim (split_once b'.' value) [
  | none ↦ ok (value, [])
  | some (whole, fraction) ↦ if is_empty fraction then err not_decimal else ok (whole, fraction)
]

-- `parse::<i64>()` on a text of digits, and the `checked_` operations on values that are not negative.
unfoldable pub checked : ℕ → Result ℕ
checked n = if leb n max_i64 then ok n else err out_of_range

unfoldable pub parse_digits : Text → Result ℕ
parse_digits s = elim (digits_from 0 s) [ none ↦ err not_decimal | some n ↦ checked n ]

unfoldable pub fraction_hz : Text → Result ℕ
unfolding parse_digits checked
fraction_hz fraction =
    if is_empty fraction
    then ok 0
    else (parse_digits fraction >>= λ n. ok (n * 10 ^ (3 - length fraction)))

unfoldable pub parse_khz_as_hz : Text → Result ℕ
unfolding split_khz parse_digits checked fraction_hz
parse_khz_as_hz value =
    if is_empty value
    then err frequency_empty
    else (split_khz value >>= λ p.
        if is_empty p.0 || not (all is_digit p.0) || not (all is_digit p.1) || ltb 3 (length p.1)
        then err not_decimal
        else (parse_digits p.0 >>= λ whole. fraction_hz p.1 >>= λ fraction.
            checked (whole * 1000) >>= λ whole_hz. checked (whole_hz + fraction) >>= λ frequency_hz.
            if frequency_hz == 0 then err not_positive else ok frequency_hz))

unfoldable pub default_ssb_mode : Text → ℕ → Text
default_ssb_mode name lower_hz =
    if eq_ignore_case name (text "60m") || leb 10000000 lower_hz then text "USB" else text "LSB"

-- `sort_by_key`, which is stable.
unfoldable pub insert_by_lower : Band → List Band → List Band
insert_by_lower b [] = b ∷ []
insert_by_lower b (c ∷ cs) =
    if leb b.lower_hz c.lower_hz then b ∷ c ∷ cs else c ∷ insert_by_lower b cs

unfoldable pub sort_by_lower : List Band → List Band
unfolding insert_by_lower
sort_by_lower [] = []
sort_by_lower (b ∷ bs) = insert_by_lower b (sort_by_lower bs)

-- No band of the sorted list begins at or below the end of the one before.
unfoldable pub windows_apart : List Band → Bool
windows_apart [] = true
windows_apart (b ∷ []) = true
windows_apart (b ∷ c ∷ cs) = ltb b.upper_hz c.lower_hz && windows_apart (c ∷ cs)

unfoldable pub validate_non_overlapping : List Band → Bool
unfolding sort_by_lower windows_apart
validate_non_overlapping bands = windows_apart (sort_by_lower bands)

-- One row: the names seen so far are in lower case, and rows count from 0.
unfoldable pub load_row : ℕ → List Text → ℕ → BandCsvRow → Result Band
unfolding parse_khz_as_hz default_ssb_mode
load_row iaru_region names index row =
    let name = trim row.band in
    if is_empty name
    then err name_empty
    else if one_of names (to_upper name)
    then err duplicate_name
    else (parse_khz_as_hz (trim row.start) >>= λ lower_hz.
        parse_khz_as_hz (trim row.end_text) >>= λ upper_hz.
        if leb upper_hz lower_hz
        then err start_not_lower
        else if is_empty (trim row.cabrillo)
        then err cabrillo_empty
        else ok (record {
          iaru_region = iaru_region;
          name = name;
          lower_hz = lower_hz;
          upper_hz = upper_hz;
          default_ssb_mode = default_ssb_mode name lower_hz;
          sort_order = index + 1;
          cabrillo = trim row.cabrillo;
        }))

unfoldable pub load_rows : ℕ → List Text → ℕ → List BandCsvRow → Result (List Band)
unfolding load_row
load_rows iaru_region names index [] = ok []
load_rows iaru_region names index (row ∷ rows) = load_row iaru_region names index row >>= λ band.
    load_rows iaru_region (to_upper band.name ∷ names) (index + 1) rows >>= λ bands.
    ok (band ∷ bands)

abbrev is_empty_catalog : List Band → Bool
is_empty_catalog [] = true
is_empty_catalog (b ∷ bs) = false

-- `load_band_file`, after the file's header.
unfoldable pub load_bands : ℕ → List BandCsvRow → Result (List Band)
unfolding load_rows validate_non_overlapping
load_bands iaru_region rows = load_rows iaru_region [] 0 rows >>= λ bands.
    if is_empty_catalog bands
    then err catalog_empty
    else if validate_non_overlapping bands
    then ok bands
    else err overlap

abbrev pub covers : ℕ → Band → Bool
covers frequency_hz band = leb band.lower_hz frequency_hz && leb frequency_hz band.upper_hz

-- A frequency above `i64` is on no band.
unfoldable pub band_for_frequency : List Band → ℕ → Option Band
band_for_frequency bands frequency_hz =
    if leb frequency_hz max_i64 then find_first (covers frequency_hz) bands else none

unfoldable pub band_by_name : List Band → Text → Option Band
band_by_name bands name = find_first (λ band. eq_ignore_case band.name (trim name)) bands
