-- ===== src/QsoTime/Digits.antt =====
-- The fixed-width decimals of backend/src/qso_time.rs, printed and parsed.
use log.Base.{ℕ, ◌+◌, ◌/◌, ◌%◌, ◌<◌, ◌≤◌, ◌≡◌, refl, true, false, some, [], ◌∷◌, arith, all}
use log.Base.Int.{pos}
use log.Base.Text.{
  Text, is_digit, is_whitespace, padded, decimal, decimal_on, parse_unsigned, digits_from, trim,
  trim_start, trim_end,
}
use log.QsoTime.{two_digits, year_text}

abbrev pub digit : ℕ → ℕ
digit n = b'0' + n % 10

pub is_digit-digit : (n : ℕ) → is_digit (digit n) ≡ true
is_digit-digit n = ground arith

is_whitespace-digit : (n : ℕ) → is_whitespace (digit n) ≡ false
is_whitespace-digit n = ground arith

pub two_digits_lem : (n : ℕ) → n < 100 → two_digits n ≡ digit (n / 10) ∷ digit n ∷ []
unfolding two_digits padded decimal decimal_on
two_digits_lem n h = ground arith

pub year_text_lem :
    (n : ℕ)
    → n < 10000
    → year_text (pos n) ≡ digit (n / 1000) ∷ digit (n / 100) ∷ digit (n / 10) ∷ digit n ∷ []
unfolding year_text padded decimal decimal_on
year_text_lem n h = ground arith

pub parse_two :
    (max n : ℕ) → n < 100 → 100 ≤ max → parse_unsigned max (digit (n / 10) ∷ digit n ∷ []) ≡ some n
unfolding parse_unsigned digits_from
parse_two max n h k = ground arith

pub parse_four :
    (max n : ℕ)
    → n < 10000
    → 10000 ≤ max
    → parse_unsigned max (digit (n / 1000) ∷ digit (n / 100) ∷ digit (n / 10) ∷ digit n ∷ [])
      ≡ some n
unfolding parse_unsigned digits_from
parse_four max n h k = ground arith

digit_not_white : (c : ℕ) → is_digit c ≡ true → is_whitespace c ≡ false
digit_not_white c h = ground arith

trim_end-digits : (s : Text) → all is_digit s ≡ true → trim_end s ≡ s
unfolding trim_end
trim_end-digits [] h = refl
trim_end-digits (c ∷ s) h = ground (arith, digit_not_white c, trim_end-digits s)

-- A text of digits has no white space to trim.
pub trim-digits : (s : Text) → all is_digit s ≡ true → trim s ≡ s
unfolding trim trim_start
trim-digits [] h = trim_end-digits [] h
trim-digits (c ∷ s) h = ground (arith, digit_not_white c, trim_end-digits (c ∷ s) h)
