-- ===== src/QsoTime.antt =====
-- backend/src/qso_time.rs: contact times between epoch seconds, dates and texts.
-- `i64` values stay far inside their range for every epoch that the functions accept, so they are
-- ℤ; the casts to `i32` and `u32` at the end of `civil_from_days` are written out.
pub mod Civil
mod Range
mod Digits
pub mod RoundTrip
use Prim.Native.Nat.{◌-◌}
use log.Base.{
  ℕ, zero, suc, ◌+◌, ◌*◌, ◌/◌, ◌%◌, ◌^◌, Bool, true, false, ◌&&◌, ◌||◌, Option, none, some, List,
  [], ◌∷◌, ◌++◌, ltb, leb, ◌==◌, if◌then◌else◌, ◌>>=◌, all, length, take, drop,
}
use log.Base.Int.{ℤ, pos, negsuc, ◌+ℤ◌, ◌-ℤ◌, ◌*ℤ◌, quot, leb_ℤ, wrap_at}
use log.Base.Text.{Text, text, trim, split_once, parse_unsigned, is_digit, decimal, padded}

-- Parses a configured UTC time into minutes since midnight.
unfoldable pub parse_utc_minute : Text → Option ℕ
parse_utc_minute value = do
  parts ← split_once b':' (trim value)
  hour ← parse_unsigned (2 ^ 16 - 1) parts.0
  minute ← parse_unsigned (2 ^ 16 - 1) parts.1
  if ltb hour 24 && ltb minute 60 then some (hour * 60 + minute) else none

-- (year, month, day)
abbrev pub Date : Type 0
Date = ℤ × ℕ × ℕ

-- `as u32` of an `i64`.
abbrev pub to_u32 : ℤ → ℕ
to_u32 (pos n) = n % 2 ^ 32
to_u32 (negsuc n) = 2 ^ 32 - 1 - n % 2 ^ 32

-- `i64::from(month <= 2)`
abbrev carry : Bool → ℤ
carry true = pos 1
carry false = pos 0

-- The era of `z`: the division by a positive constant, rounded down.
unfoldable pub era_of : ℕ → ℤ → ℤ
unfolding ◌-ℤ◌ quot
era_of size z = quot (if leb_ℤ (pos 0) z then z else z -ℤ pos (size - 1)) size

-- The year of the era, from the day of the era.
unfoldable pub year_of_doe : ℤ → ℤ
unfolding ◌+ℤ◌ ◌-ℤ◌ quot
year_of_doe doe = quot (doe -ℤ quot doe 1460 +ℤ quot doe 36524 -ℤ quot doe 146096) 365

-- The days of the era before its year `yoe`.
unfoldable pub days_before_year : ℤ → ℤ
unfolding ◌+ℤ◌ ◌-ℤ◌ ◌*ℤ◌ quot
days_before_year yoe = pos 365 *ℤ yoe +ℤ quot yoe 4 -ℤ quot yoe 100

-- The month counted from March, from the day of the year; and the days before such a month.
unfoldable pub month_of_doy : ℤ → ℤ
unfolding ◌+ℤ◌ ◌*ℤ◌ quot
month_of_doy doy = quot (pos 5 *ℤ doy +ℤ pos 2) 153

unfoldable pub days_before_month : ℤ → ℤ
unfolding ◌+ℤ◌ ◌*ℤ◌ quot
days_before_month mp = quot (pos 153 *ℤ mp +ℤ pos 2) 5

-- The end of `civil_from_days`: the calendar date of a day of a year that begins in March.
unfoldable pub calendar_date : ℤ → ℤ → Date
unfolding ◌+ℤ◌ ◌-ℤ◌ month_of_doy days_before_month
calendar_date y doy =
    let mp = month_of_doy doy in
    let day = doy -ℤ days_before_month mp +ℤ pos 1 in
    let month = mp +ℤ (if leb_ℤ mp (pos 9) then pos 3 else negsuc 8) in
    let year = y +ℤ carry (leb_ℤ month (pos 2)) in (wrap_at (2 ^ 31) year, to_u32 month, to_u32 day)

unfoldable pub civil_of_doe : ℤ → ℤ → Date
unfolding ◌+ℤ◌ ◌-ℤ◌ ◌*ℤ◌ year_of_doe days_before_year calendar_date
civil_of_doe era doe =
    let yoe = year_of_doe doe in calendar_date (yoe +ℤ era *ℤ pos 400) (doe -ℤ days_before_year yoe)

unfoldable pub civil_from_days : ℤ → Date
unfolding ◌+ℤ◌ ◌-ℤ◌ ◌*ℤ◌ era_of civil_of_doe
civil_from_days days =
    let z = days +ℤ pos 719468 in
    let era = era_of 146097 z in civil_of_doe era (z -ℤ era *ℤ pos 146097)

-- The day of the year that begins in March.
unfoldable pub doy_of_date : ℕ → ℕ → ℤ
unfolding ◌+ℤ◌ ◌-ℤ◌ days_before_month
doy_of_date month day =
    days_before_month (pos month +ℤ (if ltb 2 month then negsuc 2 else pos 9)) +ℤ pos day -ℤ pos 1

-- The year that begins in March.
unfoldable pub march_year : ℤ → ℕ → ℤ
unfolding ◌-ℤ◌
march_year year month = year -ℤ carry (leb month 2)

unfoldable pub days_of_march : ℤ → ℤ → ℤ
unfolding ◌+ℤ◌ ◌-ℤ◌ ◌*ℤ◌ era_of days_before_year
days_of_march y doy =
    let era = era_of 400 y in
    era *ℤ pos 146097 +ℤ (days_before_year (y -ℤ era *ℤ pos 400) +ℤ doy) -ℤ pos 719468

-- The days of a date as the source computes them, before its check.
unfoldable pub days_of_date : Date → ℤ
unfolding march_year days_of_march doy_of_date
days_of_date (year, month, day) = days_of_march (march_year year month) (doy_of_date month day)

abbrev pub same_int : ℤ → ℤ → Bool
same_int a b = leb_ℤ a b && leb_ℤ b a

abbrev same_date : Date → Date → Bool
same_date a b = same_int a.0 b.0 && (a.1 == b.1) && (a.2 == b.2)

unfoldable pub days_from_civil : ℤ → ℕ → ℕ → Option ℤ
days_from_civil year month day =
    if leb 1 month && leb month 12 && leb 1 day && leb day 31
    then (let days = days_of_date (year, month, day) in
        if same_date (civil_from_days days) (year, month, day) then some days else none)
    else none

-- `text[from..to].parse()` on a text of digits.
unfoldable pub number_at : ℕ → ℕ → Text → ℕ → Option ℕ
number_at from to s max = parse_unsigned max (take (to - from) (drop from s))

-- The seconds field, absent from a time of four digits.
unfoldable pub seconds_at : Text → Option ℕ
unfolding number_at
seconds_at time = if length time == 6 then number_at 4 6 time (2 ^ 63 - 1) else some 0

-- The seconds since midnight of `hhmm` or `hhmmss`.
unfoldable pub clock_seconds : Text → Option ℕ
unfolding number_at seconds_at
clock_seconds time =
    if ((length time == 4) || (length time == 6)) && all is_digit time
    then (number_at 0 2 time (2 ^ 63 - 1) >>= λ hour. number_at 2 4 time (2 ^ 63 - 1) >>= λ minute.
        seconds_at time >>= λ second.
        if ltb 23 hour || ltb 59 minute || ltb 59 second
        then none
        else some (hour * 3600 + minute * 60 + second))
    else none

-- The days of `yyyymmdd`.
unfoldable pub date_days : Text → Option ℤ
unfolding number_at
date_days date = number_at 0 4 date (2 ^ 31 - 1) >>= λ year.
    number_at 4 6 date (2 ^ 32 - 1) >>= λ month.
    number_at 6 8 date (2 ^ 32 - 1) >>= λ day. days_from_civil (pos year) month day

-- The source parses the clock between the date's fields and its days; both only fail or not.
unfoldable pub qso_epoch : Text → Text → Option ℤ
unfolding ◌+ℤ◌ ◌*ℤ◌
qso_epoch date time =
    if (length date == 8) && all is_digit date
    then (clock_seconds (trim time) >>= λ seconds.
        date_days date >>= λ days. some (days *ℤ pos 86400 +ℤ pos seconds))
    else none

pub record Parts : Type 0 where
  pub date : Date
  pub hour : ℕ
  pub minute : ℕ
  pub second : ℕ

-- An epoch before 1970 is an error.
unfoldable pub qso_datetime_parts : ℤ → Option Parts
qso_datetime_parts (negsuc n) = none
qso_datetime_parts (pos epoch) =
    let seconds = epoch % 86400 in
    some (record {
      date = civil_from_days (pos (epoch / 86400));
      hour = seconds / 3600;
      minute = (seconds % 3600) / 60;
      second = seconds % 60;
    })

unfoldable pub two_digits : ℕ → Text
two_digits n = padded 2 (decimal (pos n))

-- `{year:04}`: the sign counts, and stands in front of the zeros.
unfoldable pub year_text : ℤ → Text
year_text (pos n) = padded 4 (decimal (pos n))
year_text (negsuc n) = b'-' ∷ padded 3 (decimal (pos (suc n)))

unfoldable pub qso_datetime_adif : ℤ → Option (Text × Text)
unfolding qso_datetime_parts
qso_datetime_adif epoch = do
  p ← qso_datetime_parts epoch
  some (
    year_text p.date.0 ++ (two_digits p.date.1 ++ two_digits p.date.2),
    two_digits p.hour ++ (two_digits p.minute ++ two_digits p.second),
  )

unfoldable pub qso_datetime_cabrillo : ℤ → Option (Text × Text)
unfolding qso_datetime_parts
qso_datetime_cabrillo epoch = do
  p ← qso_datetime_parts epoch
  some (
    year_text p.date.0 ++ (b'-' ∷ two_digits p.date.1 ++ (b'-' ∷ two_digits p.date.2)),
    two_digits p.hour ++ two_digits p.minute,
  )
