-- ===== src/QsoTime/RoundTrip.antt =====
-- Printing and reading the time of a contact (backend/src/qso_time.rs).
use log.Base.{
  ℕ, ◌+◌, ◌-◌, ◌*◌, ◌/◌, ◌%◌, ◌^◌, ◌<◌, ◌≡◌, ◌∙◌, true, some, [], ◌∷◌, arith, all, ◌>>=◌, subst, ap,
}
use log.Base.Int.{pos}
use log.Base.Text.{Text, is_digit}
use log.QsoTime.{
  Date, qso_epoch, qso_datetime_adif, clock_seconds, date_days, number_at, seconds_at,
  days_from_civil, civil_from_days,
}
use log.QsoTime.Civil.{
  year_of, month_of, day_of, era_year, year_day, month_bounds, year-lt, year_day-lt,
  civil_from_days-pos, days_from_civil-civil_from_days,
}
use log.QsoTime.Digits.{
  digit, two_digits_lem, year_text_lem, parse_two, parse_four, trim-digits, is_digit-digit,
}

abbrev clock_text : ℕ → ℕ → ℕ → Text
clock_text h m s =
    digit (h / 10) ∷ digit h ∷ digit (m / 10) ∷ digit m ∷ digit (s / 10) ∷ digit s ∷ []

clock_seconds_lem :
    (h m s : ℕ)
    → h < 24
    → m < 60
    → s < 60
    → clock_seconds (clock_text h m s) ≡ some (h * 3600 + m * 60 + s)
unfolding clock_seconds number_at seconds_at
clock_seconds_lem h m s p q r =
    rw
      (
        is_digit-digit (h / 10),
        is_digit-digit h,
        is_digit-digit (m / 10),
        is_digit-digit m,
        is_digit-digit (s / 10),
        is_digit-digit s,
        parse_two (2 ^ 63 - 1) h (omega arith) (omega arith),
        parse_two (2 ^ 63 - 1) m (omega arith) (omega arith),
        parse_two (2 ^ 63 - 1) s (omega arith) (omega arith),
      )
      (ground arith)

abbrev date_text : ℕ → ℕ → ℕ → Text
date_text y m d =
    digit (y / 1000)
    ∷ digit (y / 100)
    ∷ digit (y / 10)
    ∷ digit y
    ∷ digit (m / 10)
    ∷ digit m
    ∷ digit (d / 10)
    ∷ digit d
    ∷ []

date_digits : (y m d : ℕ) → all is_digit (date_text y m d) ≡ true
date_digits y m d = rw (
  is_digit-digit (y / 1000),
  is_digit-digit (y / 100),
  is_digit-digit (y / 10),
  is_digit-digit y,
  is_digit-digit (m / 10),
  is_digit-digit m,
  is_digit-digit (d / 10),
  is_digit-digit d,
)

clock_digits : (h m s : ℕ) → all is_digit (clock_text h m s) ≡ true
clock_digits h m s = rw (
  is_digit-digit (h / 10),
  is_digit-digit h,
  is_digit-digit (m / 10),
  is_digit-digit m,
  is_digit-digit (s / 10),
  is_digit-digit s,
)

date_days_lem :
    (y m d : ℕ)
    → y < 10000
    → m < 100
    → d < 100
    → date_days (date_text y m d) ≡ days_from_civil (pos y) m d
unfolding date_days number_at
date_days_lem y m d p q r = rw (
  parse_four (2 ^ 31 - 1) y p (omega arith),
  parse_two (2 ^ 32 - 1) m q (omega arith),
  parse_two (2 ^ 32 - 1) d r (omega arith),
)

qso_epoch_lem :
    (y mo d h mi s days : ℕ)
    → y < 10000
    → mo < 100
    → d < 100
    → h < 24
    → mi < 60
    → s < 60
    → days_from_civil (pos y) mo d ≡ some (pos days)
    → qso_epoch (date_text y mo d) (clock_text h mi s)
      ≡ some (pos (days * 86400 + (h * 3600 + mi * 60 + s)))
unfolding qso_epoch
qso_epoch_lem y mo d h mi s days p1 p2 p3 p4 p5 p6 e = rw (
  date_digits y mo d,
  trim-digits (clock_text h mi s) (clock_digits h mi s),
  clock_seconds_lem h mi s p4 p5 p6,
  date_days_lem y mo d p1 p2 p3,
  e,
)

abbrev seconds_of : ℕ → ℕ
seconds_of e = e % 86400

parts_text :
    (e y m d : ℕ)
    → civil_from_days (pos (e / 86400)) ≡ (pos y, m, d)
    → y < 10000
    → m < 100
    → d < 100
    → qso_datetime_adif (pos e)
      ≡ some (
        date_text y m d,
        clock_text (seconds_of e / 3600) (seconds_of e % 3600 / 60) (seconds_of e % 60),
      )
unfolding qso_datetime_adif
parts_text e y m d c p q r = rw (
  c,
  year_text_lem y p,
  two_digits_lem m q,
  two_digits_lem d r,
  two_digits_lem (seconds_of e / 3600) (omega arith),
  two_digits_lem (seconds_of e % 3600 / 60) (omega arith),
  two_digits_lem (seconds_of e % 60) (omega arith),
)

-- Every epoch from 1970 to the end of the year 9999 is printed, and the printed date and time
-- read back as that epoch.
pub qso_epoch-qso_datetime_adif :
    (epoch : ℕ)
    → epoch < 253402300800
    → (qso_datetime_adif (pos epoch) >>= λ p. qso_epoch p.0 p.1) ≡ some (pos epoch)
qso_epoch-qso_datetime_adif epoch h =
    let days = epoch / 86400 in
    let doy = year_day days in
    let hd : days < 2932897 = omega arith in
    let e = civil_from_days-pos days hd in
    let b = month_bounds doy (year_day-lt days) in
    let y = year-lt days hd in
    let back =
      subst (λ (t : Date). days_from_civil t.0 t.1 t.2 ≡ some (pos days)) e
        (days_from_civil-civil_from_days days hd) in
    rw
      (parts_text epoch (year_of (era_year days) doy) (month_of doy) (day_of doy) e y (omega arith)
        (omega arith))
      (qso_epoch_lem (year_of (era_year days) doy) (month_of doy) (day_of doy)
          (seconds_of epoch / 3600) (seconds_of epoch % 3600 / 60) (seconds_of epoch % 60) days y
          (omega arith) (omega arith) (omega arith) (omega arith) (omega arith) back
        ∙ ap (λ (n : ℕ). some (pos n)) (omega arith))
