-- ===== src/QsoTime/Civil.antt =====
-- `civil_from_days` and `days_from_civil` of backend/src/qso_time.rs, from 1970 on.
use log.Base.{
  ℕ, ◌+◌, ◌*◌, ◌-◌, ◌/◌, ◌^◌, ◌<◌, ◌≤◌, ◌≡◌, ◌∙◌, refl, subst, true, some, arith, leb,
  if◌then◌else◌,
}
use log.Base.Int.{ℤ, pos, negsuc, ◌+ℤ◌, ◌-ℤ◌, ◌*ℤ◌}
use log.QsoTime.Range.{year_of_era, year_start, year_of_era-lt, year_start-le, day_of_year-lt}
use log.QsoTime.{
  Date, same_int, civil_from_days, days_from_civil, days_of_date, era_of, year_of_doe,
  days_before_year, calendar_date, civil_of_doe, doy_of_date, march_year, days_of_march,
}

pos-sub : (a b : ℕ) → b ≤ a → pos a -ℤ pos b ≡ pos (a - b)
unfolding ◌-ℤ◌
pos-sub a b h = ground arith

era_of-pos : (size n : ℕ) → era_of size (pos n) ≡ pos (n / size)
unfolding era_of
era_of-pos size n = ground arith

year_of_doe-pos : (d : ℕ) → year_of_doe (pos d) ≡ pos (year_of_era d)
unfolding year_of_doe
year_of_doe-pos d = ground arith

days_before_year-pos : (y : ℕ) → days_before_year (pos y) ≡ pos (year_start y)
unfolding days_before_year
days_before_year-pos y = ground arith

abbrev pub mp_of : ℕ → ℕ
mp_of doy = (5 * doy + 2) / 153

abbrev pub month_of : ℕ → ℕ
month_of doy = if leb (mp_of doy) 9 then mp_of doy + 3 else mp_of doy - 9

abbrev pub day_of : ℕ → ℕ
day_of doy = doy - (153 * mp_of doy + 2) / 5 + 1

abbrev pub year_of : ℕ → ℕ → ℕ
year_of y doy = if leb (month_of doy) 2 then y + 1 else y

calendar_date-pos :
    (y doy : ℕ)
    → y < 2 ^ 30
    → doy < 366
    → calendar_date (pos y) (pos doy) ≡ (pos (year_of y doy), month_of doy, day_of doy)
unfolding calendar_date
calendar_date-pos y doy h k = ground arith

doy_of_date-pos : (doy : ℕ) → doy < 366 → doy_of_date (month_of doy) (day_of doy) ≡ pos doy
unfolding doy_of_date
doy_of_date-pos doy h = ground arith

-- The date of a day of an era, on plain numbers.
civil_of_doe-pos :
    (era doe : ℕ)
    → doe < 146097
    → era < 10000
    → let y = year_of_era doe + era * 400 in
      let doy = doe - year_start (year_of_era doe) in
      civil_of_doe (pos era) (pos doe) ≡ (pos (year_of y doy), month_of doy, day_of doy)
unfolding civil_of_doe ◌+ℤ◌ ◌*ℤ◌
civil_of_doe-pos era doe h k =
    rw
      (
        year_of_doe-pos doe,
        days_before_year-pos (year_of_era doe),
        pos-sub doe (year_start (year_of_era doe)) (year_start-le doe h),
      )
      (calendar_date-pos _ _ (omega (arith, year_of_era-lt doe h)) (day_of_year-lt doe h))

abbrev pub era_day : ℕ → ℕ
era_day days = (days + 719468) - (days + 719468) / 146097 * 146097

abbrev pub era_year : ℕ → ℕ
era_year days = year_of_era (era_day days) + (days + 719468) / 146097 * 400

abbrev pub year_day : ℕ → ℕ
year_day days = era_day days - year_start (year_of_era (era_day days))

pub civil_from_days-pos :
    (days : ℕ)
    → days < 2932897
    → civil_from_days (pos days) ≡ (
      pos (year_of (era_year days) (year_day days)),
      month_of (year_day days),
      day_of (year_day days),
    )
unfolding civil_from_days ◌+ℤ◌ ◌*ℤ◌
civil_from_days-pos days h =
    rw
      (
        era_of-pos 146097 (days + 719468),
        pos-sub (days + 719468) ((days + 719468) / 146097 * 146097) (omega arith),
      )
      (civil_of_doe-pos _ _ (omega arith) (omega arith))

march_year-pos : (y doy : ℕ) → doy < 366 → march_year (pos (year_of y doy)) (month_of doy) ≡ pos y
unfolding march_year
march_year-pos y doy h = ground arith

days_of_march-pos :
    (era yoe doy : ℕ)
    → yoe < 400
    → days_of_march (pos (yoe + era * 400)) (pos doy)
      ≡ pos (era * 146097 + (year_start yoe + doy)) -ℤ pos 719468
unfolding days_of_march ◌+ℤ◌ ◌*ℤ◌
days_of_march-pos era yoe doy h =
    let e : (yoe + era * 400) / 400 ≡ era = omega arith in
    rw (era_of-pos 400 (yoe + era * 400), e, pos-sub (yoe + era * 400) (era * 400) (omega arith))
      (let d : yoe + era * 400 - era * 400 ≡ yoe = omega arith in
        rw (d, days_before_year-pos yoe) refl)

pos-sub-add : (n m : ℕ) → m ≡ n + 719468 → pos m -ℤ pos 719468 ≡ pos n
unfolding ◌-ℤ◌
pos-sub-add n m e = ground arith

days_of_civil : (days : ℕ) → days < 2932897 → days_of_date (civil_from_days (pos days)) ≡ pos days
unfolding days_of_date
days_of_civil days h =
    rw
      (
        civil_from_days-pos days h,
        march_year-pos (era_year days) (year_day days)
            (day_of_year-lt (era_day days) (omega arith)),
        doy_of_date-pos (year_day days) (day_of_year-lt (era_day days) (omega arith)),
      )
      (days_of_march-pos ((days + 719468) / 146097) (year_of_era (era_day days)) (year_day days)
          (year_of_era-lt (era_day days) (omega arith))
        ∙ pos-sub-add days _ (omega (arith, year_start-le (era_day days))))

same_int_refl : (y : ℤ) → same_int y y ≡ true
same_int_refl (pos n) = ground arith
same_int_refl (negsuc n) = ground arith

-- A date that comes from a day passes the check of `days_from_civil`.
days_from_civil_checked :
    (date : Date) (days : ℤ)
    → 1 ≤ date.1
    → date.1 ≤ 12
    → 1 ≤ date.2
    → date.2 ≤ 31
    → days_of_date date ≡ days
    → civil_from_days days ≡ date
    → days_from_civil date.0 date.1 date.2 ≡ some days
unfolding days_from_civil
days_from_civil_checked (y, m, d) days h1 h2 h3 h4 e f = rw (e, f, same_int_refl y) (ground arith)

pub month_bounds :
    (doy : ℕ)
    → doy < 366
    → (1 ≤ month_of doy) × (month_of doy ≤ 12) × (1 ≤ day_of doy) × (day_of doy ≤ 31)
month_bounds doy h = ground arith

-- From 1970-01-01 to 9999-12-31, the civil date of a day leads back to that day.
pub days_from_civil-civil_from_days :
    (days : ℕ)
    → days < 2932897
    → let date = civil_from_days (pos days) in
      days_from_civil date.0 date.1 date.2 ≡ some (pos days)
days_from_civil-civil_from_days days h =
    let b = month_bounds (year_day days) (day_of_year-lt (era_day days) (omega arith)) in
    let e = civil_from_days-pos days h in
    let r = subst (λ (t : Date). days_of_date t ≡ pos days) e (days_of_civil days h) in
    rw e (days_from_civil_checked _ (pos days) b.0 b.1 b.2 b.3 r e)

-- Days before the year 10000 have years of at most four digits.
pub year-lt : (days : ℕ) → days < 2932897 → year_of (era_year days) (year_day days) < 10000
year-lt days h = ground arith

pub year_day-lt : (days : ℕ) → year_day days < 366
year_day-lt days = day_of_year-lt (era_day days) (omega arith)
