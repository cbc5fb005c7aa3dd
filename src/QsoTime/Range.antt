-- ===== src/QsoTime/Range.antt =====
-- The bounds of the Gregorian era arithmetic of backend/src/qso_time.rs, on plain numbers.
use log.Base.{◌+◌, ◌-◌, ◌*◌, ◌/◌, ◌<◌, ◌≤◌, ℕ, arith}

abbrev pub year_of_era : ℕ → ℕ
year_of_era doe = (doe - doe / 1460 + doe / 36524 - doe / 146096) / 365

abbrev pub year_start : ℕ → ℕ
year_start yoe = 365 * yoe + yoe / 4 - yoe / 100

pub year_of_era-lt : (doe : ℕ) → doe < 146097 → year_of_era doe < 400
year_of_era-lt doe h = omega arith

pub year_start-le : (doe : ℕ) → doe < 146097 → year_start (year_of_era doe) ≤ doe
year_start-le doe h = omega arith

pub day_of_year-lt : (doe : ℕ) → doe < 146097 → doe - year_start (year_of_era doe) < 366
day_of_year-lt doe h = omega arith
