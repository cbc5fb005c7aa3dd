-- ===== src/Examples/Time.antt =====
-- Dates and times of contacts.
use log.Base.{◌≡◌, some, arith, ◌>>=◌}
use log.Base.Int.{pos}
use log.QsoTime.{qso_epoch, qso_datetime_adif, civil_from_days, days_from_civil}
use log.QsoTime.Civil.{days_from_civil-civil_from_days}
use log.QsoTime.RoundTrip.{qso_epoch-qso_datetime_adif}

-- 2024-02-29 23:59:59
qso_epoch-qso_datetime_adif_example :
    (qso_datetime_adif (pos 1709251199) >>= λ p. qso_epoch p.0 p.1) ≡ some (pos 1709251199)
qso_epoch-qso_datetime_adif_example = qso_epoch-qso_datetime_adif 1709251199 (omega arith)

-- 2000-03-01
days_from_civil-civil_from_days_example :
    days_from_civil
      (civil_from_days (pos 11017)).0
      (civil_from_days (pos 11017)).1
      (civil_from_days (pos 11017)).2
    ≡ some (pos 11017)
days_from_civil-civil_from_days_example = days_from_civil-civil_from_days 11017 (omega arith)
