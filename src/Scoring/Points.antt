-- ===== src/Scoring/Points.antt =====
-- The points of a contact: `score_qso_points` and its time bonus, of backend/src/scoring.rs.
pub mod Window
use log.Base.{
  ℕ, ◌-◌, ◌/◌, ◌%◌, Bool, true, ◌&&◌, ◌||◌, Option, none, some, List, ◌==◌, ltb, leb, if◌then◌else◌,
  ◌>>=◌, pick, find_first,
}
use log.Base.Int.{ℤ, pos, negsuc, add_i64, sum_i64, max_ℤ}
use log.Base.Text.{text, text_eq}
use log.Contact.{Contact, as_i64, contact_adif_value}
use log.ContestRules.{
  QsoPoints, QsoPointRule, TimeBonusPointRule, GeographyQsoPoints, GridDistanceQsoPoints, for_band,
}
use log.GridDistance.{Floats, grid_distance_kilometers}
use log.QsoTime.{parse_utc_minute}
use log.Scoring.Condition.{holds, all_hold}
use log.Scoring.FieldValue.{field_value}

-- The minute of the day of an epoch: `rem_euclid`.
unfoldable pub minute_of_day : ℤ → ℕ
minute_of_day (pos n) = n % 86400 / 60
minute_of_day (negsuc n) = (86399 - n % 86400) / 60

-- Whether a minute lies in a window, which may cross midnight; equal ends are the whole day.
unfoldable pub in_window : ℕ → ℕ → ℕ → Bool
in_window start end_minute minute =
    if start == end_minute
    then true
    else if ltb start end_minute
    then leb start minute && ltb minute end_minute
    else leb start minute || ltb minute end_minute

unfoldable pub time_bonus : ℕ → TimeBonusPointRule → Option ℤ
unfolding in_window
time_bonus minute rule = do
  start ← parse_utc_minute rule.start_utc
  end_minute ← parse_utc_minute rule.end_utc
  if in_window start end_minute minute then some rule.points else none

unfoldable pub time_bonus_points : QsoPoints → Contact → ℤ
unfolding time_bonus minute_of_day
time_bonus_points qso_points contact =
    elim (contact_adif_value contact (text "QSO_DATE_TIME_ON") >>= as_i64) [
      | none ↦ pos 0
      | some timestamp ↦
          sum_i64 (pos 0) (pick (time_bonus (minute_of_day timestamp)) qso_points.time_bonus_points)
    ]

-- The points by country and continent; `none` where one of the four fields is missing.
unfoldable pub geography_points : GeographyQsoPoints → Contact → Option ℤ
geography_points geography contact = do
  country ← field_value contact geography.country_field
  station_country ← field_value contact geography.station_country_field
  continent ← field_value contact geography.continent_field
  station_continent ← field_value contact geography.station_continent_field
  some (
      for_band
        (if text_eq country station_country
          then geography.same_country
          else if text_eq continent station_continent
          then (if text_eq continent (text "NA")
              then geography.different_country_north_america
              else geography.different_country_same_continent)
          else geography.different_continent)
        (field_value contact (text "BAND")))

abbrev or_unresolved : GeographyQsoPoints → Contact → Option ℤ → ℤ
or_unresolved geography contact (some points) = points
or_unresolved geography contact none =
    for_band geography.unresolved (field_value contact (text "BAND"))

unfoldable pub rule_points : List QsoPointRule → Contact → Option ℤ
rule_points rules contact =
    find_first (λ rule. holds contact rule.when && all_hold contact rule.when_all) rules >>= λ rule.
    some rule.points

module _ (fl : Floats) where
  unfoldable pub distance_points : GridDistanceQsoPoints → Contact → Option ℤ
  distance_points grid contact = do
    station_grid ← field_value contact grid.station_grid_field
    contact_grid ← field_value contact grid.contact_grid_field
    distance ← grid_distance_kilometers fl station_grid contact_grid
    let points = fl.ceil_i64 (fl.div distance (fl.of_ℤ grid.kilometers_per_point))
    some (add_i64 grid.base_points (max_ℤ points grid.minimum_distance_points))

  -- By distance, else by geography, else fixed, else by the first rule that matches.
  unfoldable pub base_points : QsoPoints → Contact → Option ℤ
  unfolding distance_points geography_points rule_points
  base_points qso_points contact = elim qso_points.grid_distance [
    | some grid ↦ distance_points grid contact
    | none ↦ elim qso_points.geography [
      | some geography ↦ some (or_unresolved geography contact (geography_points geography contact))
      | none ↦ elim qso_points.points [
        | some points ↦ some points
        | none ↦ rule_points qso_points.rules contact
      ]
    ]
  ]

  unfoldable pub score_qso_points : QsoPoints → Contact → Option ℤ
  unfolding base_points time_bonus_points
  score_qso_points qso_points contact = base_points qso_points contact >>= λ points.
      some (add_i64 points (time_bonus_points qso_points contact))
