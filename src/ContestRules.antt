-- ===== src/ContestRules.antt =====
-- The scoring part of backend/src/contest_rules.rs: the rules of a contest as the loader leaves
-- them. A `BTreeMap` is the list of its entries in the order of their keys.
use log.Base.{ℕ, Option, none, some, List, find_first}
use log.Base.Int.{ℤ}
use log.Base.Text.{Text, eq_ignore_case}
use log.Base.Table.{Table}

pub record ScoringCondition : Type 0 where
  pub field : Text
  pub matches_field : Option Text
  pub not_matches_field : Option Text
  pub values : List Text
  pub exclude_values : List Text
  pub suffixes : List Text
  pub exclude_suffixes : List Text

pub record QsoPointRule : Type 0 where
  pub id : Text
  pub when : Option ScoringCondition
  pub when_all : List ScoringCondition
  pub points : ℤ

pub record TimeBonusPointRule : Type 0 where
  pub id : Text
  pub start_utc : Text
  pub end_utc : Text
  pub points : ℤ

pub record GridDistanceQsoPoints : Type 0 where
  pub station_grid_field : Text
  pub contact_grid_field : Text
  pub base_points : ℤ
  pub kilometers_per_point : ℤ
  pub minimum_distance_points : ℤ

pub data GeographyPointValue : Type 0 where
  fixed : ℤ → GeographyPointValue
  by_band : ℤ → Table Text ℤ → GeographyPointValue

abbrev points_at : ℤ → Option (Text × ℤ) → ℤ
points_at default none = default
points_at default (some p) = p.1

-- The points on a band, whose name is compared without regard to case.
unfoldable pub for_band : GeographyPointValue → Option Text → ℤ
for_band (fixed points) band = points
for_band (by_band default bands) none = default
for_band (by_band default bands) (some band) =
    points_at default (find_first (λ p. eq_ignore_case p.0 band) bands)

pub record GeographyQsoPoints : Type 0 where
  pub country_field : Text
  pub station_country_field : Text
  pub continent_field : Text
  pub station_continent_field : Text
  pub same_country : GeographyPointValue
  pub different_country_north_america : GeographyPointValue
  pub different_country_same_continent : GeographyPointValue
  pub different_continent : GeographyPointValue
  pub unresolved : GeographyPointValue

pub record QsoPoints : Type 0 where
  pub points : Option ℤ
  pub rules : List QsoPointRule
  pub time_bonus_points : List TimeBonusPointRule
  pub geography : Option GeographyQsoPoints
  pub grid_distance : Option GridDistanceQsoPoints
  pub category_band_param : Option Text

pub record MultiplierRule : Type 0 where
  pub id : Text
  pub name : Text
  pub field : Text
  pub key : List Text
  pub values : List Text
  pub when : Option ScoringCondition
  pub when_all : List ScoringCondition
  pub exclude_call_suffixes : List Text
  pub exclude_values : List Text
  pub fixed_key : Option Text
  pub max_count : Option ℕ
  pub cap_group : Option Text

pub record BonusPointRule : Type 0 where
  pub id : Text
  pub name : Text
  pub field : Text
  pub key : List Text
  pub values : Table Text ℤ

pub record ParamMultiplierRule : Type 0 where
  pub id : Text
  pub param : Text
  pub values : Table Text ℤ

pub record MultiplierCountBonusRule : Type 0 where
  pub id : Text
  pub name : Text
  pub multiplier : Text
  pub thresholds : Table ℕ ℤ

pub record QsoCountBonusRule : Type 0 where
  pub id : Text
  pub name : Text
  pub field : Text
  pub param : Option Text
  pub values : List Text
  pub thresholds : Table ℕ ℤ

pub record ScoringRules : Type 0 where
  pub qso_points : Option QsoPoints
  pub minimum_multiplier_count : ℤ
  pub dupe_key : List Text
  pub multipliers : List MultiplierRule
  pub bonus_points : List BonusPointRule
  pub param_multipliers : List ParamMultiplierRule
  pub multiplier_count_bonus_points : List MultiplierCountBonusRule
  pub qso_count_bonus_points : List QsoCountBonusRule
