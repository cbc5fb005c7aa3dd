-- ===== src/Scoring/Module.antt =====
-- `ContestScoringModule` of backend/src/scoring.rs: what the rules of a contest say of a contact.
use log.Base.{
  ℕ, Bool, true, false, not, ◌||◌, Option, none, some, List, [], ◌∷◌, ◌++◌, map, reverse, leb,
  if◌then◌else◌, ◌>>=◌, unwrap_or, any, is_some, select, pick, find_first, length, keep_if,
}
use log.Base.Int.{ℤ, pos, sum_i64, product_i64}
use log.Base.Text.{
  Text, text, text_eq, one_of, trim, to_upper, eq_ignore_case, is_empty, starts_with, join,
}
use log.Base.Table.{Table, lookup, text_eq_instance}
use log.Contact.{Contact, Value, Fields, nil, field, get, as_object, as_str}
use log.ContestRules.{
  ScoringRules, MultiplierRule, BonusPointRule, ParamMultiplierRule, MultiplierCountBonusRule,
  QsoCountBonusRule,
}
use log.GridDistance.{Floats}
use log.Scoring.Condition.{is_empty_list, multiplier_matches}
use log.Scoring.FieldValue.{field_value}
use log.Scoring.Points.{score_qso_points}

pub record MultiplierCandidate : Type 0 where
  pub id : Text
  pub cap_group : Option Text
  pub key : Text
  pub max_count : Option ℕ

-- What the scorers take from a module: the interface of the two scorers.
pub record ScoringModule : Type 0 where
  pub has_multipliers : Bool
  pub minimum_multiplier_count : ℤ
  pub has_capped_multipliers : Bool
  pub score_factor : ℤ
  pub dupe_key_for : Contact → Option Text
  pub qso_points_for : Contact → ℤ
  pub multiplier_candidates_for : Contact → List MultiplierCandidate
  pub bonus_keys_for : Contact → List (Text × ℤ)
  pub qso_count_bonus_keys_for : Contact → List Text
  pub multiplier_count_bonus_points : List Text → ℤ
  pub qso_count_bonus_points : Table Text ℕ → ℤ

unfoldable pub scoring_key : Contact → List Text → Text
scoring_key contact fields =
    join (text "|") (map (λ f. unwrap_or (field_value contact f) []) fields)

unfoldable pub mode_group : Text → Text
mode_group mode =
    if one_of (text "CW" ∷ text "CW-R" ∷ []) mode
    then text "CW"
    else if text_eq mode (text "SSB")
    then text "SSB"
    else if text_eq mode (text "FM")
    then text "FM"
    else text "DATA"

unfoldable pub dupe_mode_class : Contact → Option Text
unfolding mode_group
dupe_mode_class contact = field_value contact (text "MODE") >>= λ mode. some (mode_group mode)

unfoldable pub dupe_scoring_key : Contact → List Text → Text
unfolding dupe_mode_class
dupe_scoring_key contact fields = join (text "|") (
    map
      (λ f.
        unwrap_or
          (if eq_ignore_case f (text "MODE")
            then dupe_mode_class contact
            else field_value contact f)
          [])
      fields)

-- The first parameter of a name, compared without regard to case.
abbrev find_param : Text → Fields → Option Value
find_param name nil = none
find_param name (field k v rest) = if eq_ignore_case k name then some v else find_param name rest

abbrev trimmed_text : Option Text → Option Text
trimmed_text none = none
trimmed_text (some s) = some (trim s)

-- The text of a contest parameter.
unfoldable pub selected_param : Value → Text → Option Text
selected_param contest_params name =
    trimmed_text (as_object contest_params >>= find_param name >>= as_str)

abbrev second_or : ℤ → Option (Text × ℤ) → ℤ
second_or d none = d
second_or d (some p) = p.1

unfoldable pub param_factor : Value → ParamMultiplierRule → ℤ
param_factor contest_params multiplier = elim (selected_param contest_params multiplier.param) [
  | none ↦ pos 1
  | some selected ↦
      second_or (pos 1) (find_first (λ p. eq_ignore_case p.0 selected) multiplier.values)
]

unfoldable pub score_factor_for : ScoringRules → Value → ℤ
unfolding param_factor
score_factor_for rules contest_params =
    product_i64 (pos 1) (map (param_factor contest_params) rules.param_multipliers)

-- The points of the last threshold, in ascending order, that the count reaches.
unfoldable pub threshold_points : Table ℕ ℤ → ℕ → ℤ
threshold_points thresholds count = elim (find_first (λ p. leb p.0 count) (reverse thresholds)) [
  | none ↦ pos 0
  | some p ↦ p.1
]

abbrev category_band : ScoringRules → Value → Option Text
category_band rules contest_params =
    keep_if (λ value. not (is_empty value))
      (trimmed_text (
        rules.qso_points >>= λ q.
        q.category_band_param >>= λ name. as_object contest_params >>= get name >>= as_str))

unfoldable pub contact_in_category_band : ScoringRules → Value → Contact → Bool
contact_in_category_band rules contest_params contact = elim (category_band rules contest_params) [
  | none ↦ true
  | some band ↦
      if eq_ignore_case band (text "ALL") then true else elim (field_value contact (text "BAND")) [
        | none ↦ false
        | some contact_band ↦ eq_ignore_case band contact_band
      ]
]

abbrev colon : Text
colon = text ":"

unfoldable pub candidate_for : Contact → MultiplierRule → MultiplierCandidate
candidate_for contact multiplier = record {
  id = multiplier.id;
  cap_group = multiplier.cap_group;
  key =
      to_upper multiplier.name
      ++ (colon ++ unwrap_or multiplier.fixed_key (scoring_key contact multiplier.key));
  max_count = multiplier.max_count;
}

unfoldable pub multiplier_candidates : ScoringRules → Value → Contact → List MultiplierCandidate
unfolding candidate_for
multiplier_candidates rules contest_params contact =
    if contact_in_category_band rules contest_params contact
    then map (candidate_for contact)
        (select (λ multiplier. multiplier_matches multiplier contact) rules.multipliers)
    else []

unfoldable pub bonus_key : Contact → BonusPointRule → Option (Text × ℤ)
bonus_key contact bonus = do
  value ← field_value contact bonus.field
  points ← lookup value bonus.values
  some (to_upper bonus.name ++ (colon ++ scoring_key contact bonus.key), points)

-- Whether a count bonus is chosen by the contest's parameters.
unfoldable pub is_selected : Value → QsoCountBonusRule → Bool
is_selected contest_params bonus = elim bonus.param [
  | none ↦ true
  | some param ↦ elim (selected_param contest_params param) [
    | none ↦ false
    | some selected ↦
        is_empty_list bonus.values || any (λ value. eq_ignore_case value selected) bonus.values
  ]
]

unfoldable pub count_bonus_key : Contact → QsoCountBonusRule → Option Text
count_bonus_key contact bonus =
    field_value contact bonus.field >>= λ value. some (bonus.id ++ (colon ++ value))

unfoldable pub multiplier_count_bonus : List Text → MultiplierCountBonusRule → ℤ
unfolding threshold_points
multiplier_count_bonus multiplier_keys bonus =
    let prefix = to_upper (trim bonus.multiplier) ++ colon in
    threshold_points bonus.thresholds
      (length (select (λ key. starts_with key prefix) multiplier_keys))

unfoldable pub qso_count_bonus : Table Text ℕ → QsoCountBonusRule → ℤ
unfolding threshold_points
qso_count_bonus counts bonus =
    let prefix = bonus.id ++ colon in
    sum_i64 (pos 0) (
      map (λ p. threshold_points bonus.thresholds p.1)
        (select (λ p. starts_with p.0 prefix) counts))

-- The module of a contest: its rules and parameters as the scorers see them.
module _ (fl : Floats) where
  unfoldable pub qso_points_of : ScoringRules → Value → Contact → ℤ
  qso_points_of rules contest_params contact =
      if contact_in_category_band rules contest_params contact
      then unwrap_or (rules.qso_points >>= λ q. score_qso_points fl q contact) (pos 0)
      else pos 0

  unfoldable pub contest_scoring_module : ScoringRules → Value → ScoringModule
  contest_scoring_module rules contest_params = record {
    has_multipliers = not (is_empty_list rules.multipliers);
    minimum_multiplier_count = rules.minimum_multiplier_count;
    has_capped_multipliers = any (λ multiplier. is_some multiplier.max_count) rules.multipliers;
    score_factor = score_factor_for rules contest_params;
    dupe_key_for = λ contact.
        if is_empty_list rules.dupe_key
        then none
        else some (dupe_scoring_key contact rules.dupe_key);
    qso_points_for = qso_points_of rules contest_params;
    multiplier_candidates_for = multiplier_candidates rules contest_params;
    bonus_keys_for = λ contact. pick (bonus_key contact) rules.bonus_points;
    qso_count_bonus_keys_for = λ contact.
        pick (count_bonus_key contact)
          (select (is_selected contest_params) rules.qso_count_bonus_points);
    multiplier_count_bonus_points = λ multiplier_keys.
        sum_i64 (pos 0)
          (map (multiplier_count_bonus multiplier_keys) rules.multiplier_count_bonus_points);
    qso_count_bonus_points =
        λ counts. sum_i64 (pos 0) (map (qso_count_bonus counts) rules.qso_count_bonus_points);
  }
