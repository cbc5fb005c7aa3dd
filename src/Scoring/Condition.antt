-- ===== src/Scoring/Condition.antt =====
-- Which rules apply to a contact: `condition_matches` and `multiplier_matches` of
-- backend/src/scoring.rs.
use log.Base.{
  Bool, true, false, not, ◌&&◌, ◌||◌, Option, none, some, List, [], ◌∷◌, if◌then◌else◌, or_else,
  unwrap_or, any, all,
}
use log.Base.Text.{Text, text, text_eq, trim, to_upper, eq_ignore_case, ends_with}
use log.Contact.{Contact, contact_meta_value, json_string}
use log.ContestRules.{ScoringCondition, MultiplierRule}
use log.Scoring.FieldValue.{field_value, adif_text}

abbrev pub is_empty_list {ℓ} : {A : Type ℓ} → List A → Bool
is_empty_list [] = true
is_empty_list (x ∷ xs) = false

-- The value of the condition's field agrees with the value of another field, which is there.
abbrev agrees : Contact → Text → Option Text → Bool
agrees contact value none = true
agrees contact value (some other) = elim (field_value contact other) [
  | none ↦ false
  | some other_value ↦ eq_ignore_case value other_value
]

-- The value differs from the value of another field, which is there.
abbrev differs : Contact → Text → Option Text → Bool
differs contact value none = true
differs contact value (some other) = elim (field_value contact other) [
  | none ↦ false
  | some other_value ↦ not (eq_ignore_case value other_value)
]

abbrev has_upper : List Text → Text → Bool
has_upper values value = any (λ v. text_eq (to_upper v) value) values

abbrev has_suffix : List Text → Text → Bool
has_suffix suffixes value = any (λ suffix. ends_with value (to_upper (trim suffix))) suffixes

abbrev suffix_text : Text → Option Text → Text
suffix_text value none = value
suffix_text value (some s) = to_upper (trim s)

unfoldable pub value_matches : ScoringCondition → Contact → Text → Bool
value_matches condition contact value =
    let suffix_value = suffix_text value (
      or_else (adif_text contact condition.field)
        (json_string (contact_meta_value contact condition.field))) in
    (is_empty_list condition.values || has_upper condition.values value)
    && not (has_upper condition.exclude_values value)
    && (is_empty_list condition.suffixes || has_suffix condition.suffixes suffix_value)
    && not (has_suffix condition.exclude_suffixes suffix_value)

unfoldable pub condition_matches : ScoringCondition → Contact → Bool
unfolding value_matches
condition_matches condition contact = elim (field_value contact condition.field) [
  | none ↦ false
  | some value ↦
      agrees contact value condition.matches_field
      && differs contact value condition.not_matches_field
      && value_matches condition contact value
]

abbrev pub holds : Contact → Option ScoringCondition → Bool
holds contact none = true
holds contact (some condition) = condition_matches condition contact

abbrev pub all_hold : Contact → List ScoringCondition → Bool
all_hold contact = all (λ condition. condition_matches condition contact)

abbrev has_value : List Text → Text → Bool
has_value values value = any (λ v. eq_ignore_case v value) values

unfoldable pub multiplier_matches : MultiplierRule → Contact → Bool
multiplier_matches multiplier contact =
    let call = to_upper (trim (unwrap_or (adif_text contact (text "CALL")) [])) in
    if has_suffix multiplier.exclude_call_suffixes call
    then false
    else if not (holds contact multiplier.when)
    then false
    else if not (all_hold contact multiplier.when_all)
    then false
    else elim (field_value contact multiplier.field) [
      | none ↦ false
      | some value ↦
          if has_value multiplier.exclude_values value
          then false
          else is_empty_list multiplier.values || has_value multiplier.values value
    ]
