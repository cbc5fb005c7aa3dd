-- ===== src/Examples/Scoring.antt =====
-- A small contest, and the scoring theorems on a log of it.
use log.Base.{true, select, length, ℕ, ◌≡◌, ◌≤◌, refl, none, some, List, [], ◌∷◌, map}
use log.Base.Int.{wrap_at, half_i64, pos, sum_i64}
use log.Base.Text.{Text, text, text_eq}
use log.Contact.{
  Contact, null, number, int, string, nil, field, build_contact, contact_id, contact_meta_value,
  contact_meta, get, put, json_i64_value,
}
use log.ContestRules.{ScoringRules, QsoPoints, MultiplierRule}
use log.GridDistance.{Floats}
use log.Scoring.Module.{ScoringModule, contest_scoring_module}
use log.Scoring.Scorer.{fresh_scorer, add_qso, add_qsos, score_contacts}
use log.Scoring.Scorer.Totals.{add_qso_dupe, came_before, count_of}
use log.Scoring.Contest.{contest_totals, contest_caps}
use log.Scoring.Scorer.Caps.{Distinct}
use log.Scoring.Incremental.{reset}
use log.Scoring.Incremental.Removal.{is_dupe_contact, scored_i64}
use log.Scoring.Agreement.{reset-score_contacts, HasIds}

-- A type of one float is enough where no rule goes by distance.
abbrev one_float : Floats
one_float = record {
  F = Unit {0};
  ratio = λ z d. tt;
  of_ℤ = λ z. tt;
  add = λ a b. tt;
  sub = λ a b. tt;
  mul = λ a b. tt;
  div = λ a b. tt;
  powi = λ a n. tt;
  clamp = λ a b c. tt;
  to_radians = λ a. tt;
  sin = λ a. tt;
  cos = λ a. tt;
  sqrt = λ a. tt;
  asin = λ a. tt;
  ceil_i64 = λ a. pos 0;
}

abbrev two_points : QsoPoints
two_points = record {
  points = some (pos 2);
  rules = [];
  time_bonus_points = [];
  geography = none;
  grid_distance = none;
  category_band_param = none;
}

abbrev zones : MultiplierRule
zones = record {
  id = text "zone";
  name = text "Zone";
  field = text "CQZ";
  key = text "CQZ" ∷ [];
  values = [];
  when = none;
  when_all = [];
  exclude_call_suffixes = [];
  exclude_values = [];
  fixed_key = none;
  max_count = some 1;
  cap_group = none;
}

abbrev small_contest : ScoringRules
small_contest = record {
  qso_points = some two_points;
  minimum_multiplier_count = pos 0;
  dupe_key = text "CALL" ∷ text "BAND" ∷ [];
  multipliers = zones ∷ [];
  bonus_points = [];
  param_multipliers = [];
  multiplier_count_bonus_points = [];
  qso_count_bonus_points = [];
}

abbrev small_module : ScoringModule
unfolding contest_scoring_module
small_module = contest_scoring_module one_float small_contest null

abbrev qso : ℕ → Text → Text → Contact
unfolding build_contact
qso id call zone = build_contact (field (text "id") (number (int (pos id))) nil) (
    field (text "call") (string call)
      (field (text "Band") (string (text "20m")) (field (text "CQZ") (string zone) nil)))

abbrev worked : List Contact
worked =
    qso 1 (text "K1ABC") (text "5")
    ∷ qso 2 (text "DL/K1ABC") (text "5")
    ∷ qso 3 (text "W2XYZ") (text "4")
    ∷ []

worked_ids : HasIds small_module worked
unfolding contact_id contact_meta_value contact_meta get put text_eq json_i64_value qso
worked_ids = (refl, (refl, (refl, tt)))

reset-score_contacts_example :
    ((reset small_module worked).0.totals, (reset small_module worked).1)
    ≡ score_contacts small_module worked
reset-score_contacts_example = reset-score_contacts small_module worked worked_ids

-- The second contact has the base call of the first, on the same band.
add_qso_dupe_example :
    is_dupe_contact
      (add_qso small_module
        (add_qsos small_module fresh_scorer (qso 1 (text "K1ABC") (text "5") ∷ [])).0
        (qso 2 (text "DL/K1ABC") (text "5"))).1
    ≡ came_before small_module
        (small_module.dupe_key_for (qso 2 (text "DL/K1ABC") (text "5")))
        (qso 1 (text "K1ABC") (text "5") ∷ [])
add_qso_dupe_example =
    add_qso_dupe small_module (qso 1 (text "K1ABC") (text "5") ∷ [])
      (qso 2 (text "DL/K1ABC") (text "5"))

contest_totals_example :
    let r = add_qsos (contest_scoring_module one_float small_contest null) fresh_scorer worked in
    (r.0.totals.qso_count ≡ 3)
    × (r.0.totals.qso_points ≡ sum_i64 (pos 0) (map (λ c. scored_i64 c (text "pts")) r.1))
    × (r.0.direct_bonus_points ≡ sum_i64 (pos 0) (map (λ c. scored_i64 c (text "bonus")) r.1))
contest_totals_example = contest_totals one_float small_contest null worked

-- The zone rule is the only one, so that every key is of its group.
contest_caps_example :
    let s =
      (add_qsos (contest_scoring_module one_float small_contest null) fresh_scorer worked).0 in
    Distinct s.multiplier_keys
    × (length (select (λ k. true) s.multiplier_keys) ≤ 1)
    × (count_of (text "zone") s.multiplier_counts ≤ 1)
    × (s.raw_multiplier_count ≡ wrap_at half_i64 (pos (length s.multiplier_keys)))
contest_caps_example =
    contest_caps one_float small_contest null (λ k. true) (text "zone") 1 worked ((λ e. refl), tt)
      ((λ t e. refl), tt)
