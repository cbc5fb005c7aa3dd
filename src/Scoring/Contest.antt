-- ===== src/Scoring/Contest.antt =====
-- The scorer of backend/src/scoring.rs on the module that a contest's rules make.
use log.Base.{
  ℕ, ◌≡◌, ◌≤◌, Bool, true, false, Option, none, some, List, [], ◌∷◌, ◌++◌, map, arith, inl, inr,
  Bool-cases, if◌then◌else◌, ◌>>=◌, unwrap_or, select, length,
}
use log.Base.Int.{ℤ, pos, wrap_at, half_i64, IsI64, add_i64, add_i64-IsI64, sum_i64}
use log.Base.Text.{Text, text, to_upper}
use log.Contact.{Contact, Value}
use log.ContestRules.{ScoringRules, QsoPoints, MultiplierRule}
use log.GridDistance.{Floats}
use log.Scoring.Condition.{multiplier_matches}
use log.Scoring.Points.{score_qso_points, base_points, time_bonus_points}
use log.Scoring.Module.{
  contest_scoring_module, qso_points_of, multiplier_candidates, candidate_for, scoring_key,
  contact_in_category_band,
}
use log.Scoring.Scorer.{fresh_scorer, add_qsos}
use log.Scoring.Scorer.Totals.{count_of}
use log.Scoring.Scorer.Sums.{add_qsos-totals}
use log.Scoring.Scorer.Caps.{multipliers-Capped, Distinct, Capped}
use log.Scoring.Scorer.Credited.{OwnGroup, multipliers-Credited}
use log.Scoring.Incremental.Removal.{scored_i64}

-- Every multiplier rule of the cap group has this maximum.
abbrev pub RulesCapped : Text → ℕ → List MultiplierRule → Type 0
RulesCapped group maximum [] = Unit {0}
RulesCapped group maximum (m ∷ ms) =
    (unwrap_or m.cap_group m.id ≡ group → m.max_count ≡ some maximum) × RulesCapped group maximum ms

selected-Capped :
    (group : Text) (maximum : ℕ) (c : Contact) (ms : List MultiplierRule)
    → RulesCapped group maximum ms
    → Capped group maximum (map (candidate_for c) (select (λ m. multiplier_matches m c) ms))
unfolding candidate_for
selected-Capped group maximum c [] h = tt
selected-Capped group maximum c (m ∷ ms) h = elim (Bool-cases (multiplier_matches m c)) [
  | inl p ↦ rw p (h.0, selected-Capped group maximum c ms h.1)
  | inr p ↦ rw p (selected-Capped group maximum c ms h.1)
]

candidates-Capped :
    (group : Text) (maximum : ℕ) (rules : ScoringRules) (params : Value) (c : Contact)
    → RulesCapped group maximum rules.multipliers
    → Capped group maximum (multiplier_candidates rules params c)
unfolding multiplier_candidates
candidates-Capped group maximum rules params c h =
    elim (Bool-cases (contact_in_category_band rules params c)) [
      | inl p ↦ rw p (selected-Capped group maximum c rules.multipliers h)
      | inr p ↦ rw p tt
    ]

-- Every multiplier rule with a name that can make such a key is of the cap group.
abbrev pub RulesOwn : (Text → Bool) → Text → List MultiplierRule → Type 0
RulesOwn own group [] = Unit {0}
RulesOwn own group (m ∷ ms) =
    ((t : Text)
      → own (to_upper m.name ++ (text ":" ++ t)) ≡ true
      → unwrap_or m.cap_group m.id ≡ group)
    × RulesOwn own group ms

selected-OwnGroup :
    (own : Text → Bool) (group : Text) (c : Contact) (ms : List MultiplierRule)
    → RulesOwn own group ms
    → OwnGroup own group (map (candidate_for c) (select (λ m. multiplier_matches m c) ms))
unfolding candidate_for
selected-OwnGroup own group c [] h = tt
selected-OwnGroup own group c (m ∷ ms) h = elim (Bool-cases (multiplier_matches m c)) [
  | inl p ↦
      rw p (h.0 (unwrap_or m.fixed_key (scoring_key c m.key)), selected-OwnGroup own group c ms h.1)
  | inr p ↦ rw p (selected-OwnGroup own group c ms h.1)
]

candidates-OwnGroup :
    (own : Text → Bool) (group : Text) (rules : ScoringRules) (params : Value) (c : Contact)
    → RulesOwn own group rules.multipliers
    → OwnGroup own group (multiplier_candidates rules params c)
unfolding multiplier_candidates
candidates-OwnGroup own group rules params c h =
    elim (Bool-cases (contact_in_category_band rules params c)) [
      | inl p ↦ rw p (selected-OwnGroup own group c rules.multipliers h)
      | inr p ↦ rw p tt
    ]

added-IsI64 : (o : Option ℤ) (t : ℤ) → IsI64 (unwrap_or (o >>= λ p. some (add_i64 p t)) (pos 0))
added-IsI64 none t = omega arith
added-IsI64 (some p) t = add_i64-IsI64 p t

chosen-IsI64 : (b : Bool) (z : ℤ) → IsI64 z → IsI64 (if b then z else pos 0)
chosen-IsI64 true z h = h
chosen-IsI64 false z h = omega arith

module _ (fl : Floats) where
  points-IsI64 :
      (o : Option QsoPoints) (c : Contact)
      → IsI64 (unwrap_or (o >>= λ q. score_qso_points fl q c) (pos 0))
  unfolding score_qso_points
  points-IsI64 none c = omega arith
  points-IsI64 (some q) c = added-IsI64 (base_points fl q c) (time_bonus_points q c)

  pub qso_points_of-IsI64 :
      (rules : ScoringRules) (params : Value) (c : Contact)
      → IsI64 (qso_points_of fl rules params c)
  unfolding qso_points_of
  qso_points_of-IsI64 rules params c =
      chosen-IsI64 (contact_in_category_band rules params c) _ (points-IsI64 rules.qso_points c)

  -- For the rules of any contest, a scored log counts every contact, and its points and direct
  -- bonus points are the sums of what the contacts are annotated with.
  pub contest_totals :
      (rules : ScoringRules) (params : Value) (cs : List Contact)
      → let r = add_qsos (contest_scoring_module fl rules params) fresh_scorer cs in
        (r.0.totals.qso_count ≡ length cs)
        × (r.0.totals.qso_points ≡ sum_i64 (pos 0) (map (λ c. scored_i64 c (text "pts")) r.1))
        × (r.0.direct_bonus_points ≡ sum_i64 (pos 0) (map (λ c. scored_i64 c (text "bonus")) r.1))
  contest_totals rules params cs =
      add_qsos-totals (contest_scoring_module fl rules params)
        (unfold contest_scoring_module in qso_points_of-IsI64 rules params) cs

  -- If the multiplier rules of a cap group agree on their maximum, then of the keys that a log is
  -- credited with, at most that many pass any test that only keys of the group's rules pass, and the
  -- group's count is no more than the maximum. No key is credited twice, and the raw count of
  -- multipliers is the number of the credited keys, as an i64.
  pub contest_caps :
      (rules : ScoringRules) (params : Value) (own : Text → Bool) (group : Text) (maximum : ℕ)
      (cs : List Contact)
      → RulesCapped group maximum rules.multipliers
      → RulesOwn own group rules.multipliers
      → let s = (add_qsos (contest_scoring_module fl rules params) fresh_scorer cs).0 in
        Distinct s.multiplier_keys
        × (length (select own s.multiplier_keys) ≤ maximum)
        × (count_of group s.multiplier_counts ≤ maximum)
        × (s.raw_multiplier_count ≡ wrap_at half_i64 (pos (length s.multiplier_keys)))
  contest_caps rules params own group maximum cs h o =
      let module_ = contest_scoring_module fl rules params in
      let capped =
        multipliers-Capped module_ group maximum
          (unfold contest_scoring_module in λ c. candidates-Capped group maximum rules params c h)
          cs in
      let credited =
        multipliers-Credited module_ own group
          (unfold contest_scoring_module in λ c. candidates-OwnGroup own group rules params c o)
          cs in
      (capped.0, omega (arith, capped.1, credited.0), capped.1, credited.1)
