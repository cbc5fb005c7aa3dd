-- ===== src/Scoring/Scorer/Sums.antt =====
-- The totals of the scorer of backend/src/scoring.rs against the annotations of its contacts.
use log.Base.{
  ◌+◌, ◌≡◌, refl, ◌∙◌, Bool, true, false, not, List, [], ◌∷◌, ◌++◌, map, arith, inl, inr,
  Bool-cases, if◌then◌else◌, length, ap,
}
use log.Base.Int.{ℤ, pos, negsuc, add_i64, sum_i64, IsI64, add_i64-IsI64}
use log.Base.Text.{Text, text, text_eq}
use log.Contact.{Contact, fits_i64}
use log.Contact.Meta.{contact_meta_value-set_contact_meta}
use log.Scoring.Module.{ScoringModule}
use log.Scoring.Incremental.Removal.{scored_i64}
use log.Scoring.Scorer.{
  ContestScorer, set_contact_score_fields, fresh_scorer, contains, take_bonuses, add_qso, add_qsos,
  add_new, add_dupe, is_dupe,
}

fits-IsI64 : (z : ℤ) → IsI64 z → fits_i64 z ≡ true
fits-IsI64 (pos n) h = ground arith
fits-IsI64 (negsuc n) h = ground arith

pts-set_fields :
    (c : Contact) (points mults bonus : ℤ) (d : Bool)
    → IsI64 points
    → scored_i64 (set_contact_score_fields c points mults bonus d) (text "pts") ≡ points
unfolding scored_i64 set_contact_score_fields text_eq
pts-set_fields c points mults bonus d h =
    simp contact_meta_value-set_contact_meta (rw (fits-IsI64 points h) refl)

bonus-set_fields :
    (c : Contact) (points mults bonus : ℤ) (d : Bool)
    → IsI64 bonus
    → scored_i64 (set_contact_score_fields c points mults bonus d) (text "bonus") ≡ bonus
unfolding scored_i64 set_contact_score_fields text_eq
bonus-set_fields c points mults bonus d h =
    simp contact_meta_value-set_contact_meta (rw (fits-IsI64 bonus h) refl)

take_bonuses-IsI64 :
    (bonuses : List (Text × ℤ)) (keys : List Text) (sum : ℤ)
    → IsI64 sum
    → IsI64 (take_bonuses bonuses keys sum).1
unfolding take_bonuses
take_bonuses-IsI64 [] keys sum h = h
take_bonuses-IsI64 ((k, p) ∷ bonuses) keys sum h =
    let fresh = not (contains keys k) in
    take_bonuses-IsI64 bonuses (if fresh then keys ++ k ∷ [] else keys)
      (if fresh then add_i64 sum p else sum) (chosen fresh)
  where
    chosen : (b : Bool) → IsI64 (if b then add_i64 sum p else sum)
    chosen true = add_i64-IsI64 sum p
    chosen false = h

module _ (module_ : ScoringModule)
    (points-IsI64 : (c : Contact) → IsI64 (module_.qso_points_for c)) where
  -- One contact moves the sums by what it is annotated with.
  abbrev Moves : ContestScorer → ContestScorer × Contact → Type 0
  Moves s r =
      (r.0.totals.qso_count ≡ s.totals.qso_count + 1)
      × (r.0.totals.qso_points ≡ add_i64 s.totals.qso_points (scored_i64 r.1 (text "pts")))
      × (r.0.direct_bonus_points ≡ add_i64 s.direct_bonus_points (scored_i64 r.1 (text "bonus")))

  add_qso-Moves : (s : ContestScorer) (c : Contact) → Moves s (add_qso module_ s c)
  unfolding add_qso add_new add_dupe
  add_qso-Moves s c = elim (Bool-cases (is_dupe module_ (module_.dupe_key_for c) s.dupe_keys).1) [
    | inl d ↦ rw d (
      refl,
      cc (pts-set_fields c (pos 0) (pos 0) (pos 0) true (omega arith)),
      cc (bonus-set_fields c (pos 0) (pos 0) (pos 0) true (omega arith)),
    )
    | inr n ↦ rw n (
      refl,
      cc (pts-set_fields c (module_.qso_points_for c) _ _ false (points-IsI64 c)),
      cc (
          bonus-set_fields c _ _ (take_bonuses (module_.bonus_keys_for c) s.bonus_keys (pos 0)).1
            false
            (take_bonuses-IsI64 (module_.bonus_keys_for c) s.bonus_keys (pos 0) (omega arith))),
    )
  ]

  add_qsos-Moves :
      (s : ContestScorer) (cs : List Contact)
      → let r = add_qsos module_ s cs in
        (r.0.totals.qso_count ≡ s.totals.qso_count + length cs)
        × (r.0.totals.qso_points
            ≡ sum_i64 s.totals.qso_points (map (λ c. scored_i64 c (text "pts")) r.1))
        × (r.0.direct_bonus_points
            ≡ sum_i64 s.direct_bonus_points (map (λ c. scored_i64 c (text "bonus")) r.1))
  unfolding add_qsos sum_i64
  add_qsos-Moves s [] = (omega arith, refl, refl)
  add_qsos-Moves s (c ∷ cs) =
      let step = add_qso-Moves s c in
      let ih = add_qsos-Moves (add_qso module_ s c).0 cs in
      (
        omega arith,
        ih.1
            ∙ ap
                (λ (z : ℤ). sum_i64 z (
                  map (λ c. scored_i64 c (text "pts"))
                    (add_qsos module_ (add_qso module_ s c).0 cs).1))
                step.1,
        ih.2
            ∙ ap
                (λ (z : ℤ). sum_i64 z (
                  map (λ c. scored_i64 c (text "bonus"))
                    (add_qsos module_ (add_qso module_ s c).0 cs).1))
                step.2,
      )

  -- The totals of a scored log: as many contacts as the log has, and the sums of the points and of
  -- the bonuses that the contacts are annotated with.
  pub add_qsos-totals :
      (cs : List Contact)
      → let r = add_qsos module_ fresh_scorer cs in
        (r.0.totals.qso_count ≡ length cs)
        × (r.0.totals.qso_points ≡ sum_i64 (pos 0) (map (λ c. scored_i64 c (text "pts")) r.1))
        × (r.0.direct_bonus_points ≡ sum_i64 (pos 0) (map (λ c. scored_i64 c (text "bonus")) r.1))
  add_qsos-totals cs = let m = add_qsos-Moves fresh_scorer cs in (omega arith, m.1, m.2)
