-- ===== src/Scoring/Scorer/Totals.antt =====
-- What the scorer of backend/src/scoring.rs computes for a log: its totals, its duplicates and the
-- caps of its multipliers.
use log.Base.{
  ℕ, ◌+◌, ◌≡◌, refl, ◌∙◌, Bool, true, false, Option, none, some, List, [], ◌∷◌, arith, inl, inr,
  Bool-cases, Option-cases, if◌then◌else◌, any, unwrap_or, ltb,
}
use log.Base.Int.{ℤ}
use log.Base.Text.{Text, text_eq, text_eq_iff}
use log.Base.Table.{Table, lookup, lookup-insert, option_beq, text_eq_instance}
use log.Contact.{Contact}
use log.Contact.Meta.{contact_meta_value-set_contact_meta}
use log.Scoring.Incremental.Removal.{is_dupe_contact}
use log.Scoring.Module.{ScoringModule}
use log.Scoring.Scorer.{
  ContestScorer, set_contact_score_fields, fresh_scorer, add_qso, add_qsos, add_new, add_dupe,
  is_dupe, increment,
}

-- What a scored contact says of itself.
is_dupe-set_fields :
    (c : Contact) (points mults bonus : ℤ) (d : Bool)
    → is_dupe_contact (set_contact_score_fields c points mults bonus d) ≡ d
unfolding is_dupe_contact set_contact_score_fields text_eq
is_dupe-set_fields c points mults bonus d = rw contact_meta_value-set_contact_meta refl

abbrev pub count_of : Text → Table Text ℕ → ℕ
count_of key counts = unwrap_or (lookup key counts) 0

pub count-increment :
    (k j : Text) (counts : Table Text ℕ)
    → count_of j (increment k counts) ≡ count_of j counts + (if text_eq k j then 1 else 0)
unfolding increment
count-increment k j counts =
    rw (lookup-insert k j (count_of k counts + 1) counts) (ground (arith, text_eq_iff k j))

module _ (module_ : ScoringModule) where
  -- How many contacts of a list have a dupe key.
  abbrev pub occurrences : Text → List Contact → ℕ
  occurrences key [] = 0
  occurrences key (c ∷ cs) =
      (if option_beq (module_.dupe_key_for c) (some key) then 1 else 0) + occurrences key cs

  add_qso-dupe_keys :
      (s : ContestScorer) (c : Contact)
      → (add_qso module_ s c).0.dupe_keys ≡ (is_dupe module_ (module_.dupe_key_for c) s.dupe_keys).0
  unfolding add_qso add_new add_dupe
  add_qso-dupe_keys s c = ground arith

  count-add_qso :
      (key : Text) (s : ContestScorer) (c : Contact)
      → count_of key (add_qso module_ s c).0.dupe_keys
        ≡ count_of key s.dupe_keys
          + (if option_beq (module_.dupe_key_for c) (some key) then 1 else 0)
  count-add_qso key s c = rw (add_qso-dupe_keys s c) (elim (Option-cases (module_.dupe_key_for c)) [
    | inl e ↦ rw e (unfold is_dupe in omega arith)
    | inr (k, e) ↦ rw e (unfold is_dupe in count-increment k key s.dupe_keys)
  ])

  count-add_qsos :
      (key : Text) (s : ContestScorer) (cs : List Contact)
      → count_of key (add_qsos module_ s cs).0.dupe_keys
        ≡ count_of key s.dupe_keys + occurrences key cs
  unfolding add_qsos
  count-add_qsos key s [] = omega arith
  count-add_qsos key s (c ∷ cs) =
      omega (arith, count-add_qso key s c, count-add_qsos key (add_qso module_ s c).0 cs)

  -- Whether a contact with this dupe key came before.
  abbrev pub came_before : Option Text → List Contact → Bool
  came_before none cs = false
  came_before (some key) cs = any (λ c. option_beq (module_.dupe_key_for c) (some key)) cs

  came_before-occurrences :
      (key : Text) (cs : List Contact) → ltb 0 (occurrences key cs) ≡ came_before (some key) cs
  came_before-occurrences key [] = ground arith
  came_before-occurrences key (c ∷ cs) = ground (arith, came_before-occurrences key cs)

  flag_lem :
      (key : Option Text) (before : List Contact)
      → (is_dupe module_ key (add_qsos module_ fresh_scorer before).0.dupe_keys).1
        ≡ came_before key before
  unfolding is_dupe
  flag_lem none before = refl
  flag_lem (some key) before =
      rw (count-add_qsos key fresh_scorer before)
        (unfold lookup in ground (arith, came_before-occurrences key before))

  annotated :
      (s : ContestScorer) (c : Contact)
      → is_dupe_contact (add_qso module_ s c).1
        ≡ (is_dupe module_ (module_.dupe_key_for c) s.dupe_keys).1
  unfolding add_qso add_new add_dupe
  annotated s c = elim (Bool-cases (is_dupe module_ (module_.dupe_key_for c) s.dupe_keys).1) [
    | inl d ↦ rw d (is_dupe-set_fields c _ _ _ true)
    | inr d ↦ rw d (is_dupe-set_fields c _ _ _ false)
  ]

  -- A contact is annotated as a duplicate exactly if an earlier contact of the log has its dupe
  -- key; without a dupe key it is none.
  pub add_qso_dupe :
      (before : List Contact) (c : Contact)
      → is_dupe_contact (add_qso module_ (add_qsos module_ fresh_scorer before).0 c).1
        ≡ came_before (module_.dupe_key_for c) before
  add_qso_dupe before c =
      annotated (add_qsos module_ fresh_scorer before).0 c
      ∙ flag_lem (module_.dupe_key_for c) before
