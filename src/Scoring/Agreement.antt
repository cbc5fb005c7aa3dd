-- ===== src/Scoring/Agreement.antt =====
-- The incremental score against the score of a whole log (backend/src/scoring.rs): the state of
-- the tracker, seen as a scorer, beside `ContestScorer`.
use log.Base.{
  ℕ, ◌+◌, ◌≡◌, refl, Bool, true, false, some, List, [], ◌∷◌, ◌++◌, arith, inl, inr, Bool-cases,
  Option-cases, if◌then◌else◌, is_some,
}
use log.Base.Int.{ℤ, pos, add_i64, IsI64, add_i64-IsI64, add_i64-zero}
use log.Base.Text.{Text}
use log.Base.Table.{Table, insert, contains_key, lookup, keys, text_eq_instance}
use log.Contact.{Contact, contact_id}
use log.Scoring.Module.{ScoringModule, MultiplierCandidate}
use log.Scoring.Scorer.{
  ContestScorer, set_contact_score_fields, contains, take_multipliers, take_bonuses, add_qso,
  add_qsos, add_new, add_dupe, is_dupe, is_capped, increment, cap_key, recalculate,
  recalculate_score as recalculate_scorer, score_contacts,
}
use log.Scoring.Incremental.{
  IncrementalLogState, fresh_state, own_multipliers, own_bonuses, add_contact, add_contacts,
  score_new, own_dupe, recalculate_score, reset,
}

contains-keys : (k : Text) (m : Table Text ℤ) → contains (keys m) k ≡ contains_key k m
unfolding contains_key lookup
contains-keys k [] = refl
contains-keys k ((j, v) ∷ m) = ground (arith, contains-keys k m)

keys-insert :
    (k : Text) (v : ℤ) (m : Table Text ℤ)
    → contains_key k m ≡ false
    → keys (insert k v m) ≡ keys m ++ k ∷ []
unfolding insert contains_key lookup
keys-insert k v [] h = refl
keys-insert k v ((j, w) ∷ m) h = ground (arith, keys-insert k v m)

abbrev as_keys : Table Text ℤ × Table Text ℕ × ℕ → List Text × Table Text ℕ × ℕ
as_keys (owners, counts, n) = (keys owners, counts, n)

take-own :
    (id : ℤ) (candidates : List MultiplierCandidate) (owners : Table Text ℤ) (counts : Table Text ℕ)
    (n : ℕ)
    → take_multipliers candidates (keys owners) counts n
      ≡ as_keys (own_multipliers (some id) candidates owners counts n)
unfolding take_multipliers own_multipliers
take-own id [] owners counts n = refl
take-own id (c ∷ cs) owners counts n = elim (Bool-cases (contains_key c.key owners)) [
  | inl old ↦ rw (contains-keys c.key owners, old) (take-own id cs owners counts n)
  | inr new ↦ elim (Bool-cases (is_capped c counts)) [
    | inl full ↦ rw (contains-keys c.key owners, new, full) (take-own id cs owners counts n)
    | inr free ↦
        rw (contains-keys c.key owners, new, free, ← keys-insert c.key id owners new)
          (take-own id cs (insert c.key id owners) (increment (cap_key c) counts) (n + 1))
  ]
]

abbrev as_bonus_keys : Table Text ℤ × ℤ → List Text × ℤ
as_bonus_keys (owners, sum) = (keys owners, sum)

take-own_bonuses :
    (id : ℤ) (bonuses : List (Text × ℤ)) (owners : Table Text ℤ) (sum : ℤ)
    → take_bonuses bonuses (keys owners) sum
      ≡ as_bonus_keys (own_bonuses (some id) bonuses owners sum)
unfolding take_bonuses own_bonuses
take-own_bonuses id [] owners sum = refl
take-own_bonuses id ((k, points) ∷ bonuses) owners sum = elim (Bool-cases (contains_key k owners)) [
  | inl old ↦ rw (contains-keys k owners, old) (take-own_bonuses id bonuses owners sum)
  | inr new ↦
      rw (contains-keys k owners, new, ← keys-insert k id owners new)
        (take-own_bonuses id bonuses (insert k id owners) (add_i64 sum points))
]

-- The tracker's state, seen as a scorer: the owners of the keys are forgotten.
pub scorer_of : IncrementalLogState → ContestScorer
scorer_of t = record {
  dupe_keys = t.dupe_counts;
  raw_multiplier_count = t.raw_multiplier_count;
  multiplier_keys = keys t.multiplier_owners;
  multiplier_counts = t.multiplier_counts;
  bonus_keys = keys t.bonus_owners;
  qso_count_bonus_counts = t.qso_count_bonus_counts;
  direct_bonus_points = t.direct_bonus_points;
  totals = t.totals;
}

-- Two states that branch on one flag agree if they agree on both branches.
by_flag :
    (b : Bool) {x y : ContestScorer × Contact} (p q : IncrementalLogState × Contact)
    → x ≡ (scorer_of p.0, p.1)
    → y ≡ (scorer_of q.0, q.1)
    → (if b then x else y) ≡ (scorer_of (if b then p else q).0, (if b then p else q).1)
by_flag true p q e f = e
by_flag false p q e f = f

-- The sums of a state are `i64` values.
pub record IsInRange (t : IncrementalLogState) : Type 0 where
  pub points : IsI64 t.totals.qso_points
  pub raw : IsI64 t.raw_multiplier_count
  pub direct : IsI64 t.direct_bonus_points

module _ (module_ : ScoringModule) where
  score_new-IsInRange :
      (t : IncrementalLogState) (c : Contact)
      → IsInRange (recalculate_score module_ (score_new module_ t c).0)
  unfolding score_new recalculate_score recalculate
  score_new-IsInRange t c = record {
    points = add_i64-IsI64 _ _;
    raw = add_i64-IsI64 _ _;
    direct = add_i64-IsI64 _ _;
  }

  recalculate-scorer_of :
      (t : IncrementalLogState)
      → recalculate_scorer module_ (scorer_of t) ≡ scorer_of (recalculate_score module_ t)
  unfolding recalculate_scorer recalculate_score scorer_of
  recalculate-scorer_of t = refl

  add_new-score_new :
      (t : IncrementalLogState) (c : Contact) (id : ℤ)
      → contact_id c ≡ some id
      → add_new module_ (scorer_of t) c ≡ (
        scorer_of (recalculate_score module_ (score_new module_ t c).0),
        (score_new module_ t c).1,
      )
  unfolding add_new score_new scorer_of recalculate_scorer recalculate_score
  add_new-score_new t c id e =
      rw
        (
          e,
          take-own id (module_.multiplier_candidates_for c) t.multiplier_owners t.multiplier_counts
              0,
          take-own_bonuses id (module_.bonus_keys_for c) t.bonus_owners (pos 0),
        )
        refl

  -- A duplicate adds zero to sums that are `i64` values.
  add_dupe-recalculate :
      (t : IncrementalLogState) (c : Contact)
      → IsInRange t
      → add_dupe module_ (scorer_of t) c ≡ (
        scorer_of (recalculate_score module_ t),
        set_contact_score_fields c (pos 0) (pos 0) (pos 0) true,
      )
  unfolding add_dupe scorer_of recalculate_score
  add_dupe-recalculate t c r =
      rw
        (
          add_i64-zero t.totals.qso_points r.points,
          add_i64-zero t.raw_multiplier_count r.raw,
          add_i64-zero t.direct_bonus_points r.direct,
        )
        refl

  add_contact-IsInRange :
      (t : IncrementalLogState) (c : Contact) → IsInRange t → IsInRange (add_contact module_ t c).0
  unfolding add_contact
  add_contact-IsInRange t c r =
      elim (Bool-cases (is_dupe module_ (module_.dupe_key_for c) t.dupe_counts).1) [
        | inl d ↦ rw d (
            unfold recalculate_score recalculate in
            record { points = r.points; raw = r.raw; direct = r.direct })
        | inr n ↦ rw n (score_new-IsInRange _ c)
      ]

  -- The state with a contact counted, before its score.
  abbrev counted : IncrementalLogState → Contact → IncrementalLogState
  counted t c =
      let key = module_.dupe_key_for c in
      let dupe = is_dupe module_ key t.dupe_counts in
      record t {
        dupe_counts = dupe.0;
        dupe_owners = own_dupe key dupe.1 (contact_id c) t.dupe_owners;
        totals = record t.totals { qso_count = t.totals.qso_count + 1 };
      }

  -- One contact with an id: the tracker does what the scorer does, state and annotations.
  add_qso-add_contact :
      (t : IncrementalLogState) (c : Contact) (id : ℤ)
      → contact_id c ≡ some id
      → IsInRange t
      → add_qso module_ (scorer_of t) c
        ≡ (scorer_of (add_contact module_ t c).0, (add_contact module_ t c).1)
  unfolding add_qso add_contact scorer_of
  add_qso-add_contact t c id e r =
      by_flag (is_dupe module_ (module_.dupe_key_for c) t.dupe_counts).1
        (
          recalculate_score module_ (counted t c),
          set_contact_score_fields c (pos 0) (pos 0) (pos 0) true,
        )
        (
          recalculate_score module_ (score_new module_ (counted t c) c).0,
          (score_new module_ (counted t c) c).1,
        )
        (add_dupe-recalculate (counted t c) c
          (record { points = r.points; raw = r.raw; direct = r.direct }))
        (add_new-score_new (counted t c) c id e)

  abbrev pub HasIds : List Contact → Type 0
  HasIds [] = Unit {0}
  HasIds (c ∷ cs) = (is_some (contact_id c) ≡ true) × HasIds cs

  add_qsos-add_contacts :
      (t : IncrementalLogState) (cs : List Contact)
      → HasIds cs
      → IsInRange t
      → add_qsos module_ (scorer_of t) cs
        ≡ (scorer_of (add_contacts module_ t cs).0, (add_contacts module_ t cs).1)
  unfolding add_qsos add_contacts
  add_qsos-add_contacts t [] h r = refl
  add_qsos-add_contacts t (c ∷ cs) h r = elim (Option-cases (contact_id c)) [
    | inl e ↦ cc
    | inr (id, e) ↦
        rw
          (
            add_qso-add_contact t c id e r,
            add_qsos-add_contacts (add_contact module_ t c).0 cs h.1 (add_contact-IsInRange t c r),
          )
          refl
  ]

  fresh-IsInRange : IsInRange fresh_state
  fresh-IsInRange = record { points = omega arith; raw = omega arith; direct = omega arith }

  -- For contacts that all have ids, the tracker's reset gives the totals that scoring the whole
  -- log gives, and the same annotation of every contact.
  pub reset-score_contacts :
      (cs : List Contact)
      → HasIds cs
      → ((reset module_ cs).0.totals, (reset module_ cs).1) ≡ score_contacts module_ cs
  unfolding reset score_contacts scorer_of
  reset-score_contacts cs h = rw (add_qsos-add_contacts fresh_state cs h fresh-IsInRange) refl
