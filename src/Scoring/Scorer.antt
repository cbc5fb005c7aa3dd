-- ===== src/Scoring/Scorer.antt =====
-- `ContestScorer` of backend/src/scoring.rs: scoring a log from its first contact to its last.
-- Counts are `usize` and bounded by the contacts; sums of points are `i64` with their wrap.
pub mod Totals
pub mod Sums
pub mod Caps
pub mod Credited
use log.Base.{
  ℕ, suc, ◌+◌, Bool, true, false, not, ◌&&◌, ◌||◌, Option, none, some, List, [], ◌∷◌, ◌++◌, leb,
  ltb, if◌then◌else◌, unwrap_or, any,
}
use log.Base.Int.{ℤ, pos, leb_ℤ, add_i64, mul_i64, max_ℤ}
use log.Base.Text.{Text, text, text_eq}
use log.Base.Table.{Table, lookup, insert, text_eq_instance}
use log.Contact.{Contact, Value, bool, number, int, set_contact_meta}
use log.Scoring.Module.{ScoringModule, MultiplierCandidate}

pub record ScoreTotals : Type 0 where
  pub qso_count : ℕ
  pub qso_points : ℤ
  pub multipliers : ℤ
  pub bonus_points : ℤ
  pub score : ℤ

-- The sets of keys are lists in the order of insertion.
pub record ContestScorer : Type 0 where
  pub dupe_keys : Table Text ℕ
  pub raw_multiplier_count : ℤ
  pub multiplier_keys : List Text
  pub multiplier_counts : Table Text ℕ
  pub bonus_keys : List Text
  pub qso_count_bonus_counts : Table Text ℕ
  pub direct_bonus_points : ℤ
  pub totals : ScoreTotals

abbrev pub no_totals : ScoreTotals
no_totals = record {
  qso_count = 0;
  qso_points = pos 0;
  multipliers = pos 0;
  bonus_points = pos 0;
  score = pos 0;
}

-- `scorer()` and `reset()`.
abbrev pub fresh_scorer : ContestScorer
fresh_scorer = record {
  dupe_keys = [];
  raw_multiplier_count = pos 0;
  multiplier_keys = [];
  multiplier_counts = [];
  bonus_keys = [];
  qso_count_bonus_counts = [];
  direct_bonus_points = pos 0;
  totals = no_totals;
}

abbrev pub contains : List Text → Text → Bool
contains keys key = any (λ k. text_eq k key) keys

-- `*counts.entry(key).or_default() += 1`
unfoldable pub increment : Text → Table Text ℕ → Table Text ℕ
increment key counts = insert key (unwrap_or (lookup key counts) 0 + 1) counts

unfoldable pub increment_all : List Text → Table Text ℕ → Table Text ℕ
increment_all [] counts = counts
increment_all (key ∷ keys) counts = increment_all keys (increment key counts)

abbrev pub cap_key : MultiplierCandidate → Text
cap_key candidate = unwrap_or candidate.cap_group candidate.id

-- Whether the cap of a candidate's group is used up.
unfoldable pub is_capped : MultiplierCandidate → Table Text ℕ → Bool
is_capped candidate counts = elim candidate.max_count [
  | none ↦ false
  | some maximum ↦ leb maximum (unwrap_or (lookup (cap_key candidate) counts) 0)
]

-- The keys and the counts after the candidates, and how many of them were new.
unfoldable pub take_multipliers :
    List MultiplierCandidate → List Text → Table Text ℕ → ℕ → List Text × Table Text ℕ × ℕ
take_multipliers [] keys counts n = (keys, counts, n)
take_multipliers (candidate ∷ candidates) keys counts n =
    let fresh = not (contains keys candidate.key || is_capped candidate counts) in
    take_multipliers candidates (if fresh then keys ++ candidate.key ∷ [] else keys)
      (if fresh then increment (cap_key candidate) counts else counts) (if fresh then n + 1 else n)

unfoldable pub take_bonuses : List (Text × ℤ) → List Text → ℤ → List Text × ℤ
take_bonuses [] keys sum = (keys, sum)
take_bonuses ((key, points) ∷ bonuses) keys sum =
    let fresh = not (contains keys key) in
    take_bonuses bonuses (if fresh then keys ++ key ∷ [] else keys)
      (if fresh then add_i64 sum points else sum)

-- The four annotations of a scored contact.
unfoldable pub set_contact_score_fields : Contact → ℤ → ℤ → ℤ → Bool → Contact
set_contact_score_fields contact points mults bonus is_dupe =
    set_contact_meta
      (set_contact_meta
        (set_contact_meta (set_contact_meta contact (text "pts") (number (int points)))
          (text "mult") (number (int mults)))
        (text "bonus") (number (int bonus)))
      (text "dupe") (bool is_dupe)

module _ (module_ : ScoringModule) where
  abbrev multiplier_factor : ℤ → ℤ
  multiplier_factor raw =
      if module_.has_multipliers then max_ℤ raw module_.minimum_multiplier_count else pos 1

  -- `recalculate_score`, from what the two scorers keep.
  unfoldable pub recalculate : ScoreTotals → ℤ → ℤ → List Text → Table Text ℕ → ScoreTotals
  recalculate totals raw direct multiplier_keys qso_counts =
      let bonus =
        add_i64 (add_i64 direct (module_.multiplier_count_bonus_points multiplier_keys))
          (module_.qso_count_bonus_points qso_counts) in
      record totals {
        multipliers = if module_.has_multipliers then multiplier_factor raw else pos 0;
        bonus_points = bonus;
        score =
            add_i64
              (mul_i64 (mul_i64 totals.qso_points (multiplier_factor raw)) module_.score_factor)
              bonus;
      }

  unfoldable pub recalculate_score : ContestScorer → ContestScorer
  unfolding recalculate
  recalculate_score s = record s {
    totals =
        recalculate s.totals s.raw_multiplier_count s.direct_bonus_points s.multiplier_keys
          s.qso_count_bonus_counts;
  }

  -- The table after a contact, and whether it is a duplicate.
  unfoldable pub is_dupe : Option Text → Table Text ℕ → Table Text ℕ × Bool
  unfolding increment
  is_dupe none dupe_keys = (dupe_keys, false)
  is_dupe (some key) dupe_keys =
      (increment key dupe_keys, ltb 0 (unwrap_or (lookup key dupe_keys) 0))

  -- `add_qso` on a contact that is no duplicate: its points, multipliers and bonus.
  unfoldable pub add_new : ContestScorer → Contact → ContestScorer × Contact
  unfolding take_multipliers take_bonuses increment_all recalculate_score
  add_new s contact =
      let points = module_.qso_points_for contact in
      let mults =
        take_multipliers (module_.multiplier_candidates_for contact) s.multiplier_keys
          s.multiplier_counts 0 in
      let bonus = take_bonuses (module_.bonus_keys_for contact) s.bonus_keys (pos 0) in
      (
        recalculate_score (record s {
          multiplier_keys = mults.0;
          multiplier_counts = mults.1;
          bonus_keys = bonus.0;
          totals = record s.totals { qso_points = add_i64 s.totals.qso_points points };
          raw_multiplier_count = add_i64 s.raw_multiplier_count (pos mults.2);
          direct_bonus_points = add_i64 s.direct_bonus_points bonus.1;
          qso_count_bonus_counts =
              if leb_ℤ points (pos 0)
              then s.qso_count_bonus_counts
              else increment_all (module_.qso_count_bonus_keys_for contact)
                  s.qso_count_bonus_counts;
        }),
        set_contact_score_fields contact points (pos mults.2) bonus.1 false,
      )

  -- A duplicate adds zero to each sum.
  unfoldable pub add_dupe : ContestScorer → Contact → ContestScorer × Contact
  unfolding recalculate_score
  add_dupe s contact = (
    recalculate_score (record s {
      totals = record s.totals { qso_points = add_i64 s.totals.qso_points (pos 0) };
      raw_multiplier_count = add_i64 s.raw_multiplier_count (pos 0);
      direct_bonus_points = add_i64 s.direct_bonus_points (pos 0);
    }),
    set_contact_score_fields contact (pos 0) (pos 0) (pos 0) true,
  )

  unfoldable pub add_qso : ContestScorer → Contact → ContestScorer × Contact
  add_qso s contact =
      let dupe = is_dupe (module_.dupe_key_for contact) s.dupe_keys in
      let counted = record s {
        dupe_keys = dupe.0;
        totals = record s.totals { qso_count = s.totals.qso_count + 1 };
      } in
      if dupe.1 then add_dupe counted contact else add_new counted contact

  -- The loop of `score_contacts`: the scorer and the annotated contacts.
  unfoldable pub add_qsos : ContestScorer → List Contact → ContestScorer × List Contact
  add_qsos s [] = (s, [])
  add_qsos s (contact ∷ contacts) =
      let first = add_qso s contact in
      let rest = add_qsos first.0 contacts in (rest.0, first.1 ∷ rest.1)

  unfoldable pub score_contacts : List Contact → ScoreTotals × List Contact
  score_contacts contacts =
      let result = add_qsos fresh_scorer contacts in (result.0.totals, result.1)
