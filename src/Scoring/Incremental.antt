-- ===== src/Scoring/Incremental.antt =====
-- `IncrementalLogState` of backend/src/scoring.rs: the score of a log kept up to date while
-- contacts are added, changed and deleted. The contacts are those of the log's cache.
pub mod Removal
pub mod Tracker
use log.Base.{
  ℕ, ◌+◌, Bool, true, false, not, ◌||◌, Option, none, some, List, [], ◌∷◌, if◌then◌else◌,
}
use log.Base.Int.{ℤ, pos, leb_ℤ, add_i64}
use log.Base.Text.{Text}
use log.Base.Table.{Table, insert, contains_key, keys, text_eq_instance}
use log.Contact.{Contact, contact_id}
use log.Scoring.Module.{ScoringModule, MultiplierCandidate}
use log.Scoring.Scorer.{
  ScoreTotals, no_totals, increment, increment_all, is_capped, cap_key, recalculate, is_dupe,
  set_contact_score_fields,
}

pub record IncrementalLogState : Type 0 where
  pub totals : ScoreTotals
  pub raw_multiplier_count : ℤ
  pub direct_bonus_points : ℤ
  pub dupe_counts : Table Text ℕ
  pub dupe_owners : Table Text ℤ
  pub multiplier_owners : Table Text ℤ
  pub multiplier_counts : Table Text ℕ
  pub bonus_owners : Table Text ℤ
  pub qso_count_bonus_counts : Table Text ℕ

abbrev pub fresh_state : IncrementalLogState
fresh_state = record {
  totals = no_totals;
  raw_multiplier_count = pos 0;
  direct_bonus_points = pos 0;
  dupe_counts = [];
  dupe_owners = [];
  multiplier_owners = [];
  multiplier_counts = [];
  bonus_owners = [];
  qso_count_bonus_counts = [];
}

-- The owners and the counts after the candidates, and how many were new; a contact without an id
-- owns nothing.
unfoldable pub own_multipliers :
    Option ℤ
    → List MultiplierCandidate
    → Table Text ℤ
    → Table Text ℕ
    → ℕ
    → Table Text ℤ × Table Text ℕ × ℕ
own_multipliers none candidates owners counts n = (owners, counts, n)
own_multipliers (some id) [] owners counts n = (owners, counts, n)
own_multipliers (some id) (candidate ∷ candidates) owners counts n =
    let fresh = not (contains_key candidate.key owners || is_capped candidate counts) in
    own_multipliers (some id) candidates (if fresh then insert candidate.key id owners else owners)
      (if fresh then increment (cap_key candidate) counts else counts) (if fresh then n + 1 else n)

unfoldable pub own_bonuses : Option ℤ → List (Text × ℤ) → Table Text ℤ → ℤ → Table Text ℤ × ℤ
own_bonuses none bonuses owners sum = (owners, sum)
own_bonuses (some id) [] owners sum = (owners, sum)
own_bonuses (some id) ((key, points) ∷ bonuses) owners sum =
    let fresh = not (contains_key key owners) in
    own_bonuses (some id) bonuses (if fresh then insert key id owners else owners)
      (if fresh then add_i64 sum points else sum)

-- `dupe_owners.entry(key).or_insert(id)` by the first contact of a key that has an id.
unfoldable pub own_dupe : Option Text → Bool → Option ℤ → Table Text ℤ → Table Text ℤ
own_dupe (some key) false (some id) owners =
    if contains_key key owners then owners else insert key id owners
own_dupe _ _ _ owners = owners

module _ (module_ : ScoringModule) where
  unfoldable pub recalculate_score : IncrementalLogState → IncrementalLogState
  recalculate_score t = record t {
    totals =
        recalculate module_ t.totals t.raw_multiplier_count t.direct_bonus_points
          (keys t.multiplier_owners) t.qso_count_bonus_counts;
  }

  -- `score_non_dupe_contact` with what its two callers do next: the sums, the count bonuses and
  -- the annotations.
  unfoldable pub score_new : IncrementalLogState → Contact → IncrementalLogState × Contact
  unfolding own_multipliers own_bonuses
  score_new t contact =
      let id = contact_id contact in
      let points = module_.qso_points_for contact in
      let mults =
        own_multipliers id (module_.multiplier_candidates_for contact) t.multiplier_owners
          t.multiplier_counts 0 in
      let bonus = own_bonuses id (module_.bonus_keys_for contact) t.bonus_owners (pos 0) in
      (
        record t {
          multiplier_owners = mults.0;
          multiplier_counts = mults.1;
          bonus_owners = bonus.0;
          totals = record t.totals { qso_points = add_i64 t.totals.qso_points points };
          raw_multiplier_count = add_i64 t.raw_multiplier_count (pos mults.2);
          direct_bonus_points = add_i64 t.direct_bonus_points bonus.1;
          qso_count_bonus_counts =
              if leb_ℤ points (pos 0)
              then t.qso_count_bonus_counts
              else increment_all (module_.qso_count_bonus_keys_for contact)
                  t.qso_count_bonus_counts;
        },
        set_contact_score_fields contact points (pos mults.2) bonus.1 false,
      )

  unfoldable pub add_contact : IncrementalLogState → Contact → IncrementalLogState × Contact
  add_contact t contact =
      let key = module_.dupe_key_for contact in
      let dupe = is_dupe module_ key t.dupe_counts in
      let counted = record t {
        dupe_counts = dupe.0;
        dupe_owners = own_dupe key dupe.1 (contact_id contact) t.dupe_owners;
        totals = record t.totals { qso_count = t.totals.qso_count + 1 };
      } in
      let scored = score_new counted contact in
      if dupe.1
      then (
        recalculate_score counted,
        set_contact_score_fields contact (pos 0) (pos 0) (pos 0) true,
      )
      else (recalculate_score scored.0, scored.1)

  unfoldable pub add_contacts :
      IncrementalLogState → List Contact → IncrementalLogState × List Contact
  add_contacts t [] = (t, [])
  add_contacts t (contact ∷ contacts) =
      let first = add_contact t contact in
      let rest = add_contacts first.0 contacts in (rest.0, first.1 ∷ rest.1)

  -- Everything is scored anew.
  unfoldable pub reset : List Contact → IncrementalLogState × List Contact
  reset contacts = add_contacts fresh_state contacts
