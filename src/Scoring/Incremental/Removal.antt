-- ===== src/Scoring/Incremental/Removal.antt =====
-- Deleting a contact from the incremental score (backend/src/scoring.rs): its sums go, a duplicate
-- takes its place, and what it owned goes to other contacts.
use log.Base.{
  ℕ, ◌+◌, ◌-◌, Bool, false, not, ◌&&◌, Option, none, some, List, [], ◌∷◌, ◌++◌, leb, if◌then◌else◌,
  ◌>>=◌, unwrap_or, any, select, position, get_elem?, set, find_first, is_some,
}
use log.Base.Int.{ℤ, pos, eq_ℤ, leb_ℤ, add_i64, sub_i64}
use log.Base.Text.{Text, text, text_eq}
use log.Base.Table.{
  Table, lookup, insert, remove, contains_key, keys, option_beq, text_eq_instance, int_eq,
}
use log.Contact.{
  Contact, as_i64, as_bool, number, int, contact_id, contact_meta_value, set_contact_meta,
}
use log.Scoring.Module.{ScoringModule}
use log.Scoring.Incremental.{IncrementalLogState, score_new, recalculate_score}

unfoldable pub scored_i64 : Contact → Text → ℤ
scored_i64 contact key = unwrap_or (contact_meta_value contact key >>= as_i64) (pos 0)

unfoldable pub is_dupe_contact : Contact → Bool
is_dupe_contact contact = unwrap_or (contact_meta_value contact (text "dupe") >>= as_bool) false

unfoldable pub increment_contact_score_field : Contact → Text → ℤ → Contact
increment_contact_score_field contact key delta =
    set_contact_meta contact key (number (int (add_i64 (scored_i64 contact key) delta)))

-- A count of one, or none, goes.
unfoldable pub decrement_count : Table Text ℕ → Text → Table Text ℕ
decrement_count counts key = elim (lookup key counts) [
  | none ↦ counts
  | some count ↦ if leb count 1 then remove key counts else insert key (count - 1) counts
]

unfoldable pub decrement_all : List Text → Table Text ℕ → Table Text ℕ
unfolding decrement_count
decrement_all [] counts = counts
decrement_all (key ∷ names) counts = decrement_all names (decrement_count counts key)

-- The keys that an id owns, and the owners without them.
unfoldable pub owned_keys : Table Text ℤ → ℤ → List Text
owned_keys owners id = keys (select (λ p. eq_ℤ p.1 id) owners)

unfoldable pub without_keys : List Text → Table Text ℤ → Table Text ℤ
without_keys [] owners = owners
without_keys (key ∷ names) owners = without_keys names (remove key owners)

abbrev pub is_id : ℤ → Contact → Bool
is_id id contact = elim (contact_id contact) [ none ↦ false | some other ↦ eq_ℤ other id ]

-- A contact that may take over: it has an id, and not the one to skip.
abbrev pub is_candidate : Option ℤ → Contact → Bool
is_candidate skip contact =
    is_some (contact_id contact) && not (option_beq skip (contact_id contact))

-- The state with the contacts of the log and the ids of those that changed.
pub record Work : Type 0 where
  pub state : IncrementalLogState
  pub contacts : List Contact
  pub changed : List ℤ

abbrev add_changed : Option ℤ → List ℤ → List ℤ
add_changed none changed = changed
add_changed (some id) changed = changed ++ id ∷ []

abbrev owned_by : Option ℤ → Table Text ℤ → List Text
owned_by none owners = []
owned_by (some id) owners = owned_keys owners id

module _ (module_ : ScoringModule) where
  abbrev has_dupe_key : Text → Contact → Bool
  has_dupe_key key contact = option_beq (module_.dupe_key_for contact) (some key)

  unfoldable pub find_dupe_replacement_index : List Contact → Text → Option ℤ → Option ℕ
  find_dupe_replacement_index contacts key skip =
      position (λ contact. is_candidate skip contact && has_dupe_key key contact) contacts

  unfoldable pub find_multiplier_replacement_index : List Contact → Text → Option ℤ → Option ℕ
  find_multiplier_replacement_index contacts key skip =
      position
        (λ contact.
          is_candidate skip contact
          && not (is_dupe_contact contact)
          && any (λ candidate. text_eq candidate.key key)
              (module_.multiplier_candidates_for contact))
        contacts

  -- The points that a contact has for a bonus key, if it may take the key over.
  unfoldable pub bonus_replacement : Text → Option ℤ → Contact → Option ℤ
  bonus_replacement key skip contact =
      if is_candidate skip contact && not (is_dupe_contact contact)
      then (find_first (λ p. text_eq p.0 key) (module_.bonus_keys_for contact) >>= λ p. some p.1)
      else none

  -- The first such contact, by its index, with the points.
  unfoldable pub find_bonus_replacement : ℕ → List Contact → Text → Option ℤ → Option (ℕ × ℤ)
  find_bonus_replacement index [] key skip = none
  find_bonus_replacement index (contact ∷ contacts) key skip =
      let later = find_bonus_replacement (index + 1) contacts key skip in
      elim (bonus_replacement key skip contact) [
        | none ↦ later
        | some points ↦ some (index, points)
      ]

  -- A duplicate whose original went is scored.
  unfoldable pub promote_contact : Option ℕ → Work → Work
  unfolding score_new
  promote_contact none w = w
  promote_contact (some index) w = elim (get_elem? w.contacts index) [
    | none ↦ w
    | some contact ↦
        if is_dupe_contact contact
        then (let scored = score_new module_ w.state contact in
            record {
              state = scored.0;
              contacts = set w.contacts index scored.1;
              changed = add_changed (contact_id contact) w.changed;
            })
        else w
  ]

  -- A freed multiplier goes to the first contact that has it.
  unfoldable pub reassign_multiplier : Option ℤ → Text → Work → Work
  unfolding find_multiplier_replacement_index increment_contact_score_field
  reassign_multiplier skip key w =
      if contains_key key w.state.multiplier_owners
      then w
      else unwrap_or
          (find_multiplier_replacement_index w.contacts key skip >>= λ index.
            get_elem? w.contacts index >>= λ contact. contact_id contact >>= λ id. some (record {
              state = record w.state {
                multiplier_owners = insert key id w.state.multiplier_owners;
                raw_multiplier_count = add_i64 w.state.raw_multiplier_count (pos 1);
              };
              contacts =
                  set w.contacts index
                    (increment_contact_score_field contact (text "mult") (pos 1));
              changed = w.changed ++ id ∷ [];
            }))
          w

  unfoldable pub reassign_multipliers : Option ℤ → List Text → Work → Work
  unfolding reassign_multiplier
  reassign_multipliers skip [] w = w
  reassign_multipliers skip (key ∷ names) w =
      reassign_multipliers skip names (reassign_multiplier skip key w)

  unfoldable pub reassign_bonus : Option ℤ → Text → Work → Work
  unfolding find_bonus_replacement increment_contact_score_field
  reassign_bonus skip key w =
      if contains_key key w.state.bonus_owners
      then w
      else unwrap_or
          (find_bonus_replacement 0 w.contacts key skip >>= λ found.
            get_elem? w.contacts found.0 >>= λ contact. contact_id contact >>= λ id. some (record {
              state = record w.state {
                bonus_owners = insert key id w.state.bonus_owners;
                direct_bonus_points = add_i64 w.state.direct_bonus_points found.1;
              };
              contacts =
                  set w.contacts found.0
                    (increment_contact_score_field contact (text "bonus") found.1);
              changed = w.changed ++ id ∷ [];
            }))
          w

  unfoldable pub reassign_bonuses : Option ℤ → List Text → Work → Work
  unfolding reassign_bonus
  reassign_bonuses skip [] w = w
  reassign_bonuses skip (key ∷ names) w = reassign_bonuses skip names (reassign_bonus skip key w)

  -- The sums without a contact's own annotations.
  unfoldable pub subtract_scores : IncrementalLogState → Contact → IncrementalLogState
  unfolding decrement_all
  subtract_scores t deleted =
      let points = scored_i64 deleted (text "pts") in
      record t {
        totals = record t.totals {
          qso_count = t.totals.qso_count - 1;
          qso_points = sub_i64 t.totals.qso_points points;
        };
        raw_multiplier_count = sub_i64 t.raw_multiplier_count (scored_i64 deleted (text "mult"));
        direct_bonus_points = sub_i64 t.direct_bonus_points (scored_i64 deleted (text "bonus"));
        qso_count_bonus_counts =
            if not (is_dupe_contact deleted) && not (leb_ℤ points (pos 0))
            then decrement_all (module_.qso_count_bonus_keys_for deleted) t.qso_count_bonus_counts
            else t.qso_count_bonus_counts;
      }

  abbrev replacement_id : List Contact → Option ℕ → Option ℤ
  replacement_id contacts o = o >>= λ index. get_elem? contacts index >>= contact_id

  abbrev with_owner : Text → Option ℤ → Table Text ℤ → Table Text ℤ
  with_owner key none owners = owners
  with_owner key (some id) owners = insert key id owners

  -- The dupe tables without a contact, and the index of the contact that takes its place.
  unfoldable pub release_dupe_key :
      IncrementalLogState
      → List Contact
      → Option Text
      → Option ℤ
      → Option ℤ
      → IncrementalLogState × Option ℕ
  unfolding decrement_count find_dupe_replacement_index
  release_dupe_key t contacts none deleted_id skip = (t, none)
  release_dupe_key t contacts (some key) deleted_id skip =
      let counted = record t { dupe_counts = decrement_count t.dupe_counts key } in
      if is_some deleted_id && option_beq (lookup key t.dupe_owners) deleted_id
      then (let index = find_dupe_replacement_index contacts key skip in
          (
            record counted {
              dupe_owners =
                  with_owner key (replacement_id contacts index) (remove key t.dupe_owners);
            },
            index,
          ))
      else (counted, none)

  unfoldable pub remove_contact : Contact → Option ℤ → Work → Work
  unfolding subtract_scores release_dupe_key owned_keys without_keys promote_contact
      reassign_multipliers reassign_bonuses recalculate_score
  remove_contact deleted skip w =
      let deleted_id = contact_id deleted in
      let released =
        release_dupe_key (subtract_scores w.state deleted) w.contacts (module_.dupe_key_for deleted)
          deleted_id skip in
      let multiplier_keys = owned_by deleted_id released.0.multiplier_owners in
      let bonus_keys = owned_by deleted_id released.0.bonus_owners in
      let freed = record released.0 {
        multiplier_owners = without_keys multiplier_keys released.0.multiplier_owners;
        bonus_owners = without_keys bonus_keys released.0.bonus_owners;
      } in
      let promoted = promote_contact released.1 (record w { state = freed }) in
      let assigned =
        reassign_bonuses skip bonus_keys (reassign_multipliers skip multiplier_keys promoted) in
      record assigned { state = recalculate_score module_ assigned.state }
