-- ===== src/Scoring/Incremental/Tracker.antt =====
-- The handlers of `IncrementalScoreTracker` of backend/src/scoring.rs, on the state of one log.
use log.Base.{
  Bool, true, false, not, ◌&&◌, Option, none, some, List, [], ◌∷◌, if◌then◌else◌, ◌>>=◌, unwrap_or,
  any, pick, select, position, get_elem?, set,
}
use log.Base.Int.{ℤ}
use log.Contact.{Contact, contact_id}
use log.Scoring.Module.{ScoringModule}
use log.Scoring.Incremental.{IncrementalLogState, fresh_state, add_contact, reset}
use log.Scoring.Incremental.Removal.{Work, is_id, remove_contact}

abbrev pub pick_ids : List Contact → List ℤ
pick_ids = pick contact_id

abbrev holds_id : List ℤ → Contact → Bool
holds_id ids contact = any (λ id. is_id id contact) ids

-- The contacts whose ids changed, but for those that the caller has anyway.
unfoldable pub collect_changed_contacts : List Contact → List ℤ → List ℤ → List Contact
collect_changed_contacts contacts changed excluded =
    select (λ contact. holds_id changed contact && not (holds_id excluded contact)) contacts

abbrev start : IncrementalLogState × List Contact → Work
start p = record { state = p.0; contacts = p.1; changed = [] }

module _ (module_ : ScoringModule) where
  unfoldable pub remove_previous : List (Option Contact) → Work → Work
  unfolding remove_contact
  remove_previous [] w = w
  remove_previous (none ∷ previous) w = remove_previous previous w
  remove_previous (some contact ∷ previous) w =
      remove_previous previous (remove_contact module_ contact (contact_id contact) w)

  -- A committed contact is scored where it stands in the cache.
  unfoldable pub add_committed_one : Contact → Work → Work
  unfolding add_contact
  add_committed_one committed w =
      unwrap_or
        (contact_id committed >>= λ id. position (is_id id) w.contacts >>= λ index.
          get_elem? w.contacts index >>= λ contact.
          (let added = add_contact module_ w.state contact in
            some (record w { state = added.0; contacts = set w.contacts index added.1 })))
        w

  unfoldable pub add_committed : List Contact → Work → Work
  unfolding add_committed_one
  add_committed [] w = w
  add_committed (committed ∷ rest) w = add_committed rest (add_committed_one committed w)

  -- The state that a handler starts from: a log that is not tracked yet starts empty, and a state
  -- of another module (`Arc::ptr_eq`) is made anew.
  unfoldable pub current_state :
      Option (Bool × IncrementalLogState) → List Contact → IncrementalLogState × List Contact
  current_state none contacts = (fresh_state, contacts)
  current_state (some (true, t)) contacts = (t, contacts)
  current_state (some (false, t)) contacts = reset module_ contacts

  -- `on_contacts_upserted` on the state of a log: `none` is a log that is not tracked yet, and the
  -- flag is whether the state was made by this module (`Arc::ptr_eq`).
  unfoldable pub on_contacts_upserted :
      Option (Bool × IncrementalLogState)
      → List Contact
      → List Contact
      → List (Option Contact)
      → Work × List Contact
  unfolding current_state reset remove_previous add_committed collect_changed_contacts
  on_contacts_upserted tracked contacts committed previous =
      let committed_ids = pick_ids committed in
      let current = current_state tracked contacts in
      if module_.has_capped_multipliers
      then (let w = start (reset module_ current.1) in
          (w, collect_changed_contacts w.contacts (pick_ids w.contacts) committed_ids))
      else (let w = add_committed committed (remove_previous previous (start current)) in
          (w, collect_changed_contacts w.contacts w.changed committed_ids))

  unfoldable pub on_contact_deleted :
      Option (Bool × IncrementalLogState) → List Contact → Contact → Option (Work × List Contact)
  unfolding reset remove_contact collect_changed_contacts
  on_contact_deleted none contacts deleted = none
  on_contact_deleted (some (false, t)) contacts deleted = some (start (reset module_ contacts), [])
  on_contact_deleted (some (true, t)) contacts deleted =
      if module_.has_capped_multipliers
      then (let w = start (reset module_ contacts) in some (w, w.contacts))
      else (let w = remove_contact module_ deleted none (start (t, contacts)) in
          some (w, collect_changed_contacts w.contacts w.changed []))
