-- ===== src/LogCache/Cache.antt =====
-- `LogCache` of backend/src/log_cache.rs, for one log: what happens to its contacts once the
-- database has committed a change. The database and the processors are parameters, the calls for
-- a log come one after another (`coordinate`), and an error is its message's place.
use log.Base.{
  ℕ, not, ◌||◌, Option, none, some, List, [], ◌∷◌, ◌++◌, map, leb, ◌==◌, if◌then◌else◌, ◌>>=◌, any,
  pick, take, drop, position, get_elem?,
}
use log.Base.Int.{ℤ, eq_ℤ}
use log.Base.Text.{Text}
use log.Base.Table.{lookup, option_beq, nat_eq, int_eq}
use log.Contact.{Contact, contact_id}
use log.Scoring.Incremental.Removal.{is_id}
use log.LogCache.Cached.{
  CachedLog, new_cached_log, rebuild_indexes, apply_upserted_contacts, contact_by_id,
  dedupe_contacts, normalized_callsign_prefix, matching_contact_ids_for_prefix, sort_contacts_desc,
}

-- A processor, on the state that all processors share: it may annotate the contacts of the log, and
-- names those that changed.
pub record LogCacheProcessor (P : Type 0) : Type 0 where
  pub on_log_loaded : P → List Contact → P × List Contact
  pub on_contacts_upserted :
      P → List Contact → List Contact → List (Option Contact) → P × List Contact × List Contact
  pub on_contact_deleted : P → List Contact → Contact → P × List Contact × List Contact

-- What the database answers: the contacts as committed, and the revisions before and after.
pub record ContactMutation : Type 0 where
  pub contacts : List Contact
  pub previous_revision : ℕ
  pub revision : ℕ

pub record LogCacheUpsertResult : Type 0 where
  pub contacts : List Contact
  pub changed_contacts : List Contact

-- Of the contacts with one id, the last; `seen` holds the ids behind.
unfoldable pub last_of_each : List Contact → List Contact × List ℤ
last_of_each [] = ([], [])
last_of_each (contact ∷ contacts) =
    let rest = last_of_each contacts in
    elim (contact_id contact) [
      | none ↦ rest
      | some id ↦ if any (eq_ℤ id) rest.1 then rest else (contact ∷ rest.0, id ∷ rest.1)
    ]

abbrev pub previous_of : CachedLog → Contact → Option Contact
previous_of cached contact = contact_id contact >>= contact_by_id cached

abbrev stored_of : CachedLog → List Contact → List Contact
stored_of cached = pick (previous_of cached)

-- Without the first contact of an id: `remove` at its position.
unfoldable pub without : ℤ → List Contact → List Contact
without id [] = []
without id (c ∷ cs) = if is_id id c then cs else c ∷ without id cs

module _ {P : Type 0} where
  unfoldable pub run_upserted :
      List (LogCacheProcessor P)
      → P
      → List Contact
      → List Contact
      → List (Option Contact)
      → P × List Contact × List Contact
  run_upserted [] p contacts committed previous = (p, contacts, [])
  run_upserted (processor ∷ processors) p contacts committed previous =
      let first = processor.on_contacts_upserted p contacts committed previous in
      let rest = run_upserted processors first.0 first.1 committed previous in
      (rest.0, rest.1, first.2 ++ rest.2)

  unfoldable pub run_deleted :
      List (LogCacheProcessor P) → P → List Contact → Contact → P × List Contact × List Contact
  run_deleted [] p contacts deleted = (p, contacts, [])
  run_deleted (processor ∷ processors) p contacts deleted =
      let first = processor.on_contact_deleted p contacts deleted in
      let rest = run_deleted processors first.0 first.1 deleted in
      (rest.0, rest.1, first.2 ++ rest.2)

  unfoldable pub run_loaded : List (LogCacheProcessor P) → P → List Contact → P × List Contact
  run_loaded [] p contacts = (p, contacts)
  run_loaded (processor ∷ processors) p contacts =
      let first = processor.on_log_loaded p contacts in run_loaded processors first.0 first.1

  -- `upsert_contacts`, on a cached log that the mutation builds on.
  unfoldable pub upsert_committed :
      List (LogCacheProcessor P)
      → P
      → CachedLog
      → ContactMutation
      → P × CachedLog × LogCacheUpsertResult
  unfolding run_upserted last_of_each
  upsert_committed processors p cached mutation =
      let final = (last_of_each mutation.contacts).0 in
      let previous = map (previous_of cached) final in
      let applied = apply_upserted_contacts cached final previous in
      let run = run_upserted processors p applied.0.contacts final previous in
      let processed = record applied.0 { contacts = run.1 } in
      let indexed = if applied.1 then rebuild_indexes processed else processed in
      let done = record indexed { revision = mutation.revision } in
      (
        run.0,
        done,
        record {
          contacts = stored_of done mutation.contacts;
          changed_contacts = dedupe_contacts run.2 (pick contact_id mutation.contacts);
        },
      )

  -- `ensure_loaded_locked` on a snapshot of the database that is still current.
  unfoldable pub load_snapshot : List (LogCacheProcessor P) → P → ℕ → List Contact → P × CachedLog
  unfolding run_loaded
  load_snapshot processors p revision contacts =
      let run = run_loaded processors p (sort_contacts_desc contacts) in
      (run.0, record (new_cached_log (sort_contacts_desc run.1)) { revision = revision })

  -- `upsert_contacts`: a cache that missed a change, of which the database's revision tells, is
  -- loaded anew. `reloaded` is that load.
  unfoldable pub upsert_contacts :
      List (LogCacheProcessor P)
      → P
      → CachedLog
      → ContactMutation
      → Option ℕ
      → P × CachedLog
      → P × CachedLog × LogCacheUpsertResult
  unfolding upsert_committed
  upsert_contacts processors p cached mutation log_revision reloaded =
      if not (cached.revision == mutation.previous_revision)
        || not (option_beq log_revision (some mutation.revision))
      then (
        reloaded.0,
        reloaded.1,
        record {
          contacts = stored_of reloaded.1 mutation.contacts;
          changed_contacts =
              dedupe_contacts reloaded.1.contacts (pick contact_id mutation.contacts);
        },
      )
      else upsert_committed processors p cached mutation

  -- `delete_contact` on a cached log that the deletion builds on.
  unfoldable pub delete_committed :
      List (LogCacheProcessor P) → P → CachedLog → ℤ → ℕ → P × CachedLog × List Contact
  unfolding run_deleted
  delete_committed processors p cached id revision =
      elim (position (is_id id) cached.contacts >>= get_elem? cached.contacts) [
        | none ↦ (p, cached, [])
        | some deleted ↦
            let run = run_deleted processors p (without id cached.contacts) deleted in
            (
              run.0,
              record (rebuild_indexes (record cached { contacts = run.1 })) { revision = revision },
              dedupe_contacts run.2 [],
            )
      ]

-- The positions in order: `sort_unstable`.
unfoldable pub insert_position : ℕ → List ℕ → List ℕ
insert_position n [] = n ∷ []
insert_position n (m ∷ ms) = if leb n m then n ∷ m ∷ ms else m ∷ insert_position n ms

unfoldable pub sort_positions : List ℕ → List ℕ
unfolding insert_position
sort_positions [] = []
sort_positions (n ∷ ns) = insert_position n (sort_positions ns)

-- The ids of a `HashSet`, once each.
unfoldable pub distinct : List ℤ → List ℤ
distinct [] = []
distinct (id ∷ ids) = let rest = distinct ids in if any (eq_ℤ id) ids then rest else id ∷ rest

unfoldable pub contacts_display_page : CachedLog → ℕ → ℕ → Option Text → List Contact
unfolding sort_positions distinct
contacts_display_page cached offset limit prefix =
    if limit == 0 then [] else elim (normalized_callsign_prefix prefix) [
      | none ↦ take limit (drop offset cached.contacts)
      | some callsign ↦ pick (get_elem? cached.contacts) (
          take limit (
            drop offset (
              sort_positions (
                pick (λ id. lookup id cached.contact_positions)
                  (distinct (matching_contact_ids_for_prefix cached callsign))))))
    ]
