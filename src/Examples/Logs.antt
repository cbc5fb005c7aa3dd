-- ===== src/Examples/Logs.antt =====
-- A cached log of three contacts.
use log.Base.{ℕ, ◌+◌, ◌≡◌, List, [], ◌∷◌, arith, any, partition_point, find_first}
use log.Base.Position.{count_if}
use log.Base.Int.{pos, eq_ℤ}
use log.Base.Text.{Text, text}
use log.Contact.{Contact, string, number, int, nil, field, build_contact}
use log.Scoring.Incremental.Removal.{is_id}
use log.LogCache.Cached.{
  CachedLog, rebuild_indexes, merge_all, contact_by_id, sorted_insert_position, at_least_as_new,
  matching_contact_ids_for_prefix,
}
use log.LogCache.Positions.{OnceEach, contact_by_id-rebuild_indexes}
use log.LogCache.Ids.{merge_all-OnceEach}
use log.LogCache.Consistent.{IsConsistent}
use log.LogCache.Sorting.{sorted_insert_position_lem}
use log.LogCache.Cache.{
  LogCacheProcessor, ContactMutation, load_snapshot, upsert_committed, delete_committed,
}
use log.LogCache.Upsert.{SameMarks-refl, load_snapshot-IsConsistent, upsert_committed-IsConsistent}
use log.LogCache.Delete.{delete_committed-IsConsistent}
use log.LogCache.Prefix.{has_prefix, matching_contact_ids_for_prefix_lem}

abbrev worked : ℕ → ℕ → Text → Contact
worked id time call = build_contact (field (text "id") (number (int (pos id))) nil) (
    field (text "QSO_DATE_TIME_ON") (number (int (pos time)))
      (field (text "CALL") (string call) nil))

abbrev contacts : List Contact
contacts =
    worked 1 100 (text "W1AW") ∷ worked 2 300 (text "K1ABC") ∷ worked 3 200 (text "W1XYZ") ∷ []

-- It counts the calls it gets, and reports all contacts as changed.
abbrev counting : LogCacheProcessor ℕ
counting = record {
  on_log_loaded = λ n cs. (n + 1, cs);
  on_contacts_upserted = λ n cs committed previous. (n + 1, cs, cs);
  on_contact_deleted = λ n cs deleted. (n + 1, cs, cs);
}

merged-OnceEach : OnceEach (merge_all [] contacts)
merged-OnceEach = merge_all-OnceEach [] contacts (λ id. omega arith)

load_snapshot-IsConsistent_example :
    IsConsistent (load_snapshot (counting ∷ []) 0 7 (merge_all [] contacts)).1
load_snapshot-IsConsistent_example =
    load_snapshot-IsConsistent (counting ∷ []) 0 7 (merge_all [] contacts)
      ((λ n cs. SameMarks-refl cs), tt) merged-OnceEach

abbrev cached : CachedLog
cached = (load_snapshot (counting ∷ []) 0 7 (merge_all [] contacts)).1

cached-IsConsistent : IsConsistent cached
cached-IsConsistent =
    load_snapshot-IsConsistent (counting ∷ []) 0 7 (merge_all [] contacts)
      ((λ n cs. SameMarks-refl cs), tt) merged-OnceEach

abbrev change : ContactMutation
change = record {
  contacts = worked 4 250 (text "W1AW") ∷ worked 2 50 (text "K1ABD") ∷ [];
  previous_revision = 7;
  revision = 8;
}

upsert_committed-IsConsistent_example :
    IsConsistent (upsert_committed (counting ∷ []) 1 cached change).1
upsert_committed-IsConsistent_example =
    upsert_committed-IsConsistent (counting ∷ []) 1 cached change
      ((λ n cs committed previous. SameMarks-refl cs), tt) cached-IsConsistent

contact_by_id-rebuild_indexes_example :
    contact_by_id (rebuild_indexes cached) (pos 3) ≡ find_first (is_id (pos 3)) cached.contacts
contact_by_id-rebuild_indexes_example =
    contact_by_id-rebuild_indexes cached (pos 3) cached-IsConsistent.once

sorted_insert_position_lem_example :
    sorted_insert_position cached.contacts (worked 4 250 (text "W1AW"))
    ≡ partition_point (at_least_as_new (worked 4 250 (text "W1AW"))) cached.contacts
sorted_insert_position_lem_example =
    sorted_insert_position_lem (worked 4 250 (text "W1AW")) cached.contacts cached-IsConsistent.desc

matching_contact_ids_for_prefix_lem_example :
    any (λ i. eq_ℤ i (pos 1)) (matching_contact_ids_for_prefix (rebuild_indexes cached) (text "W1"))
    ≡ any (has_prefix (text "W1") (pos 1)) cached.contacts
matching_contact_ids_for_prefix_lem_example =
    matching_contact_ids_for_prefix_lem cached (text "W1") (pos 1)

delete_committed-IsConsistent_example :
    IsConsistent (delete_committed (counting ∷ []) 1 cached (pos 2) 8).1
    × (count_if (is_id (pos 2)) (delete_committed (counting ∷ []) 1 cached (pos 2) 8).1.contacts
        ≡ 0)
delete_committed-IsConsistent_example =
    delete_committed-IsConsistent (counting ∷ []) 1 cached (pos 2) 8
      ((λ n cs deleted. SameMarks-refl cs), tt) cached-IsConsistent
