-- ===== src/LogCache/Cached.antt =====
-- `CachedLog` of backend/src/log_cache.rs: the contacts of a log from the newest on, where each id
-- stands, and the ids of each callsign.
use log.Base.{
  ℕ, zero, suc, Bool, true, false, not, ◌&&◌, ◌||◌, Option, none, some, List, [], ◌∷◌, ◌++◌, ltb,
  ◌==◌, if◌then◌else◌, ◌>>=◌, unwrap_or, is_some, any, take, drop, drop_while, set, position,
  partition_point, get_elem?, length,
}
use log.Base.Int.{ℤ, pos, eq_ℤ, leb_ℤ}
use log.Base.Text.{Text, text, trim, to_upper, is_empty, starts_with}
use log.Base.Table.{Table, lookup, insert, contains_key, int_eq, text_eq_instance}
use log.Contact.{Contact, contact_adif_value, contact_id, as_i64, as_str}
use log.Scoring.Incremental.Removal.{is_id}

-- The order of texts by code points, which is that of their bytes.
unfoldable pub leb_text : Text → Text → Bool
leb_text [] t = true
leb_text (c ∷ s) [] = false
leb_text (c ∷ s) (d ∷ t) = ltb c d || ((c == d) && leb_text s t)

-- `BTreeMap::entry(key).or_default().push(id)`: the entries are in the order of their keys.
unfoldable pub push_id : Text → ℤ → Table Text (List ℤ) → Table Text (List ℤ)
unfolding leb_text
push_id key id [] = (key, id ∷ []) ∷ []
push_id key id ((other, ids) ∷ index) =
    let rest = push_id key id index in
    if leb_text key other
    then (if leb_text other key
        then (other, ids ++ id ∷ []) ∷ index
        else (key, id ∷ []) ∷ (other, ids) ∷ index)
    else (other, ids) ∷ rest

pub record CachedLog : Type 0 where
  pub revision : ℕ
  pub contacts : List Contact
  pub callsign_index : Table Text (List ℤ)
  pub contact_positions : Table ℤ ℕ

unfoldable pub contact_order_key : Contact → ℤ × ℤ
contact_order_key contact = (
  unwrap_or (contact_adif_value contact (text "QSO_DATE_TIME_ON") >>= as_i64) (pos 0),
  unwrap_or (contact_id contact) (pos 0),
)

abbrev pub leb_key : ℤ × ℤ → ℤ × ℤ → Bool
leb_key (a, b) (c, d) = if eq_ℤ a c then leb_ℤ b d else leb_ℤ a c

-- Whether the second is as new as the first, or newer.
abbrev pub at_least_as_new : Contact → Contact → Bool
at_least_as_new contact existing = leb_key (contact_order_key contact) (contact_order_key existing)

unfoldable pub contact_callsign : Contact → Option Text
contact_callsign contact =
    let callsign =
      to_upper (trim (unwrap_or (contact_adif_value contact (text "CALL") >>= as_str) [])) in
    if is_empty callsign then none else some callsign

-- `sort_contacts_desc`, which is stable.
unfoldable pub insert_desc : Contact → List Contact → List Contact
insert_desc contact [] = contact ∷ []
insert_desc contact (other ∷ contacts) =
    if at_least_as_new other contact
    then contact ∷ other ∷ contacts
    else other ∷ insert_desc contact contacts

unfoldable pub sort_contacts_desc : List Contact → List Contact
unfolding insert_desc
sort_contacts_desc [] = []
sort_contacts_desc (contact ∷ contacts) = insert_desc contact (sort_contacts_desc contacts)

-- The positions of contacts that begin at an index, entered one after another.
unfoldable pub positions_from : ℕ → List Contact → Table ℤ ℕ → Table ℤ ℕ
positions_from index [] positions = positions
positions_from index (contact ∷ contacts) positions =
    positions_from (suc index) contacts
      (elim (contact_id contact) [ none ↦ positions | some id ↦ insert id index positions ])

abbrev pub enter : Option ℤ → Option Text → Table Text (List ℤ) → Table Text (List ℤ)
enter (some id) (some callsign) index = push_id callsign id index
enter _ _ index = index

unfoldable pub add_contact_to_callsign_index : Contact → Table Text (List ℤ) → Table Text (List ℤ)
add_contact_to_callsign_index contact index =
    enter (contact_id contact) (contact_callsign contact) index

unfoldable pub index_callsigns : List Contact → Table Text (List ℤ) → Table Text (List ℤ)
index_callsigns [] index = index
index_callsigns (contact ∷ contacts) index =
    index_callsigns contacts (add_contact_to_callsign_index contact index)

unfoldable pub rebuild_indexes : CachedLog → CachedLog
unfolding positions_from index_callsigns
rebuild_indexes cached = record cached {
  callsign_index = index_callsigns cached.contacts [];
  contact_positions = positions_from zero cached.contacts [];
}

-- `CachedLog::new`.
unfoldable pub new_cached_log : List Contact → CachedLog
new_cached_log contacts =
    rebuild_indexes
      (record { revision = 0; contacts = contacts; callsign_index = []; contact_positions = [] })

unfoldable pub merge_contact : List Contact → Contact → List Contact
merge_contact contacts contact = elim (contact_id contact) [
  | none ↦ contacts ++ contact ∷ []
  | some id ↦ elim (position (is_id id) contacts) [
    | none ↦ contacts ++ contact ∷ []
    | some index ↦ set contacts index contact
  ]
]

unfoldable pub has_contact_id : CachedLog → Contact → Bool
has_contact_id cached contact = elim (contact_id contact) [
  | none ↦ false
  | some id ↦ contains_key id cached.contact_positions
]

unfoldable pub last_of : List Contact → Option Contact
last_of [] = none
last_of (contact ∷ []) = some contact
last_of (contact ∷ other ∷ contacts) = last_of (other ∷ contacts)

abbrev pub is_last_newer : Contact → Option Contact → Bool
is_last_newer contact none = false
is_last_newer contact (some last) = at_least_as_new contact last

-- The two ends are tried before the binary search.
unfoldable pub sorted_insert_position : List Contact → Contact → ℕ
unfolding last_of
sorted_insert_position [] contact = 0
sorted_insert_position (first ∷ contacts) contact =
    if not (at_least_as_new contact first)
    then 0
    else if is_last_newer contact (last_of (first ∷ contacts))
    then length (first ∷ contacts)
    else partition_point (at_least_as_new contact) (first ∷ contacts)

unfoldable pub refresh_contact_positions_from : ℕ → CachedLog → CachedLog
refresh_contact_positions_from start cached = record cached {
  contact_positions = positions_from start (drop start cached.contacts) cached.contact_positions;
}

unfoldable pub insert_new_contact_sorted : CachedLog → Contact → CachedLog
insert_new_contact_sorted cached contact =
    let index = sorted_insert_position cached.contacts contact in
    let refreshed = refresh_contact_positions_from index (record cached {
      contacts = take index cached.contacts ++ contact ∷ drop index cached.contacts;
    }) in
    record refreshed {
      callsign_index = add_contact_to_callsign_index contact refreshed.callsign_index;
    }

unfoldable pub merge_all : List Contact → List Contact → List Contact
merge_all contacts [] = contacts
merge_all contacts (committed ∷ more) = merge_all (merge_contact contacts committed) more

-- A contact that had none before, from whether the indexes are dirty.
unfoldable pub insert_one : Bool → CachedLog → Contact → CachedLog × Bool
insert_one dirty cached committed =
    if dirty || has_contact_id cached committed
    then (record cached { contacts = merge_contact cached.contacts committed }, true)
    else (insert_new_contact_sorted cached committed, false)

unfoldable pub insert_all : Bool → CachedLog → List Contact → CachedLog × Bool
unfolding insert_one
insert_all dirty cached [] = (cached, dirty)
insert_all dirty cached (committed ∷ more) =
    let inserted = insert_one dirty cached committed in insert_all inserted.1 inserted.0 more

abbrev pub sorted_if : Bool → CachedLog → CachedLog
sorted_if dirty cached =
    if dirty then record cached { contacts = sort_contacts_desc cached.contacts } else cached

unfoldable pub apply_upserted_contacts :
    CachedLog → List Contact → List (Option Contact) → CachedLog × Bool
apply_upserted_contacts cached committed previous =
    let inserted = insert_all false cached committed in
    if any is_some previous
    then (
      record cached { contacts = sort_contacts_desc (merge_all cached.contacts committed) },
      true,
    )
    else (sorted_if inserted.1 inserted.0, inserted.1)

unfoldable pub contact_by_id : CachedLog → ℤ → Option Contact
contact_by_id cached id =
    lookup id cached.contact_positions >>= λ index. get_elem? cached.contacts index

abbrev pub take_while_prefix : Text → Table Text (List ℤ) → List ℤ
take_while_prefix prefix [] = []
take_while_prefix prefix ((callsign, ids) ∷ index) =
    let rest = take_while_prefix prefix index in
    if starts_with callsign prefix then ids ++ rest else []

-- `range(prefix..)`, up to the first callsign without the prefix; the ids are a set.
unfoldable pub matching_contact_ids_for_prefix : CachedLog → Text → List ℤ
matching_contact_ids_for_prefix cached prefix =
    take_while_prefix prefix (drop_while (λ p. not (leb_text prefix p.0)) cached.callsign_index)

unfoldable pub dedupe_from : List ℤ → List ℤ → List Contact → List Contact
dedupe_from excluded seen [] = []
dedupe_from excluded seen (contact ∷ contacts) = elim (contact_id contact) [
  | none ↦ dedupe_from excluded seen contacts
  | some id ↦ elim (any (eq_ℤ id) excluded || any (eq_ℤ id) seen) [
    | true ↦ dedupe_from excluded seen contacts
    | false ↦ contact ∷ dedupe_from excluded (id ∷ seen) contacts
  ]
]

unfoldable pub dedupe_contacts : List Contact → List ℤ → List Contact
unfolding dedupe_from
dedupe_contacts contacts excluded = dedupe_from excluded [] contacts

unfoldable pub normalized_callsign_prefix : Option Text → Option Text
normalized_callsign_prefix prefix =
    let normalized = to_upper (trim (unwrap_or prefix [])) in
    if is_empty normalized then none else some normalized
