-- ===== src/BandMap/Store.antt =====
-- `BandMapSpotStore` of backend/src/bandmap.rs: the spots, their order in time, and the two
-- indexes between ids and dedupe keys.
use log.Base.{
  ℕ, ◌+◌, ◌-◌, ◌^◌, Bool, true, false, not, ◌&&◌, ◌||◌, Option, none, some, List, [], ◌∷◌, ◌++◌,
  ltb, leb, ◌==◌, if◌then◌else◌, select, partition_point, pick, take, drop,
}
use log.Base.Int.{ℤ, eq_ℤ}
use log.Base.Text.{text_eq}
use log.Base.Table.{
  Table, lookup, insert, remove, keys, same, nat_eq, int_eq, text_eq_instance, option_eq,
}
use log.Contact.{Fields}
use log.BandMap.Types.{
  BandMapSpotType, dx, rbn, local, in_use, cq, DxClusterRbnSpot, BandMapSpot, BandMapSpotCandidate,
  BandMapEvent, spot_deleted, BandMapDedupeKey, cluster_key, local_key, local_unknown_band_key,
  UpsertOutcome, inserted, updated, refreshed,
}
use log.BandMap.Key.{key_eq}

pub record BandMapSpotStore : Type 0 where
  pub next_id : ℕ
  pub next_sequence : ℕ
  pub ids_by_time : List ℕ
  pub spots_by_id : Table ℕ BandMapSpot
  pub id_by_key : Table BandMapDedupeKey ℕ
  pub key_by_id : Table ℕ BandMapDedupeKey

abbrev pub empty_store : BandMapSpotStore
empty_store = record {
  next_id = 0;
  next_sequence = 0;
  ids_by_time = [];
  spots_by_id = [];
  id_by_key = [];
  key_by_id = [];
}

abbrev pub max_u64 : ℕ
max_u64 = 2 ^ 64 - 1

-- `saturating_add(1).max(1)`
abbrev pub next_u64 : ℕ → ℕ
next_u64 n = let next = if ltb n max_u64 then n + 1 else max_u64 in if ltb next 1 then 1 else next

abbrev pub same_type : BandMapSpotType → BandMapSpotType → Bool
same_type dx dx = true
same_type rbn rbn = true
same_type local local = true
same_type in_use in_use = true
same_type cq cq = true
same_type _ _ = false

abbrev same_rbn : DxClusterRbnSpot → DxClusterRbnSpot → Bool
same_rbn a b =
    text_eq a.mode b.mode
    && eq_ℤ a.db b.db
    && same a.speed b.speed
    && same a.speed_unit b.speed_unit
    && text_eq a.info b.info
    && same a.loc b.loc

abbrev same_option {ℓ} : {A : Type ℓ} → (A → A → Bool) → Option A → Option A → Bool
same_option f none none = true
same_option f (some a) (some b) = f a b
same_option f _ _ = false

-- Equality of JSON objects is the library's.
unfoldable pub spot_visible_fields_changed :
    (Fields → Fields → Bool) → BandMapSpot → BandMapSpotCandidate → Bool
spot_visible_fields_changed same_fields spot candidate =
    not (same_type spot.spot_type candidate.spot_type)
    || not (text_eq spot.source candidate.source)
    || not (text_eq spot.call_de candidate.call_de)
    || not (text_eq spot.call_dx candidate.call_dx)
    || not (spot.frequency_hz == candidate.frequency_hz)
    || not (spot.utc == candidate.utc)
    || not (same spot.loc candidate.loc)
    || not (same spot.comment candidate.comment)
    || not (same_option same_rbn spot.rbn_spot candidate.rbn_spot)
    || not (same spot.band_name candidate.band_name)
    || not (same spot.radio_id candidate.radio_id)
    || not (same spot.radio_name candidate.radio_name)
    || not (same spot.log_id candidate.log_id)
    || not (same_option same_fields spot.exchange_fields candidate.exchange_fields)

-- A candidate under an id.
abbrev pub spot_of : ℕ → BandMapSpotCandidate → BandMapSpot
spot_of id candidate = record {
  id = id;
  received_at = candidate.received_at;
  spot_type = candidate.spot_type;
  source = candidate.source;
  call_de = candidate.call_de;
  call_dx = candidate.call_dx;
  frequency_hz = candidate.frequency_hz;
  utc = candidate.utc;
  loc = candidate.loc;
  comment = candidate.comment;
  rbn_spot = candidate.rbn_spot;
  band_name = candidate.band_name;
  radio_id = candidate.radio_id;
  radio_name = candidate.radio_name;
  log_id = candidate.log_id;
  exchange_fields = candidate.exchange_fields;
}

-- Whether a known id comes at or before a time and an id.
unfoldable pub comes_before : Table ℕ BandMapSpot → ℕ → ℕ → ℕ → Bool
comes_before spots received_at id current_id = elim (lookup current_id spots) [
  | none ↦ false
  | some spot ↦
      ltb spot.received_at received_at || ((spot.received_at == received_at) && leb current_id id)
]

unfoldable pub insert_id_by_time : ℕ → BandMapSpotStore → BandMapSpotStore
insert_id_by_time id s = elim (lookup id s.spots_by_id) [
  | none ↦ s
  | some spot ↦
      let index = partition_point (comes_before s.spots_by_id spot.received_at id) s.ids_by_time in
      record s { ids_by_time = take index s.ids_by_time ++ id ∷ drop index s.ids_by_time }
]

abbrev without_id : ℕ → BandMapSpotStore → BandMapSpotStore
without_id id s = record s {
  ids_by_time = select (λ current_id. not (current_id == id)) s.ids_by_time;
}

unfoldable pub reinsert_id_by_time : ℕ → BandMapSpotStore → BandMapSpotStore
reinsert_id_by_time id s = insert_id_by_time id (without_id id s)

-- A key that is known, at its id: the old spot under that id gets the candidate's fields, and keeps
-- its own id. `none` is `unreachable!`.
unfoldable pub update_spot :
    (Fields → Fields → Bool)
    → ℕ
    → BandMapSpotCandidate
    → BandMapSpotStore
    → Option (BandMapSpotStore × UpsertOutcome)
update_spot same_fields id candidate s = elim (lookup id s.spots_by_id) [
  | none ↦ none
  | some old ↦
      let spot = spot_of old.id candidate in
      some (
        reinsert_id_by_time id (record s { spots_by_id = insert id spot s.spots_by_id }),
        (if spot_visible_fields_changed same_fields old candidate
            then updated spot
            else refreshed spot),
      )
]

unfoldable pub insert_spot :
    BandMapDedupeKey → BandMapSpotCandidate → BandMapSpotStore → BandMapSpotStore × UpsertOutcome
insert_spot key candidate s =
    let id = next_u64 s.next_id in
    let spot = spot_of id candidate in
    (
      insert_id_by_time id (record s {
        next_id = id;
        id_by_key = insert key id s.id_by_key;
        key_by_id = insert id key s.key_by_id;
        spots_by_id = insert id spot s.spots_by_id;
      }),
      inserted spot,
    )

unfoldable pub upsert :
    (Fields → Fields → Bool)
    → BandMapDedupeKey
    → BandMapSpotCandidate
    → BandMapSpotStore
    → Option (BandMapSpotStore × UpsertOutcome)
upsert same_fields key candidate s = elim (lookup key s.id_by_key) [
  | none ↦ some (insert_spot key candidate s)
  | some id ↦ update_spot same_fields id candidate s
]

unfoldable pub spot_visible_for_log : Option ℤ → BandMapSpot → Bool
spot_visible_for_log log_id spot =
    if not (same_type spot.spot_type local) then true else elim spot.log_id [
      | none ↦ true
      | some spot_log_id ↦ elim log_id [
        | none ↦ false
        | some requested ↦ eq_ℤ spot_log_id requested
      ]
    ]

unfoldable pub spots : Option ℤ → BandMapSpotStore → List BandMapSpot
spots log_id s =
    select (spot_visible_for_log log_id) (pick (λ id. lookup id s.spots_by_id) s.ids_by_time)

abbrev pub remove_key :
    Option BandMapDedupeKey → Table BandMapDedupeKey ℕ → Table BandMapDedupeKey ℕ
remove_key none ids = ids
remove_key (some key) ids = remove key ids

-- The store without a spot, and the events.
unfoldable pub remove_by_id : ℕ → BandMapSpotStore → BandMapSpotStore × List BandMapEvent
remove_by_id id s = elim (lookup id s.spots_by_id) [
  | none ↦ (s, [])
  | some spot ↦
      let sequence = next_u64 s.next_sequence in
      (
        record s {
          spots_by_id = remove id s.spots_by_id;
          key_by_id = remove id s.key_by_id;
          id_by_key = remove_key (lookup id s.key_by_id) s.id_by_key;
          next_sequence = sequence;
        },
        spot_deleted sequence id ∷ [],
      )
]

-- The loop of `prune` over the ids from the front.
unfoldable pub prune_ids : ℕ → List ℕ → BandMapSpotStore → BandMapSpotStore × List BandMapEvent
prune_ids cutoff [] s = (record s { ids_by_time = [] }, [])
prune_ids cutoff (id ∷ ids) s = elim (lookup id s.spots_by_id) [
  | none ↦ prune_ids cutoff ids s
  | some spot ↦ elim (leb cutoff spot.received_at) [
    | true ↦ (record s { ids_by_time = id ∷ ids }, [])
    | false ↦
        let removed = remove_by_id id s in
        let rest = prune_ids cutoff ids removed.0 in (rest.0, removed.1 ++ rest.1)
  ]
]

-- The time now and the age in seconds; the subtraction saturates.
unfoldable pub prune : ℕ → ℕ → BandMapSpotStore → BandMapSpotStore × List BandMapEvent
prune now max_age s = prune_ids (now - max_age) s.ids_by_time s

-- `remove` of the store.
unfoldable pub remove_spot : ℕ → BandMapSpotStore → BandMapSpotStore × List BandMapEvent
remove_spot id s = remove_by_id id (without_id id s)

unfoldable pub remove_cluster_source_spot :
    ℕ → BandMapSpotStore → BandMapSpotStore × List BandMapEvent
remove_cluster_source_spot source_id s = elim (lookup (cluster_key source_id) s.id_by_key) [
  | none ↦ (s, [])
  | some id ↦ remove_spot id s
]

abbrev is_local_for_log : ℤ → BandMapDedupeKey → Bool
is_local_for_log log_id (local_key (some current_log_id) band_name call_dx) =
    eq_ℤ current_log_id log_id
is_local_for_log log_id (local_unknown_band_key (some current_log_id) frequency call_dx) =
    eq_ℤ current_log_id log_id
is_local_for_log log_id _ = false

unfoldable pub local_keys_for_log : ℤ → BandMapSpotStore → List BandMapDedupeKey
local_keys_for_log log_id s = select (is_local_for_log log_id) (keys s.id_by_key)
