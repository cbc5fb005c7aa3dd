-- ===== src/BandMap/Manager.antt =====
-- `BandMapManager` of backend/src/bandmap.rs: spots from the cluster, the operator and the log. The
-- time now is an argument, and the events that are broadcast are a result.
use log.Base.{
  ℕ, ◌+◌, ◌^◌, ◌-◌, ◌*◌, ◌/◌, ◌%◌, Bool, not, ◌||◌, Option, none, some, List, [], ◌∷◌, ◌++◌, ltb,
  leb, ◌==◌, if◌then◌else◌, keep_if, ◌>>=◌, unwrap_or, or_else, is_some,
}
use log.Base.Int.{ℤ, pos, negsuc}
use log.Base.Text.{Text, text, trim, to_upper, is_empty, parse_unsigned}
use log.Base.Table.{Table, lookup, insert, contains_key}
use log.Bands.{Band, band_for_frequency}
use log.Contact.{
  Contact, Value, Fields, number, string, int, get, contact_adif, contact_adif_value, value_text,
}
use log.BandMap.Types.{
  dx, rbn, local, in_use, cq, DxClusterSpot, BandMapSpot, BandMapSpotCandidate, LocalSpotInput,
  CqSpotInput, BandMapEvent, spot_upserted, BandMapDedupeKey, cluster_key, local_key,
  local_unknown_band_key, in_use_key, cq_key, UpsertOutcome, inserted, updated, refreshed,
}
use log.BandMap.Key.{key_eq}
use log.BandMap.Store.{
  BandMapSpotStore, max_u64, next_u64, upsert, prune, remove_by_id, remove_spot,
  remove_cluster_source_spot, spots, local_keys_for_log,
}

pub record BandMapManager : Type 0 where
  pub bands : List Band
  pub max_age : ℕ
  pub store : BandMapSpotStore

-- The sum wraps around as in a release build.
unfoldable pub frequency_tenth_khz : ℕ → ℕ
frequency_tenth_khz frequency_hz = (frequency_hz + 50) % 2 ^ 64 / 100

unfoldable pub utc_hhmm_from_timestamp : ℕ → ℕ
utc_hhmm_from_timestamp timestamp = timestamp % 86400 / 3600 * 100 + timestamp % 86400 % 3600 / 60

abbrev band_name_of : Option Band → Option Text
band_name_of none = none
band_name_of (some band) = some band.name

unfoldable pub band_name_for_frequency : List Band → ℕ → Option Text
band_name_for_frequency bands frequency_hz = band_name_of (band_for_frequency bands frequency_hz)

abbrev pub local_key_for : Option ℤ → Option Text → ℕ → Text → BandMapDedupeKey
local_key_for log_id (some band_name) frequency_hz call_dx = local_key log_id band_name call_dx
local_key_for log_id none frequency_hz call_dx =
    local_unknown_band_key log_id (frequency_tenth_khz frequency_hz) call_dx

-- The event of an upsert that inserted or changed a spot, with the next sequence number.
unfoldable pub announce : BandMapSpotStore × UpsertOutcome → BandMapSpotStore × List BandMapEvent
announce (s, inserted spot) =
    let sequence = next_u64 s.next_sequence in
    (record s { next_sequence = sequence }, spot_upserted sequence spot ∷ [])
announce (s, updated spot) =
    let sequence = next_u64 s.next_sequence in
    (record s { next_sequence = sequence }, spot_upserted sequence spot ∷ [])
announce (s, refreshed spot) = (s, [])

module _ (same_fields : Fields → Fields → Bool) where
  -- The store is pruned first; `none` is `unreachable!`.
  unfoldable pub upsert_candidate :
      ℕ
      → BandMapDedupeKey
      → BandMapSpotCandidate
      → BandMapManager
      → Option (BandMapManager × List BandMapEvent)
  unfolding announce
  upsert_candidate now key candidate m =
      let pruned = prune now m.max_age m.store in
      upsert same_fields key candidate pruned.0 >>= λ r.
      some (record m { store = (announce r).0 }, pruned.1 ++ (announce r).1)

  unfoldable pub upsert_dxcluster_spot :
      ℕ → DxClusterSpot → BandMapManager → Option (BandMapManager × List BandMapEvent)
  upsert_dxcluster_spot now spot m =
      upsert_candidate now (cluster_key spot.id)
        (record {
          received_at = spot.received_at;
          spot_type = if is_some spot.rbn_spot then rbn else dx;
          source = spot.source;
          call_de = spot.call_de;
          call_dx = spot.call_dx;
          frequency_hz = spot.frequency_hz;
          utc = spot.utc;
          loc = spot.loc;
          comment = spot.comment;
          rbn_spot = spot.rbn_spot;
          band_name = band_name_for_frequency m.bands spot.frequency_hz;
          radio_id = none;
          radio_name = none;
          log_id = none;
          exchange_fields = none;
        })
        m

  unfoldable pub upsert_local_spot :
      ℕ → LocalSpotInput → BandMapManager → Option (BandMapManager × List BandMapEvent)
  upsert_local_spot now input m =
      let band_name = band_name_for_frequency m.bands input.frequency_hz in
      let call_dx = to_upper (trim input.call_dx) in
      upsert_candidate now (local_key_for input.log_id band_name input.frequency_hz call_dx)
        (record {
          received_at = unwrap_or input.received_at now;
          spot_type = local;
          source = text "local";
          call_de = text "LOCAL";
          call_dx = call_dx;
          frequency_hz = input.frequency_hz;
          utc = utc_hhmm_from_timestamp now;
          loc = none;
          comment = keep_if (λ comment. not (is_empty (trim comment))) input.comment;
          rbn_spot = none;
          band_name = band_name;
          radio_id = input.radio_id;
          radio_name = input.radio_name;
          log_id = input.log_id;
          exchange_fields = input.exchange_fields;
        })
        m

  -- A spot without calls, of the operator's own radios.
  abbrev own_spot : ℕ → ℕ → Option Text → BandMapSpotCandidate
  own_spot now frequency_hz band_name = record {
    received_at = now;
    spot_type = in_use;
    source = text "in_use";
    call_de = [];
    call_dx = [];
    frequency_hz = frequency_hz;
    utc = utc_hhmm_from_timestamp now;
    loc = none;
    comment = none;
    rbn_spot = none;
    band_name = band_name;
    radio_id = none;
    radio_name = none;
    log_id = none;
    exchange_fields = none;
  }

  -- Nothing happens where the frequency is on no band.
  unfoldable pub upsert_cq :
      ℕ → CqSpotInput → BandMapManager → Option (BandMapManager × List BandMapEvent)
  upsert_cq now input m = elim (band_name_for_frequency m.bands input.frequency_hz) [
    | none ↦ some (m, [])
    | some band_name ↦
        upsert_candidate now (cq_key input.radio_id band_name)
          (record (own_spot now input.frequency_hz (some band_name)) {
            spot_type = cq;
            source = text "cq";
            radio_id = some input.radio_id;
            radio_name = some input.radio_name;
          })
          m
  ]

  unfoldable pub upsert_in_use :
      ℕ → ℕ → BandMapManager → Option (BandMapManager × List BandMapEvent)
  upsert_in_use now frequency_hz m =
      upsert_candidate now (in_use_key (frequency_tenth_khz frequency_hz))
        (own_spot now frequency_hz (band_name_for_frequency m.bands frequency_hz)) m

  -- The desired spots of a log are stored one after another.
  unfoldable pub upsert_all :
      List (BandMapDedupeKey × BandMapSpotCandidate)
      → BandMapSpotStore
      → Option (BandMapSpotStore × List BandMapEvent)
  unfolding announce
  upsert_all [] s = some (s, [])
  upsert_all ((key, candidate) ∷ desired) s = upsert same_fields key candidate s >>= λ r.
      upsert_all desired (announce r).0 >>= λ rest. some (rest.0, (announce r).1 ++ rest.1)

abbrev as_u64 : ℤ → Option ℕ
as_u64 (pos n) = if leb n max_u64 then some n else none
as_u64 (negsuc n) = none

unfoldable pub value_u64 : Value → Option ℕ
value_u64 (number (int z)) = as_u64 z
value_u64 (string s) = parse_unsigned max_u64 (trim s)
value_u64 _ = none

unfoldable pub local_spot_candidate : List Band → ℤ → Contact → Option BandMapSpotCandidate
local_spot_candidate bands log_id contact = do
  adif ← contact_adif contact
  call ← get (text "CALL") adif >>= value_text
  frequency_hz ← get (text "FREQ") adif >>= value_u64
  received_at ← get (text "QSO_DATE_TIME_ON") adif >>= value_u64
  if is_empty (to_upper (trim call)) || (frequency_hz == 0)
      then none
      else some (record {
        received_at = received_at;
        spot_type = local;
        source = text "local";
        call_de =
            unwrap_or (contact_adif_value contact (text "STATION_CALLSIGN") >>= value_text) [];
        call_dx = to_upper (trim call);
        frequency_hz = frequency_hz;
        utc = utc_hhmm_from_timestamp received_at;
        loc = none;
        comment = none;
        rbn_spot = none;
        band_name =
            or_else
              (keep_if (λ name. not (is_empty (trim name))) (get (text "BAND") adif >>= value_text))
              (band_name_for_frequency bands frequency_hz);
        radio_id = none;
        radio_name = none;
        log_id = some log_id;
        exchange_fields = some adif;
      })

-- Of two contacts under one key the later counts, and the earlier in the list if they are as old.
unfoldable pub keep_latest :
    BandMapDedupeKey
    → BandMapSpotCandidate
    → Table BandMapDedupeKey BandMapSpotCandidate
    → Table BandMapDedupeKey BandMapSpotCandidate
keep_latest key candidate desired = elim (lookup key desired) [
  | none ↦ insert key candidate desired
  | some existing ↦
      if leb candidate.received_at existing.received_at
      then desired
      else insert key candidate desired
]

abbrev pub want :
    ℕ
    → ℤ
    → Option BandMapSpotCandidate
    → Table BandMapDedupeKey BandMapSpotCandidate
    → Table BandMapDedupeKey BandMapSpotCandidate
want cutoff log_id none desired = desired
want cutoff log_id (some candidate) desired =
    if ltb candidate.received_at cutoff
    then desired
    else keep_latest
        (local_key_for (some log_id) candidate.band_name candidate.frequency_hz candidate.call_dx)
        candidate desired

unfoldable pub desired_spots :
    List Band
    → ℕ
    → ℤ
    → List Contact
    → Table BandMapDedupeKey BandMapSpotCandidate
    → Table BandMapDedupeKey BandMapSpotCandidate
unfolding local_spot_candidate keep_latest
desired_spots bands cutoff log_id [] desired = desired
desired_spots bands cutoff log_id (contact ∷ contacts) desired =
    desired_spots bands cutoff log_id contacts
      (want cutoff log_id (local_spot_candidate bands log_id contact) desired)

unfoldable pub remove_unless_desired :
    Table BandMapDedupeKey BandMapSpotCandidate
    → BandMapDedupeKey
    → BandMapSpotStore
    → BandMapSpotStore × List BandMapEvent
remove_unless_desired desired key s =
    if contains_key key desired
    then (s, [])
    else elim (lookup key s.id_by_key) [ none ↦ (s, []) | some id ↦ remove_by_id id s ]

-- The keys of a log that no contact of it asks for any more. Their ids stay in the order of time.
unfoldable pub remove_unwanted :
    Table BandMapDedupeKey BandMapSpotCandidate
    → List BandMapDedupeKey
    → BandMapSpotStore
    → BandMapSpotStore × List BandMapEvent
remove_unwanted desired [] s = (s, [])
remove_unwanted desired (key ∷ existing) s =
    let removed = remove_unless_desired desired key s in
    let rest = remove_unwanted desired existing removed.0 in (rest.0, removed.1 ++ rest.1)

unfoldable pub sync_local_spots_for_log :
    (Fields → Fields → Bool)
    → ℕ
    → ℤ
    → List Contact
    → BandMapManager
    → Option (BandMapManager × List BandMapEvent)
sync_local_spots_for_log same_fields now log_id contacts m =
    let desired = desired_spots m.bands (now - m.max_age) log_id contacts [] in
    let pruned = prune now m.max_age m.store in
    let existing = local_keys_for_log log_id pruned.0 in
    upsert_all same_fields desired pruned.0 >>= λ stored.
    let kept = remove_unwanted desired existing stored.0 in
    some (record m { store = kept.0 }, pruned.1 ++ stored.1 ++ kept.1)

unfoldable pub delete_spot : ℕ → BandMapManager → BandMapManager × List BandMapEvent
delete_spot id m =
    let removed = remove_spot id m.store in (record m { store = removed.0 }, removed.1)

unfoldable pub delete_dxcluster_spot : ℕ → BandMapManager → BandMapManager × List BandMapEvent
delete_dxcluster_spot source_id m =
    let removed = remove_cluster_source_spot source_id m.store in
    (record m { store = removed.0 }, removed.1)

unfoldable pub set_max_age : ℕ → ℕ → BandMapManager → BandMapManager × List BandMapEvent
set_max_age now max_age m =
    let pruned = prune now max_age m.store in
    (record m { max_age = max_age; store = pruned.0 }, pruned.1)

unfoldable pub snapshot : Option ℤ → BandMapManager → ℕ × List BandMapSpot
snapshot log_id m = (m.store.next_sequence, spots log_id m.store)
