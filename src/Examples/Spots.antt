-- ===== src/Examples/Spots.antt =====
-- A band map with spots, a time bonus, and a rule of a CTY file.
use log.Base.{
  ℕ, ◌+◌, ◌-◌, ◌≤◌, ◌<◌, ◌≡◌, ◌↔◌, refl, Bool, true, false, Option, none, some, List, [], ◌∷◌,
  arith, if◌then◌else◌, ltb, length, inl, inr,
}
use log.Base.Int.{pos}
use log.Base.Text.{Text, text}
use log.Base.Table.{lookup, nat_eq}
use log.Contact.{Contact, Fields, string, number, int, nil, field, build_contact}
use log.ContestRules.{TimeBonusPointRule}
use log.QsoTime.{parse_utc_minute}
use log.Scoring.Points.{time_bonus}
use log.Scoring.Points.Window.{time_bonus_lem, minutes_after}
use log.Dxcc.Rules.{DxccRule, parse_modifiers}
use log.Dxcc.Rules.Fuel.{Finished, parse_modifiers_fuel}
use log.BandMap.Types.{
  dx, BandMapSpot, BandMapSpotCandidate, BandMapEvent, cluster_key, UpsertOutcome,
}
use log.BandMap.Key.{key_eq}
use log.BandMap.Store.{
  BandMapSpotStore, empty_store, max_u64, spot_of, upsert, insert_spot, prune,
  remove_cluster_source_spot,
}
use log.BandMap.Indexed.{IsIndexed, Stored, prune-IsIndexed, remove_cluster_source_spot-IsIndexed}
use log.BandMap.Upsert.{insert_spot-Stored, upsert-Stored}
use log.BandMap.Order.{Ordered}
use log.BandMap.UpsertOrder.{insert_spot-Ordered, upsert-Ordered}
use log.BandMap.Manager.{BandMapManager, sync_local_spots_for_log, upsert_candidate}
use log.BandMap.Sync.{sync_local_spots_for_log-IsIndexed, upsert_candidate-IsIndexed}
use log.BandMap.Prune.{prune_lem, InOrder, Listed}

abbrev candidate : Text → ℕ → BandMapSpotCandidate
candidate call_dx received_at = record {
  received_at = received_at;
  spot_type = dx;
  source = text "cluster";
  call_de = text "W1AW";
  call_dx = call_dx;
  frequency_hz = 14025000;
  utc = 1200;
  loc = none;
  comment = none;
  rbn_spot = none;
  band_name = some (text "20m");
  radio_id = none;
  radio_name = none;
  log_id = none;
  exchange_fields = none;
}

abbrev never_same : Fields → Fields → Bool
never_same a b = false

empty_store-IsIndexed : IsIndexed empty_store
unfolding lookup
empty_store-IsIndexed = record {
  key_id = λ key id q. ground arith;
  id_key = λ id key q. ground arith;
  spot_key = λ id. refl;
  own_id = λ id spot q. ground arith;
  fresh = λ id l. refl;
}

abbrev one_store : BandMapSpotStore
one_store = (insert_spot (cluster_key 7) (candidate (text "K1ABC") 100) empty_store).0

one_store-IsIndexed : IsIndexed one_store
unfolding lookup
one_store-IsIndexed =
    (insert_spot-Stored (cluster_key 7) (candidate (text "K1ABC") 100) empty_store
      empty_store-IsIndexed (omega arith) refl).0

one_store-next_id : one_store.next_id ≡ 1
unfolding insert_spot log.BandMap.Store.insert_id_by_time lookup log.Base.Table.insert
one_store-next_id = refl

-- The same spot of the cluster, heard again.
upsert-Stored_example :
    (r : BandMapSpotStore × UpsertOutcome) × (upsert never_same
        (cluster_key 7)
        (candidate (text "K1ABC") 160)
        one_store
      ≡ some r)
    × Stored (cluster_key 7) r
upsert-Stored_example =
    upsert-Stored never_same (cluster_key 7) (candidate (text "K1ABC") 160) one_store
      one_store-IsIndexed (rw one_store-next_id (omega arith))

one_store-Ordered : Ordered one_store
unfolding lookup
one_store-Ordered =
    insert_spot-Ordered (cluster_key 7) (candidate (text "K1ABC") 100) empty_store
      empty_store-IsIndexed (omega arith) (tt, tt)

-- An older spot of another station.
upsert-Ordered_example :
    (r : BandMapSpotStore × UpsertOutcome) × (upsert never_same
        (cluster_key 8)
        (candidate (text "W2XYZ") 60)
        one_store
      ≡ some r)
    × Ordered r.0
upsert-Ordered_example =
    upsert-Ordered never_same (cluster_key 8) (candidate (text "W2XYZ") 60) one_store
      one_store-IsIndexed (rw one_store-next_id (omega arith)) one_store-Ordered

prune-IsIndexed_example : IsIndexed (prune 5000 3600 one_store).0
prune-IsIndexed_example = prune-IsIndexed 5000 3600 one_store one_store-IsIndexed

remove_cluster_source_spot-IsIndexed_example : IsIndexed (remove_cluster_source_spot 7 one_store).0
remove_cluster_source_spot-IsIndexed_example =
    remove_cluster_source_spot-IsIndexed 7 one_store one_store-IsIndexed

abbrev one_manager : BandMapManager
one_manager = record { bands = []; max_age = 3600; store = one_store }

abbrev logged : List Contact
unfolding build_contact
logged =
    build_contact nil (
      field (text "CALL") (string (text "W2XYZ")) (
        field (text "FREQ") (number (int (pos 7030000)))
          (field (text "QSO_DATE_TIME_ON") (number (int (pos 150))) nil)))
    ∷ []

sync_local_spots_for_log-IsIndexed_example :
    (r : BandMapManager × List BandMapEvent) × (sync_local_spots_for_log never_same 200
        (pos 1)
        logged
        one_manager
      ≡ some r)
    × IsIndexed r.0.store
unfolding logged
sync_local_spots_for_log-IsIndexed_example =
    sync_local_spots_for_log-IsIndexed never_same 200 (pos 1) logged one_manager one_store-IsIndexed
      (rw one_store-next_id (omega arith))

upsert_candidate-IsIndexed_example :
    (r : BandMapManager × List BandMapEvent) × (upsert_candidate never_same 200
        (cluster_key 8)
        (candidate (text "W2XYZ") 200)
        one_manager
      ≡ some r)
    × IsIndexed r.0.store
upsert_candidate-IsIndexed_example =
    upsert_candidate-IsIndexed never_same 200 (cluster_key 8) (candidate (text "W2XYZ") 200)
      one_manager one_store-IsIndexed (rw one_store-next_id (omega arith))

abbrev old_spot : BandMapSpot
old_spot = spot_of 1 (candidate (text "K1ABC") 100)

abbrev new_spot : BandMapSpot
new_spot = spot_of 2 (candidate (text "W2XYZ") 200)

abbrev two_store : BandMapSpotStore
two_store = record {
  next_id = 2;
  next_sequence = 2;
  ids_by_time = 1 ∷ 2 ∷ [];
  spots_by_id = (1, old_spot) ∷ (2, new_spot) ∷ [];
  id_by_key = (cluster_key 7, 1) ∷ (cluster_key 8, 2) ∷ [];
  key_by_id = (1, cluster_key 7) ∷ (2, cluster_key 8) ∷ [];
}

two_store-InOrder : InOrder two_store.spots_by_id two_store.ids_by_time
unfolding lookup
two_store-InOrder = ((λ x q. ((λ y r. ground arith), tt)), ((λ x q. tt), tt))

two_store-Listed :
    (j : ℕ) (x : BandMapSpot)
    → lookup j two_store.spots_by_id ≡ some x
    → Listed j two_store.ids_by_time
unfolding lookup
two_store-Listed j x q = ground arith

prune_lem_example :
    (lookup 2 (prune 500 350 two_store).0.spots_by_id ≡ some new_spot)
    ↔ ((lookup 2 two_store.spots_by_id ≡ some new_spot) × (500 - 350 ≤ new_spot.received_at))
prune_lem_example = prune_lem 500 350 two_store 2 new_spot two_store-InOrder two_store-Listed

abbrev night : TimeBonusPointRule
night = record {
  id = text "night";
  start_utc = text "22:00";
  end_utc = text "06:00";
  points = pos 3;
}

night-start : parse_utc_minute night.start_utc ≡ some 1320
unfolding parse_utc_minute log.Base.Text.split_once log.Base.Text.trim log.Base.Text.digits_from
    log.Base.Text.parse_unsigned
night-start = refl

night-end : parse_utc_minute night.end_utc ≡ some 360
unfolding parse_utc_minute log.Base.Text.split_once log.Base.Text.trim log.Base.Text.digits_from
    log.Base.Text.parse_unsigned
night-end = refl

time_bonus_example :
    time_bonus 30 night
    ≡ (if ltb (minutes_after 1320 30) (minutes_after 1320 360) then some (pos 3) else none)
time_bonus_example =
    time_bonus_lem night 1320 360 30 night-start night-end (λ e. ground arith) (omega arith)

abbrev no_float : Text → Option (Unit {0})
no_float s = none

abbrev plain_rule : DxccRule (Unit {0})
plain_rule = record {
  pattern_text = text "K";
  exact = false;
  entity_index = 0;
  cq_zone = none;
  itu_zone = none;
  continent = none;
  latitude = none;
  longitude = none;
  utc_offset = none;
}

parse_modifiers_fuel_example :
    Finished (parse_modifiers no_float 60 plain_rule (text "(4)[7]"))
    × (parse_modifiers no_float 60 plain_rule (text "(4)[7]")
        ≡ parse_modifiers no_float 6 plain_rule (text "(4)[7]"))
parse_modifiers_fuel_example =
    parse_modifiers_fuel no_float 60 plain_rule (text "(4)[7]") (omega arith)
