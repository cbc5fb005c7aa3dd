-- ===== src/BandMap/Indexed.antt =====
-- Agreement of the indexes in the band map's store (`BandMapSpotStore` of backend/src/bandmap.rs).
use log.Base.{
  ℕ, ◌-◌, ◌<◌, ◌≡◌, refl, none, some, List, [], ◌∷◌, arith, leb, is_some, inl, inr, Bool-cases,
  Option-cases,
}
use log.Base.Table.{lookup, insert, remove, same_iff, lookup-insert, lookup-remove, nat_eq}
use log.BandMap.Types.{
  BandMapSpot, BandMapDedupeKey, cluster_key, UpsertOutcome, inserted, updated, refreshed,
}
use log.BandMap.Key.{key_eq}
use log.BandMap.Store.{
  BandMapSpotStore, next_u64, insert_id_by_time, remove_by_id, prune_ids, prune, remove_spot,
  remove_cluster_source_spot,
}

-- Keys and ids lead to each other, the ids with a key are those with a spot, a spot has the id it is
-- stored at, and no id above the last one given has a key.
pub record IsIndexed (s : BandMapSpotStore) : Type 0 where
  pub key_id :
      (key : BandMapDedupeKey) (id : ℕ)
      → lookup key s.id_by_key ≡ some id
      → lookup id s.key_by_id ≡ some key
  pub id_key :
      (id : ℕ) (key : BandMapDedupeKey)
      → lookup id s.key_by_id ≡ some key
      → lookup key s.id_by_key ≡ some id
  pub spot_key : (id : ℕ) → is_some (lookup id s.spots_by_id) ≡ is_some (lookup id s.key_by_id)
  pub own_id : (id : ℕ) (spot : BandMapSpot) → lookup id s.spots_by_id ≡ some spot → spot.id ≡ id
  pub fresh : (id : ℕ) → s.next_id < id → lookup id s.key_by_id ≡ none

pub reordered :
    (s : BandMapSpotStore) (ids : List ℕ) → IsIndexed s → IsIndexed (record s { ids_by_time = ids })
reordered s ids h = record {
  key_id = h.key_id;
  id_key = h.id_key;
  spot_key = h.spot_key;
  own_id = h.own_id;
  fresh = h.fresh;
}

insert_id_by_time-IsIndexed :
    (id : ℕ) (s : BandMapSpotStore) → IsIndexed s → IsIndexed (insert_id_by_time id s)
unfolding insert_id_by_time
insert_id_by_time-IsIndexed id s h = elim (Option-cases (lookup id s.spots_by_id)) [
  | inl e ↦ rw (insert_id_by_time, e) h
  | inr (spot, e) ↦ rw (insert_id_by_time, e) (reordered s _ h)
]

-- Another spot at an id that has one.
pub respotted :
    (id : ℕ) (old spot : BandMapSpot) (s : BandMapSpotStore)
    → lookup id s.spots_by_id ≡ some old
    → spot.id ≡ id
    → IsIndexed s
    → IsIndexed (record s { spots_by_id = insert id spot s.spots_by_id })
respotted id old spot s e o h = record {
  key_id = h.key_id;
  id_key = h.id_key;
  spot_key = λ j.
      ground
        (arith, lookup-insert id j spot s.spots_by_id, h.spot_key id, h.spot_key j, same_iff id j);
  own_id = λ j x q.
      ground (arith, lookup-insert id j spot s.spots_by_id, h.own_id j x, same_iff id j, o);
  fresh = h.fresh;
}

abbrev pub spot_in : UpsertOutcome → BandMapSpot
spot_in (inserted spot) = spot
spot_in (updated spot) = spot
spot_in (refreshed spot) = spot

-- The store and the outcome of an upsert: the indexes agree, and the key leads to the spot.
abbrev pub Stored : BandMapDedupeKey → BandMapSpotStore × UpsertOutcome → Type 0
Stored key r =
    IsIndexed r.0
    × (lookup key r.0.id_by_key ≡ some (spot_in r.1).id)
    × (lookup (spot_in r.1).id r.0.spots_by_id ≡ some (spot_in r.1))

tables_kept :
    (id : ℕ) (s : BandMapSpotStore)
    → ((insert_id_by_time id s).spots_by_id ≡ s.spots_by_id)
      × ((insert_id_by_time id s).id_by_key ≡ s.id_by_key)
unfolding insert_id_by_time
tables_kept id s = elim (Option-cases (lookup id s.spots_by_id)) [
  | inl e ↦ (rw (insert_id_by_time, e) refl, rw (insert_id_by_time, e) refl)
  | inr (spot, e) ↦ (rw (insert_id_by_time, e) refl, rw (insert_id_by_time, e) refl)
]

pub insert_id_by_time-Stored :
    (key : BandMapDedupeKey) (id : ℕ) (s : BandMapSpotStore) (outcome : UpsertOutcome)
    → Stored key (s, outcome)
    → Stored key (insert_id_by_time id s, outcome)
insert_id_by_time-Stored key id s outcome h =
    let t = tables_kept id s in (insert_id_by_time-IsIndexed id s h.0, rw t.1 h.1, rw t.0 h.2)

-- A new id with its key and spot.
pub added :
    (key : BandMapDedupeKey) (id : ℕ) (spot : BandMapSpot) (s : BandMapSpotStore)
    → s.next_id < id
    → spot.id ≡ id
    → lookup key s.id_by_key ≡ none
    → IsIndexed s
    → IsIndexed (record s {
      next_id = id;
      id_by_key = insert key id s.id_by_key;
      key_by_id = insert id key s.key_by_id;
      spots_by_id = insert id spot s.spots_by_id;
    })
added key id spot s l o e h = record {
  key_id = λ k j q. ground (
    arith,
    lookup-insert key k id s.id_by_key,
    lookup-insert id j key s.key_by_id,
    h.key_id k j,
    h.fresh id l,
    same_iff id j,
    same_iff key k,
  );
  id_key = λ j k q. ground (
    arith,
    lookup-insert key k id s.id_by_key,
    lookup-insert id j key s.key_by_id,
    h.id_key j k,
    same_iff id j,
    same_iff key k,
  );
  spot_key = λ j. ground (
    arith,
    lookup-insert id j spot s.spots_by_id,
    lookup-insert id j key s.key_by_id,
    h.spot_key j,
  );
  own_id = λ j x q.
      ground (arith, lookup-insert id j spot s.spots_by_id, h.own_id j x, same_iff id j, o);
  fresh = λ j m. ground (arith, lookup-insert id j key s.key_by_id, h.fresh j, same_iff id j);
}

-- A spot goes with its key.
removed :
    (id : ℕ) (key : BandMapDedupeKey) (sequence : ℕ) (s : BandMapSpotStore)
    → lookup id s.key_by_id ≡ some key
    → IsIndexed s
    → IsIndexed (record s {
      spots_by_id = remove id s.spots_by_id;
      key_by_id = remove id s.key_by_id;
      id_by_key = remove key s.id_by_key;
      next_sequence = sequence;
    })
removed id key sequence s e h = record {
  key_id = λ k j q. ground (
    arith,
    lookup-remove key k s.id_by_key,
    lookup-remove id j s.key_by_id,
    h.key_id k j,
    h.id_key id key e,
    h.id_key j k,
    same_iff id j,
    same_iff key k,
  );
  id_key = λ j k q. ground (
    arith,
    lookup-remove key k s.id_by_key,
    lookup-remove id j s.key_by_id,
    h.id_key j k,
    h.id_key j key,
    h.id_key id key e,
    same_iff id j,
    same_iff key k,
  );
  spot_key = λ j.
      ground
        (arith, lookup-remove id j s.spots_by_id, lookup-remove id j s.key_by_id, h.spot_key j);
  own_id = λ j x q. ground (arith, lookup-remove id j s.spots_by_id, h.own_id j x, same_iff id j);
  fresh = λ j m. ground (arith, lookup-remove id j s.key_by_id, h.fresh j m);
}

has_key :
    (id : ℕ) (s : BandMapSpotStore) (spot : BandMapSpot)
    → IsIndexed s
    → lookup id s.spots_by_id ≡ some spot
    → (key : BandMapDedupeKey) × (lookup id s.key_by_id ≡ some key)
has_key id s spot h e = elim (Option-cases (lookup id s.key_by_id)) [
  | inl n ↦ absurd (let x = h.spot_key id in ground arith)
  | inr k ↦ k
]

pub remove_by_id-IsIndexed :
    (id : ℕ) (s : BandMapSpotStore) → IsIndexed s → IsIndexed (remove_by_id id s).0
unfolding remove_by_id
remove_by_id-IsIndexed id s h = elim (Option-cases (lookup id s.spots_by_id)) [
  | inl e ↦ rw (remove_by_id, e) h
  | inr (spot, e) ↦
      let k = has_key id s spot h e in
      rw (remove_by_id, e, k.1) (removed id k.0 (next_u64 s.next_sequence) s k.1 h)
]

prune_ids-IsIndexed :
    (cutoff : ℕ) (ids : List ℕ) (s : BandMapSpotStore)
    → IsIndexed s
    → IsIndexed (prune_ids cutoff ids s).0
unfolding prune_ids
prune_ids-IsIndexed cutoff [] s h = reordered s [] h
prune_ids-IsIndexed cutoff (id ∷ ids) s h = elim (Option-cases (lookup id s.spots_by_id)) [
  | inl e ↦ rw (prune_ids, e) (prune_ids-IsIndexed cutoff ids s h)
  | inr (spot, e) ↦ elim (Bool-cases (leb cutoff spot.received_at)) [
    | inl b ↦ rw (prune_ids, e, b) (reordered s (id ∷ ids) h)
    | inr b ↦
        rw (prune_ids, e, b)
          (prune_ids-IsIndexed cutoff ids (remove_by_id id s).0 (remove_by_id-IsIndexed id s h))
  ]
]

-- Pruning keeps the indexes in agreement.
pub prune-IsIndexed :
    (now max_age : ℕ) (s : BandMapSpotStore) → IsIndexed s → IsIndexed (prune now max_age s).0
unfolding prune
prune-IsIndexed now max_age s h = prune_ids-IsIndexed (now - max_age) s.ids_by_time s h

pub remove_spot-IsIndexed :
    (id : ℕ) (s : BandMapSpotStore) → IsIndexed s → IsIndexed (remove_spot id s).0
unfolding remove_spot
remove_spot-IsIndexed id s h = remove_by_id-IsIndexed id _ (reordered s _ h)

-- Removing the spot of a cluster keeps the indexes in agreement.
pub remove_cluster_source_spot-IsIndexed :
    (source_id : ℕ) (s : BandMapSpotStore)
    → IsIndexed s
    → IsIndexed (remove_cluster_source_spot source_id s).0
unfolding remove_cluster_source_spot
remove_cluster_source_spot-IsIndexed source_id s h =
    elim (Option-cases (lookup (cluster_key source_id) s.id_by_key)) [
      | inl e ↦ rw (remove_cluster_source_spot, e) h
      | inr (id, e) ↦ rw (remove_cluster_source_spot, e) (remove_spot-IsIndexed id s h)
    ]
