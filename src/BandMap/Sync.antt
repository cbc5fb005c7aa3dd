-- ===== src/BandMap/Sync.antt =====
-- The manager's operations on the band map's store (backend/src/bandmap.rs).
use log.Base.{
  ℕ, ◌+◌, ◌-◌, ◌<◌, ◌≤◌, ◌≡◌, ◌∙◌, refl, Bool, Option, none, some, List, [], ◌∷◌, ◌++◌, arith, inl,
  inr, Option-cases, Bool-cases, ltb, leb, length,
}
use log.Base.Int.{ℤ}
use log.Base.Table.{Table, lookup, insert, same, contains_key, nat_eq}
use log.Bands.{Band}
use log.Contact.{Contact, Fields}
use log.BandMap.Types.{
  BandMapSpotCandidate, BandMapDedupeKey, BandMapEvent, UpsertOutcome, inserted, updated, refreshed,
}
use log.BandMap.Key.{key_eq}
use log.BandMap.Store.{
  BandMapSpotStore, max_u64, next_u64, insert_id_by_time, reinsert_id_by_time, update_spot,
  insert_spot, upsert, remove_by_id, prune_ids, prune, local_keys_for_log,
}
use log.BandMap.Indexed.{IsIndexed, prune-IsIndexed, remove_by_id-IsIndexed}
use log.BandMap.Upsert.{upsert-Stored}
use log.BandMap.Manager.{
  BandMapManager, announce, upsert_candidate, upsert_all, keep_latest, desired_spots,
  local_spot_candidate, want, remove_unless_desired, remove_unwanted, sync_local_spots_for_log,
}

renumbered :
    (s : BandMapSpotStore) (n : ℕ) → IsIndexed s → IsIndexed (record s { next_sequence = n })
renumbered s n h = record {
  key_id = h.key_id;
  id_key = h.id_key;
  spot_key = h.spot_key;
  own_id = h.own_id;
  fresh = h.fresh;
}

announced :
    (r : BandMapSpotStore × UpsertOutcome)
    → IsIndexed r.0
    → IsIndexed (announce r).0 × ((announce r).0.next_id ≡ r.0.next_id)
unfolding announce
announced (s, inserted spot) h = (renumbered s _ h, refl)
announced (s, updated spot) h = (renumbered s _ h, refl)
announced (s, refreshed spot) h = (h, refl)

ordered-next_id : (id : ℕ) (s : BandMapSpotStore) → (insert_id_by_time id s).next_id ≡ s.next_id
unfolding insert_id_by_time
ordered-next_id id s = elim (Option-cases (lookup id s.spots_by_id)) [
  | inl e ↦ rw (insert_id_by_time, e) refl
  | inr (spot, e) ↦ rw (insert_id_by_time, e) refl
]

next_u64-le : (n : ℕ) → next_u64 n ≤ n + 1
next_u64-le n = ground arith

abbrev AtMost : ℕ → Option (BandMapSpotStore × UpsertOutcome) → Type 0
AtMost n none = Unit {0}
AtMost n (some r) = r.0.next_id ≤ n

-- A spot takes one id at most.
upsert-AtMost :
    (same_fields : Fields → Fields → Bool) (key : BandMapDedupeKey)
    (candidate : BandMapSpotCandidate) (s : BandMapSpotStore)
    → AtMost (s.next_id + 1) (upsert same_fields key candidate s)
unfolding upsert update_spot insert_spot reinsert_id_by_time
upsert-AtMost same_fields key candidate s = elim (Option-cases (lookup key s.id_by_key)) [
  | inl e ↦ rw (upsert, e, ordered-next_id) (next_u64-le s.next_id)
  | inr (id, e) ↦ elim (Option-cases (lookup id s.spots_by_id)) [
    | inl n ↦ rw (upsert, e, update_spot, n) tt
    | inr (old, o) ↦ rw (upsert, e, update_spot, o, ordered-next_id) (omega arith)
  ]
]

-- Storing spots one after another, while there are ids for all of them.
upsert_all-IsIndexed :
    (same_fields : Fields → Fields → Bool)
    (desired : List (BandMapDedupeKey × BandMapSpotCandidate)) (s : BandMapSpotStore)
    → IsIndexed s
    → s.next_id + length desired ≤ max_u64
    → (r : BandMapSpotStore × List BandMapEvent) × (upsert_all same_fields desired s ≡ some r)
      × IsIndexed r.0
unfolding upsert_all
upsert_all-IsIndexed same_fields [] s h l = ((s, []), refl, h)
upsert_all-IsIndexed same_fields ((key, candidate) ∷ desired) s h l =
    let u = upsert-Stored same_fields key candidate s h (omega arith) in
    let a = announced u.0 u.2.0 in
    let b : u.0.0.next_id ≤ s.next_id + 1 =
      (let m = upsert-AtMost same_fields key candidate s in rw u.1 at m) in
    let ih =
      upsert_all-IsIndexed same_fields desired (announce u.0).0 a.0
        (rw a.1 (omega (arith, b, l))) in
    ((ih.0.0, (announce u.0).1 ++ ih.0.1), rw (upsert_all, u.1, ih.1) refl, ih.2)

insert-length :
    (key : BandMapDedupeKey) (candidate : BandMapSpotCandidate)
    (m : Table BandMapDedupeKey BandMapSpotCandidate)
    → length (insert key candidate m) ≤ length m + 1
unfolding insert
insert-length key candidate [] = omega arith
insert-length key candidate ((k, c) ∷ m) = elim (Bool-cases (same k key)) [
  | inl e ↦ rw e (omega arith)
  | inr e ↦ rw e (let ih = insert-length key candidate m in omega arith)
]

keep_latest-length :
    (key : BandMapDedupeKey) (candidate : BandMapSpotCandidate)
    (m : Table BandMapDedupeKey BandMapSpotCandidate)
    → length (keep_latest key candidate m) ≤ length m + 1
unfolding keep_latest
keep_latest-length key candidate m = elim (Option-cases (lookup key m)) [
  | inl e ↦ rw (keep_latest, e) (insert-length key candidate m)
  | inr (old, e) ↦ elim (Bool-cases (leb candidate.received_at old.received_at)) [
    | inl b ↦ rw (keep_latest, e, b) (omega arith)
    | inr b ↦ rw (keep_latest, e, b) (insert-length key candidate m)
  ]
]

want-length :
    (cutoff : ℕ) (log_id : ℤ) (o : Option BandMapSpotCandidate)
    (m : Table BandMapDedupeKey BandMapSpotCandidate)
    → length (want cutoff log_id o m) ≤ length m + 1
want-length cutoff log_id none m = omega arith
want-length cutoff log_id (some c) m = elim (Bool-cases (ltb c.received_at cutoff)) [
  | inl b ↦ rw b (omega arith)
  | inr b ↦ rw b (keep_latest-length _ c m)
]

-- No more spots are desired than there are contacts.
desired_spots-length :
    (bands : List Band) (cutoff : ℕ) (log_id : ℤ) (contacts : List Contact)
    (m : Table BandMapDedupeKey BandMapSpotCandidate)
    → length (desired_spots bands cutoff log_id contacts m) ≤ length m + length contacts
unfolding desired_spots
desired_spots-length bands cutoff log_id [] m = omega arith
desired_spots-length bands cutoff log_id (c ∷ cs) m =
    let next = want cutoff log_id (local_spot_candidate bands log_id c) m in
    let w = want-length cutoff log_id (local_spot_candidate bands log_id c) m in
    let ih = desired_spots-length bands cutoff log_id cs next in omega (arith, w, ih)

remove_unless_desired-IsIndexed :
    (desired : Table BandMapDedupeKey BandMapSpotCandidate) (key : BandMapDedupeKey)
    (s : BandMapSpotStore)
    → IsIndexed s
    → IsIndexed (remove_unless_desired desired key s).0
unfolding remove_unless_desired
remove_unless_desired-IsIndexed desired key s h = elim (Bool-cases (contains_key key desired)) [
  | inl b ↦ rw (remove_unless_desired, b) h
  | inr b ↦ elim (Option-cases (lookup key s.id_by_key)) [
    | inl e ↦ rw (remove_unless_desired, b, e) h
    | inr (id, e) ↦ rw (remove_unless_desired, b, e) (remove_by_id-IsIndexed id s h)
  ]
]

remove_unwanted-IsIndexed :
    (desired : Table BandMapDedupeKey BandMapSpotCandidate) (existing : List BandMapDedupeKey)
    (s : BandMapSpotStore)
    → IsIndexed s
    → IsIndexed (remove_unwanted desired existing s).0
unfolding remove_unwanted
remove_unwanted-IsIndexed desired [] s h = h
remove_unwanted-IsIndexed desired (key ∷ existing) s h =
    remove_unwanted-IsIndexed desired existing _ (remove_unless_desired-IsIndexed desired key s h)

remove_by_id-next_id : (id : ℕ) (s : BandMapSpotStore) → (remove_by_id id s).0.next_id ≡ s.next_id
unfolding remove_by_id
remove_by_id-next_id id s = elim (Option-cases (lookup id s.spots_by_id)) [
  | inl e ↦ rw (remove_by_id, e) refl
  | inr (spot, e) ↦ rw (remove_by_id, e) refl
]

prune_ids-next_id :
    (cutoff : ℕ) (ids : List ℕ) (s : BandMapSpotStore)
    → (prune_ids cutoff ids s).0.next_id ≡ s.next_id
unfolding prune_ids
prune_ids-next_id cutoff [] s = refl
prune_ids-next_id cutoff (id ∷ ids) s = elim (Option-cases (lookup id s.spots_by_id)) [
  | inl e ↦ rw (prune_ids, e) (prune_ids-next_id cutoff ids s)
  | inr (spot, e) ↦ elim (Bool-cases (leb cutoff spot.received_at)) [
    | inl b ↦ rw (prune_ids, e, b) refl
    | inr b ↦
        rw (prune_ids, e, b)
          (prune_ids-next_id cutoff ids (remove_by_id id s).0 ∙ remove_by_id-next_id id s)
  ]
]

pruned-next_id :
    (now max_age : ℕ) (s : BandMapSpotStore) → (prune now max_age s).0.next_id ≡ s.next_id
unfolding prune
pruned-next_id now max_age s = prune_ids-next_id (now - max_age) s.ids_by_time s

-- Bringing the band map in line with a log, while there is an id left for each contact, never
-- meets the unreachable case, and the indexes agree afterwards.
pub sync_local_spots_for_log-IsIndexed :
    (same_fields : Fields → Fields → Bool) (now : ℕ) (log_id : ℤ) (contacts : List Contact)
    (m : BandMapManager)
    → IsIndexed m.store
    → m.store.next_id + length contacts ≤ max_u64
    → (r : BandMapManager × List BandMapEvent) × (sync_local_spots_for_log same_fields now log_id
          contacts m
        ≡ some r)
      × IsIndexed r.0.store
unfolding sync_local_spots_for_log
sync_local_spots_for_log-IsIndexed same_fields now log_id contacts m h l =
    let desired = desired_spots m.bands (now - m.max_age) log_id contacts [] in
    let pruned = prune now m.max_age m.store in
    let few = desired_spots-length m.bands (now - m.max_age) log_id contacts [] in
    let room : pruned.0.next_id + length desired ≤ max_u64 =
      rw (pruned-next_id now m.max_age m.store) (omega (arith, few, l)) in
    let stored =
      upsert_all-IsIndexed same_fields desired pruned.0 (prune-IsIndexed now m.max_age m.store h)
        room in
    let kept = remove_unwanted desired (local_keys_for_log log_id pruned.0) stored.0.0 in
    (
      (record m { store = kept.0 }, pruned.1 ++ stored.0.1 ++ kept.1),
      rw stored.1 refl,
      remove_unwanted-IsIndexed desired (local_keys_for_log log_id pruned.0) stored.0.0 stored.2,
    )

-- The manager's upsert of a spot, while ids are left, never meets the unreachable case, and the
-- indexes agree afterwards.
pub upsert_candidate-IsIndexed :
    (same_fields : Fields → Fields → Bool) (now : ℕ) (key : BandMapDedupeKey)
    (candidate : BandMapSpotCandidate) (m : BandMapManager)
    → IsIndexed m.store
    → m.store.next_id < max_u64
    → (r : BandMapManager × List BandMapEvent) × (upsert_candidate same_fields now key candidate m
        ≡ some r)
      × IsIndexed r.0.store
unfolding upsert_candidate
upsert_candidate-IsIndexed same_fields now key candidate m h l =
    let pruned = prune now m.max_age m.store in
    let room : pruned.0.next_id < max_u64 = rw (pruned-next_id now m.max_age m.store) l in
    let u =
      upsert-Stored same_fields key candidate pruned.0 (prune-IsIndexed now m.max_age m.store h)
        room in
    (
      (record m { store = (announce u.0).0 }, pruned.1 ++ (announce u.0).1),
      rw u.1 refl,
      (announced u.0 u.2.0).0,
    )
