-- ===== src/BandMap/Upsert.antt =====
-- Storing a spot (`upsert` of `BandMapSpotStore`, backend/src/bandmap.rs).
use log.Base.{
  List, select, not, ◌==◌, ℕ, ◌<◌, ◌≡◌, refl, Bool, true, false, none, some, arith, inl, inr,
  Option-cases, if◌then◌else◌,
}
use log.Base.Table.{lookup, insert, same_refl, lookup-insert, nat_eq}
use log.Contact.{Fields}
use log.BandMap.Types.{
  BandMapSpot, BandMapSpotCandidate, BandMapDedupeKey, UpsertOutcome, inserted, updated, refreshed,
}
use log.BandMap.Key.{key_eq}
use log.BandMap.Store.{
  BandMapSpotStore, max_u64, next_u64, spot_of, insert_id_by_time, reinsert_id_by_time, update_spot,
  insert_spot, upsert, spot_visible_fields_changed,
}
use log.BandMap.Indexed.{
  IsIndexed, Stored, spot_in, reordered, respotted, added, insert_id_by_time-Stored,
}

spot_in-if :
    (b : Bool) (spot : BandMapSpot) → spot_in (if b then updated spot else refreshed spot) ≡ spot
spot_in-if true spot = refl
spot_in-if false spot = refl

pub next_u64-lt : (n : ℕ) → n < max_u64 → n < next_u64 n
next_u64-lt n h = ground arith

pub insert_spot-Stored :
    (key : BandMapDedupeKey) (candidate : BandMapSpotCandidate) (s : BandMapSpotStore)
    → IsIndexed s
    → s.next_id < max_u64
    → lookup key s.id_by_key ≡ none
    → Stored key (insert_spot key candidate s)
unfolding insert_spot
insert_spot-Stored key candidate s h l e =
    let id = next_u64 s.next_id in
    let spot = spot_of id candidate in
    insert_id_by_time-Stored key id _ (inserted spot) (
      added key id spot s (next_u64-lt s.next_id l) refl e h,
      rw (lookup-insert key key id s.id_by_key, same_refl key) refl,
      rw (lookup-insert id id spot s.spots_by_id, same_refl id) refl,
    )

pub spot_there :
    (id : ℕ) (key : BandMapDedupeKey) (s : BandMapSpotStore)
    → IsIndexed s
    → lookup key s.id_by_key ≡ some id
    → (spot : BandMapSpot) × (lookup id s.spots_by_id ≡ some spot)
spot_there id key s h e = elim (Option-cases (lookup id s.spots_by_id)) [
  | inl n ↦ absurd (let x = h.spot_key id in let y = h.key_id key id e in ground arith)
  | inr k ↦ k
]

update_spot-Stored :
    (same_fields : Fields → Fields → Bool) (key : BandMapDedupeKey) (id : ℕ)
    (candidate : BandMapSpotCandidate) (old : BandMapSpot) (s : BandMapSpotStore)
    → IsIndexed s
    → lookup key s.id_by_key ≡ some id
    → lookup id s.spots_by_id ≡ some old
    → (r : BandMapSpotStore × UpsertOutcome) × (update_spot same_fields id candidate s ≡ some r)
      × Stored key r
unfolding update_spot reinsert_id_by_time
update_spot-Stored same_fields key id candidate old s h k e =
    let o = h.own_id id old e in
    let spot = spot_of old.id candidate in
    let changed = spot_visible_fields_changed same_fields old candidate in
    let ids : List ℕ = select (λ current_id. not (current_id == id)) s.ids_by_time in
    let t : BandMapSpotStore = record s {
      spots_by_id = insert id spot s.spots_by_id;
      ids_by_time = ids;
    } in
    let stored : Stored key (t, refreshed spot) = (
      reordered _ ids (respotted id old spot s e o h),
      rw (k, o) refl,
      rw (lookup-insert id old.id spot s.spots_by_id, o, same_refl id) refl,
    ) in
    let moved = insert_id_by_time-Stored key id t (refreshed spot) stored in
    (
      (insert_id_by_time id t, (if changed then updated spot else refreshed spot)),
      rw (update_spot, e) refl,
      (moved.0, rw (spot_in-if changed spot) moved.1, rw (spot_in-if changed spot) moved.2),
    )

-- Storing a spot in a store whose indexes agree, while ids are left, never meets the
-- unreachable case. The indexes still agree, and the key leads to the spot that is returned.
pub upsert-Stored :
    (same_fields : Fields → Fields → Bool) (key : BandMapDedupeKey)
    (candidate : BandMapSpotCandidate) (s : BandMapSpotStore)
    → IsIndexed s
    → s.next_id < max_u64
    → (r : BandMapSpotStore × UpsertOutcome) × (upsert same_fields key candidate s ≡ some r)
      × Stored key r
unfolding upsert
upsert-Stored same_fields key candidate s h l = elim (Option-cases (lookup key s.id_by_key)) [
  | inl e ↦
      (insert_spot key candidate s, rw (upsert, e) refl, insert_spot-Stored key candidate s h l e)
  | inr (id, e) ↦
      let o = spot_there id key s h e in
      rw (upsert, e) (update_spot-Stored same_fields key id candidate o.0 s h e o.1)
]
