-- ===== src/BandMap/UpsertOrder.antt =====
-- Storing a spot and the order in time (`upsert` of `BandMapSpotStore`, backend/src/bandmap.rs).
use log.Base.{
  ℕ, ◌<◌, ◌≡◌, refl, Bool, not, none, some, arith, inl, inr, Option-cases, ◌==◌, select,
  if◌then◌else◌,
}
use log.Base.Table.{lookup, insert, same_refl, lookup-insert, nat_eq}
use log.Contact.{Fields}
use log.BandMap.Types.{
  BandMapSpot, BandMapSpotCandidate, BandMapDedupeKey, UpsertOutcome, updated, refreshed,
}
use log.BandMap.Key.{key_eq}
use log.BandMap.Store.{
  BandMapSpotStore, max_u64, next_u64, spot_of, insert_id_by_time, reinsert_id_by_time, update_spot,
  insert_spot, upsert, spot_visible_fields_changed,
}
use log.BandMap.Indexed.{IsIndexed}
use log.BandMap.Upsert.{spot_there, next_u64-lt}
use log.BandMap.Order.{
  Ordered, insert_id_by_time-Ordered, InOrder-insert, AllKnown-insert, unlisted, unknown_unlisted,
  InOrder-select, AllKnown-select,
}

new_id :
    (s : BandMapSpotStore)
    → IsIndexed s
    → s.next_id < max_u64
    → lookup (next_u64 s.next_id) s.spots_by_id ≡ none
new_id s h l =
    let k = h.spot_key (next_u64 s.next_id) in
    let f = h.fresh (next_u64 s.next_id) (next_u64-lt s.next_id l) in
    elim (Option-cases (lookup (next_u64 s.next_id) s.spots_by_id)) [
      | inl e ↦ e
      | inr (spot, e) ↦ absurd (ground arith)
    ]

pub insert_spot-Ordered :
    (key : BandMapDedupeKey) (candidate : BandMapSpotCandidate) (s : BandMapSpotStore)
    → IsIndexed s
    → s.next_id < max_u64
    → Ordered s
    → Ordered (insert_spot key candidate s).0
unfolding insert_spot
insert_spot-Ordered key candidate s h l o =
    let id = next_u64 s.next_id in
    let spot = spot_of id candidate in
    let n = unknown_unlisted s.spots_by_id id s.ids_by_time o.1 (new_id s h l) in
    insert_id_by_time-Ordered id _ spot
      (rw (lookup-insert id id spot s.spots_by_id, same_refl id) refl)
      (
        InOrder-insert s.spots_by_id id spot s.ids_by_time n o.0,
        AllKnown-insert s.spots_by_id id spot s.ids_by_time n o.1,
      )

update_spot-Ordered :
    (same_fields : Fields → Fields → Bool) (id : ℕ) (candidate : BandMapSpotCandidate)
    (old : BandMapSpot) (s : BandMapSpotStore)
    → lookup id s.spots_by_id ≡ some old
    → Ordered s
    → (r : BandMapSpotStore × UpsertOutcome) × (update_spot same_fields id candidate s ≡ some r)
      × Ordered r.0
unfolding update_spot reinsert_id_by_time
update_spot-Ordered same_fields id candidate old s e o =
    let spot = spot_of old.id candidate in
    let test : ℕ → Bool = λ j. not (j == id) in
    let ids = select test s.ids_by_time in
    let n = unlisted id s.ids_by_time in
    let t : BandMapSpotStore = record s {
      spots_by_id = insert id spot s.spots_by_id;
      ids_by_time = ids;
    } in
    let changed = spot_visible_fields_changed same_fields old candidate in
    (
      (insert_id_by_time id t, (if changed then updated spot else refreshed spot)),
      rw (update_spot, e) refl,
      insert_id_by_time-Ordered id t spot
          (rw (lookup-insert id id spot s.spots_by_id, same_refl id) refl)
          (
            InOrder-insert s.spots_by_id id spot ids n
                (InOrder-select test s.spots_by_id s.ids_by_time o.0),
            AllKnown-insert s.spots_by_id id spot ids n
                (AllKnown-select test s.spots_by_id s.ids_by_time o.1),
          ),
    )

-- Storing a spot, while ids are left, keeps the ids in the order of time and known, if they are so
-- before and the indexes agree.
pub upsert-Ordered :
    (same_fields : Fields → Fields → Bool) (key : BandMapDedupeKey)
    (candidate : BandMapSpotCandidate) (s : BandMapSpotStore)
    → IsIndexed s
    → s.next_id < max_u64
    → Ordered s
    → (r : BandMapSpotStore × UpsertOutcome) × (upsert same_fields key candidate s ≡ some r)
      × Ordered r.0
unfolding upsert
upsert-Ordered same_fields key candidate s h l o = elim (Option-cases (lookup key s.id_by_key)) [
  | inl e ↦
      (insert_spot key candidate s, rw (upsert, e) refl, insert_spot-Ordered key candidate s h l o)
  | inr (id, e) ↦
      let there = spot_there id key s h e in
      rw (upsert, e) (update_spot-Ordered same_fields id candidate there.0 s there.1 o)
]
