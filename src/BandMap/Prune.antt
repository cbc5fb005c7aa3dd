-- ===== src/BandMap/Prune.antt =====
-- Which spots pruning leaves on the band map (`prune` of backend/src/bandmap.rs).
use log.Base.{
  ℕ, ◌-◌, ◌≤◌, ◌≡◌, ◌↔◌, ◌⊎◌, ◌∙◌, sym, refl, false, none, some, List, [], ◌∷◌, arith, inl, inr,
  Option-cases, Bool-cases, leb,
}
use log.Base.Table.{Table, lookup, remove, same, same_iff, lookup-remove, nat_eq}
use log.BandMap.Types.{BandMapSpot}
use log.BandMap.Store.{BandMapSpotStore, remove_by_id, prune_ids, prune}

abbrev pub Spots : Type 0
Spots = Table ℕ BandMapSpot

abbrev pub Listed : ℕ → List ℕ → Type 0
Listed id [] = ⊥
Listed id (j ∷ ids) = (id ≡ j) ⊎ Listed id ids

-- No spot under these ids is older than a time.
abbrev pub AllFrom : Spots → ℕ → List ℕ → Type 0
AllFrom spots time [] = Unit {0}
AllFrom spots time (id ∷ ids) =
    ((spot : BandMapSpot) → lookup id spots ≡ some spot → time ≤ spot.received_at)
    × AllFrom spots time ids

abbrev pub InOrder : Spots → List ℕ → Type 0
InOrder spots [] = Unit {0}
InOrder spots (id ∷ ids) =
    ((spot : BandMapSpot) → lookup id spots ≡ some spot → AllFrom spots spot.received_at ids)
    × InOrder spots ids

abbrev Within : Spots → Spots → Type 0
Within a b = (id : ℕ) (spot : BandMapSpot) → lookup id a ≡ some spot → lookup id b ≡ some spot

AllFrom-Within :
    (a b : Spots) (time : ℕ) (ids : List ℕ) → Within a b → AllFrom b time ids → AllFrom a time ids
AllFrom-Within a b time [] w h = tt
AllFrom-Within a b time (id ∷ ids) w h =
    ((λ spot q. h.0 spot (w id spot q)), AllFrom-Within a b time ids w h.1)

InOrder-Within : (a b : Spots) (ids : List ℕ) → Within a b → InOrder b ids → InOrder a ids
InOrder-Within a b [] w h = tt
InOrder-Within a b (id ∷ ids) w h = (
  (λ spot q. AllFrom-Within a b spot.received_at ids w (h.0 spot (w id spot q))),
  InOrder-Within a b ids w h.1,
)

AllFrom-Listed :
    (spots : Spots) (time : ℕ) (ids : List ℕ) (id : ℕ) (spot : BandMapSpot)
    → AllFrom spots time ids
    → Listed id ids
    → lookup id spots ≡ some spot
    → time ≤ spot.received_at
AllFrom-Listed spots time [] id spot h m q = elim m [ ]
AllFrom-Listed spots time (j ∷ ids) id spot h (inl e) q = h.0 spot (rw e at q)
AllFrom-Listed spots time (j ∷ ids) id spot h (inr m) q =
    AllFrom-Listed spots time ids id spot h.1 m q

remove-Within : (id : ℕ) (spots : Spots) → Within (remove id spots) spots
remove-Within id spots j x q = ground (arith, lookup-remove id j spots)

removed_spots :
    (id : ℕ) (s : BandMapSpotStore) (spot : BandMapSpot)
    → lookup id s.spots_by_id ≡ some spot
    → (remove_by_id id s).0.spots_by_id ≡ remove id s.spots_by_id
unfolding remove_by_id
removed_spots id s spot e = rw (remove_by_id, e) refl

-- What the rest of the loop is about: every spot is listed, or is recent enough.
abbrev ListedOrFrom : ℕ → List ℕ → Spots → Type 0
ListedOrFrom cutoff ids spots =
    (id : ℕ) (spot : BandMapSpot)
    → lookup id spots ≡ some spot
    → Listed id ids ⊎ (cutoff ≤ spot.received_at)

next_listed :
    (cutoff id : ℕ) (ids : List ℕ) (spots : Spots)
    → ListedOrFrom cutoff (id ∷ ids) spots
    → ListedOrFrom cutoff ids (remove id spots)
next_listed cutoff id ids spots h j x q = elim (h j x (remove-Within id spots j x q)) [
  | inl (inl e) ↦ absurd (ground (arith, lookup-remove id j spots, same_iff id j))
  | inl (inr m) ↦ inl m
  | inr l ↦ inr l
]

stale_listed :
    (cutoff id : ℕ) (ids : List ℕ) (spots : Spots)
    → lookup id spots ≡ none
    → ListedOrFrom cutoff (id ∷ ids) spots
    → ListedOrFrom cutoff ids spots
stale_listed cutoff id ids spots n h j x q = elim (h j x q) [
  | inl (inl e) ↦ absurd (let y : lookup id spots ≡ some x = rw e at q in ground arith)
  | inl (inr m) ↦ inl m
  | inr l ↦ inr l
]

pub same_spot :
    (cutoff id : ℕ) (spots : Spots) (a b : BandMapSpot)
    → lookup id spots ≡ some a
    → lookup id spots ≡ some b
    → cutoff ≤ a.received_at
    → cutoff ≤ b.received_at
same_spot cutoff id spots a b e q l = let k : some a ≡ some b = sym e ∙ q in ground arith

-- Nothing too old is left.
prune_ids-from :
    (cutoff : ℕ) (ids : List ℕ) (s : BandMapSpotStore)
    → InOrder s.spots_by_id ids
    → ListedOrFrom cutoff ids s.spots_by_id
    → (j : ℕ) (x : BandMapSpot) → lookup j (prune_ids cutoff ids s).0.spots_by_id ≡ some x
    → (lookup j s.spots_by_id ≡ some x) × (cutoff ≤ x.received_at)
unfolding prune_ids
prune_ids-from cutoff [] s o h j x q = (q, (elim (h j x q) [ inl m ↦ elim m [ ] | inr l ↦ l ]))
prune_ids-from cutoff (id ∷ ids) s o h j x q = elim (Option-cases (lookup id s.spots_by_id)) [
  | inl e ↦
      prune_ids-from cutoff ids s o.1 (stale_listed cutoff id ids s.spots_by_id e h) j x
        (rw (prune_ids, e) at q)
  | inr (spot, e) ↦ elim (Bool-cases (leb cutoff spot.received_at)) [
    | inl b ↦
        let r : lookup j s.spots_by_id ≡ some x = rw (prune_ids, e, b) at q in
        (
          r,
          elim (h j x r) [
            | inl (inl g) ↦ same_spot cutoff id s.spots_by_id spot x e (rw g at r) (ground arith)
            | inl (inr m) ↦
                (let k = AllFrom-Listed s.spots_by_id spot.received_at ids j x (o.0 spot e) m r in
                  ground arith)
            | inr l ↦ l
          ],
        )
    | inr b ↦
        let rest = (remove_by_id id s).0 in
        let t = removed_spots id s spot e in
        let w = remove-Within id s.spots_by_id in
        let ih =
          prune_ids-from cutoff ids rest
            (rw t (InOrder-Within (remove id s.spots_by_id) s.spots_by_id ids w o.1))
            (rw t (next_listed cutoff id ids s.spots_by_id h)) j x (rw (prune_ids, e, b) at q) in
        (w j x (rw t at ih.0), ih.1)
  ]
]

not_removed :
    (cutoff id j : ℕ) (spots : Spots) (old x : BandMapSpot)
    → lookup id spots ≡ some old
    → leb cutoff old.received_at ≡ false
    → lookup j spots ≡ some x
    → cutoff ≤ x.received_at
    → same id j ≡ false
not_removed cutoff id j spots old x e b q l = elim (Bool-cases (same id j)) [
  | inl g ↦
      let i : id ≡ j = (same_iff id j).0 g in
      absurd (let k = same_spot cutoff j spots x old q (rw i at e) l in ground arith)
  | inr g ↦ g
]

-- What is recent enough stays.
prune_ids-kept :
    (cutoff : ℕ) (ids : List ℕ) (s : BandMapSpotStore) (j : ℕ) (x : BandMapSpot)
    → lookup j s.spots_by_id ≡ some x
    → cutoff ≤ x.received_at
    → lookup j (prune_ids cutoff ids s).0.spots_by_id ≡ some x
unfolding prune_ids
prune_ids-kept cutoff [] s j x q l = q
prune_ids-kept cutoff (id ∷ ids) s j x q l = elim (Option-cases (lookup id s.spots_by_id)) [
  | inl e ↦ rw (prune_ids, e) (prune_ids-kept cutoff ids s j x q l)
  | inr (spot, e) ↦ elim (Bool-cases (leb cutoff spot.received_at)) [
    | inl b ↦ rw (prune_ids, e, b) q
    | inr b ↦
        rw (prune_ids, e, b)
          (prune_ids-kept cutoff ids (remove_by_id id s).0 j x
            (rw
              (
                removed_spots id s spot e,
                lookup-remove id j s.spots_by_id,
                not_removed cutoff id j s.spots_by_id spot x e b q l,
              )
              q)
            l)
  ]
]

-- In a store whose ids are in the order of time and list every spot, pruning leaves exactly the
-- spots that are not older than the given age.
pub prune_lem :
    (now max_age : ℕ) (s : BandMapSpotStore) (id : ℕ) (spot : BandMapSpot)
    → InOrder s.spots_by_id s.ids_by_time
    → ((j : ℕ) (x : BandMapSpot) → lookup j s.spots_by_id ≡ some x → Listed j s.ids_by_time)
    → (lookup id (prune now max_age s).0.spots_by_id ≡ some spot)
      ↔ ((lookup id s.spots_by_id ≡ some spot) × (now - max_age ≤ spot.received_at))
unfolding prune
prune_lem now max_age s id spot o m = (
  prune_ids-from (now - max_age) s.ids_by_time s o (λ j x q. inl (m j x q)) id spot,
  λ h. prune_ids-kept (now - max_age) s.ids_by_time s id spot h.0 h.1,
)
