-- ===== src/BandMap/Order.antt =====
-- The order of the band map's ids in time (`insert_id_by_time` of backend/src/bandmap.rs).
use log.Base.{
  ℕ, zero, suc, ◌≤◌, ◌≡◌, ◌⊎◌, refl, Bool, true, false, none, some, List, [], ◌∷◌, ◌++◌, arith, inl,
  inr, Bool-cases, ◌==◌, not, select, partition_point, ==_iff, take, drop,
}
use log.Base.Table.{lookup, insert, same, same_iff, lookup-insert, nat_eq}
use log.BandMap.Types.{BandMapSpot}
use log.BandMap.Store.{BandMapSpotStore, comes_before, insert_id_by_time}
use log.BandMap.Prune.{Spots, Listed, AllFrom, InOrder, same_spot}

-- Every listed id has a spot.
abbrev pub AllKnown : Spots → List ℕ → Type 0
AllKnown spots [] = Unit {0}
AllKnown spots (id ∷ ids) =
    ((spot : BandMapSpot) × (lookup id spots ≡ some spot)) × AllKnown spots ids

AllFrom-le :
    (spots : Spots) (m n : ℕ) (ids : List ℕ) → m ≤ n → AllFrom spots n ids → AllFrom spots m ids
AllFrom-le spots m n [] l h = tt
AllFrom-le spots m n (id ∷ ids) l h =
    ((λ x q. let k = h.0 x q in omega (arith, k, l)), AllFrom-le spots m n ids l h.1)

-- Where an id goes.
abbrev placed : ℕ → ℕ → List ℕ → List ℕ
placed index id ids = take index ids ++ id ∷ drop index ids

AllFrom-placed :
    (spots : Spots) (time index id : ℕ) (ids : List ℕ)
    → ((x : BandMapSpot) → lookup id spots ≡ some x → time ≤ x.received_at)
    → AllFrom spots time ids
    → AllFrom spots time (placed index id ids)
AllFrom-placed spots time zero id ids l h = (l, h)
AllFrom-placed spots time (suc index) id [] l h = (l, h)
AllFrom-placed spots time (suc index) id (j ∷ ids) l h =
    (h.0, AllFrom-placed spots time index id ids l h.1)

before_time :
    (spots : Spots) (time id j : ℕ) (x : BandMapSpot)
    → comes_before spots time id j ≡ true
    → lookup j spots ≡ some x
    → x.received_at ≤ time
unfolding comes_before
before_time spots time id j x b q = let k = rw (comes_before, q) at b in ground arith

after_time :
    (spots : Spots) (time id j : ℕ) (x : BandMapSpot)
    → comes_before spots time id j ≡ false
    → lookup j spots ≡ some x
    → time ≤ x.received_at
unfolding comes_before
after_time spots time id j x b q = let k = rw (comes_before, q) at b in ground arith

insert_id-InOrder :
    (spots : Spots) (id : ℕ) (spot : BandMapSpot) (ids : List ℕ)
    → lookup id spots ≡ some spot
    → AllKnown spots ids
    → InOrder spots ids
    → InOrder spots (placed (partition_point (comes_before spots spot.received_at id) ids) id ids)
insert_id-InOrder spots id spot [] e a h = ((λ x q. tt), tt)
insert_id-InOrder spots id spot (j ∷ ids) e a h =
    elim (Bool-cases (comes_before spots spot.received_at id j)) [
      | inl b ↦ rw b (
        (λ x q.
            AllFrom-placed spots x.received_at
              (partition_point (comes_before spots spot.received_at id) ids) id ids
              (λ y r.
                same_spot x.received_at id spots spot y e r
                  (before_time spots spot.received_at id j x b q))
              (h.0 x q)),
        insert_id-InOrder spots id spot ids e a.1 h.1,
      )
      | inr b ↦ rw b (
        (λ x q.
            let l : x.received_at ≤ spot.received_at =
              same_spot x.received_at id spots x spot q e (omega arith) in
            let m = after_time spots spot.received_at id j in
            (
              (λ y r. let k = m y b r in omega (arith, k, l)),
              AllFrom-le spots x.received_at a.0.0.received_at ids
                  (let k = m a.0.0 b a.0.1 in omega (arith, k, l)) (h.0 a.0.0 a.0.1),
            )),
        h,
      )
    ]

unchanged :
    (spots : Spots) (id j : ℕ) (spot : BandMapSpot)
    → (id ≡ j → ⊥)
    → lookup j (insert id spot spots) ≡ lookup j spots
unchanged spots id j spot n = elim (Bool-cases (same id j)) [
  | inl e ↦ absurd (n ((same_iff id j).0 e))
  | inr e ↦ rw (lookup-insert id j spot spots, e) refl
]

AllFrom-insert :
    (spots : Spots) (id : ℕ) (spot : BandMapSpot) (time : ℕ) (ids : List ℕ)
    → (Listed id ids → ⊥)
    → AllFrom spots time ids
    → AllFrom (insert id spot spots) time ids
AllFrom-insert spots id spot time [] n h = tt
AllFrom-insert spots id spot time (j ∷ ids) n h = (
  (λ x q. h.0 x (rw (unchanged spots id j spot (λ e. n (inl e))) at q)),
  AllFrom-insert spots id spot time ids (λ m. n (inr m)) h.1,
)

pub InOrder-insert :
    (spots : Spots) (id : ℕ) (spot : BandMapSpot) (ids : List ℕ)
    → (Listed id ids → ⊥)
    → InOrder spots ids
    → InOrder (insert id spot spots) ids
InOrder-insert spots id spot [] n h = tt
InOrder-insert spots id spot (j ∷ ids) n h = (
  (λ x q.
      AllFrom-insert spots id spot x.received_at ids (λ m. n (inr m))
        (h.0 x (rw (unchanged spots id j spot (λ e. n (inl e))) at q))),
  InOrder-insert spots id spot ids (λ m. n (inr m)) h.1,
)

pub AllKnown-insert :
    (spots : Spots) (id : ℕ) (spot : BandMapSpot) (ids : List ℕ)
    → (Listed id ids → ⊥)
    → AllKnown spots ids
    → AllKnown (insert id spot spots) ids
AllKnown-insert spots id spot [] n h = tt
AllKnown-insert spots id spot (j ∷ ids) n h = (
  (h.0.0, rw (unchanged spots id j spot (λ e. n (inl e))) h.0.1),
  AllKnown-insert spots id spot ids (λ m. n (inr m)) h.1,
)

module _ (test : ℕ → Bool) where
  AllFrom-select :
      (spots : Spots) (time : ℕ) (ids : List ℕ)
      → AllFrom spots time ids
      → AllFrom spots time (select test ids)
  AllFrom-select spots time [] h = tt
  AllFrom-select spots time (j ∷ ids) h = elim (Bool-cases (test j)) [
    | inl b ↦ rw b (h.0, AllFrom-select spots time ids h.1)
    | inr b ↦ rw b (AllFrom-select spots time ids h.1)
  ]

  pub InOrder-select :
      (spots : Spots) (ids : List ℕ) → InOrder spots ids → InOrder spots (select test ids)
  InOrder-select spots [] h = tt
  InOrder-select spots (j ∷ ids) h = elim (Bool-cases (test j)) [
    | inl b ↦
        rw b
          ((λ x q. AllFrom-select spots x.received_at ids (h.0 x q)), InOrder-select spots ids h.1)
    | inr b ↦ rw b (InOrder-select spots ids h.1)
  ]

  pub AllKnown-select :
      (spots : Spots) (ids : List ℕ) → AllKnown spots ids → AllKnown spots (select test ids)
  AllKnown-select spots [] h = tt
  AllKnown-select spots (j ∷ ids) h = elim (Bool-cases (test j)) [
    | inl b ↦ rw b (h.0, AllKnown-select spots ids h.1)
    | inr b ↦ rw b (AllKnown-select spots ids h.1)
  ]

pub unlisted : (id : ℕ) (ids : List ℕ) → Listed id (select (λ j. not (j == id)) ids) → ⊥
unlisted id [] m = elim m [ ]
unlisted id (j ∷ ids) m = elim (Bool-cases (j == id)) [
  | inl b ↦ unlisted id ids (rw b at m)
  | inr b ↦
      let k : (id ≡ j) ⊎ Listed id (select (λ i. not (i == id)) ids) = rw b at m in
      elim k [ inl e ↦ ground (arith, ==_iff j id) | inr n ↦ unlisted id ids n ]
]

pub unknown_unlisted :
    (spots : Spots) (id : ℕ) (ids : List ℕ)
    → AllKnown spots ids
    → lookup id spots ≡ none
    → Listed id ids
    → ⊥
unknown_unlisted spots id [] a e m = elim m [ ]
unknown_unlisted spots id (j ∷ ids) a e (inl g) =
    let k : lookup j spots ≡ none = rw g at e in let w = a.0.1 in ground arith
unknown_unlisted spots id (j ∷ ids) a e (inr m) = unknown_unlisted spots id ids a.1 e m

-- The ids of a store are in the order of time, and each has a spot.
abbrev pub Ordered : BandMapSpotStore → Type 0
Ordered s = InOrder s.spots_by_id s.ids_by_time × AllKnown s.spots_by_id s.ids_by_time

AllKnown-placed :
    (spots : Spots) (index id : ℕ) (ids : List ℕ)
    → ((spot : BandMapSpot) × (lookup id spots ≡ some spot))
    → AllKnown spots ids
    → AllKnown spots (placed index id ids)
AllKnown-placed spots zero id ids k h = (k, h)
AllKnown-placed spots (suc index) id [] k h = (k, h)
AllKnown-placed spots (suc index) id (j ∷ ids) k h = (h.0, AllKnown-placed spots index id ids k h.1)

-- A known id goes to its place in the order of time.
pub insert_id_by_time-Ordered :
    (id : ℕ) (s : BandMapSpotStore) (spot : BandMapSpot)
    → lookup id s.spots_by_id ≡ some spot
    → Ordered s
    → Ordered (insert_id_by_time id s)
unfolding insert_id_by_time
insert_id_by_time-Ordered id s spot e h =
    rw (insert_id_by_time, e)
      (
        insert_id-InOrder s.spots_by_id id spot s.ids_by_time e h.1 h.0,
        AllKnown-placed s.spots_by_id _ id s.ids_by_time (spot, e) h.1,
      )
