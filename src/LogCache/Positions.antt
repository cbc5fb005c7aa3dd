-- ===== src/LogCache/Positions.antt =====
-- Where the cached log finds a contact: the table of positions against a search of the list
-- (backend/src/log_cache.rs).
use log.Base.{
  ℕ, zero, suc, ◌+◌, ◌≤◌, ◌≡◌, ◌∙◌, ◌⊎◌, sym, ap, refl, Bool, false, Option, none, some, List, [],
  ◌∷◌, ◌++◌, arith, inl, inr, Bool-cases, Option-cases, ◌>>=◌, or_else, position, take, drop,
  length, get_elem?, find_first,
}
use log.Base.Position.{
  shift, shift-suc, shift_zero, count_if, count_if-append, position-none, count_none,
  position-append, take-drop,
}
use log.Base.Int.{ℤ, eq_ℤ}
use log.Base.Table.{Table, lookup, insert, lookup-insert, int_eq}
use log.Contact.{Contact, contact_id}
use log.Scoring.Incremental.Removal.{is_id}
use log.LogCache.Cached.{
  CachedLog, positions_from, rebuild_indexes, refresh_contact_positions_from,
  insert_new_contact_sorted, contact_by_id, sorted_insert_position,
}

-- No two contacts have one id.
abbrev pub OnceEach : List Contact → Type 0
OnceEach contacts = (id : ℤ) → count_if (is_id id) contacts ≤ 1

-- The table knows every id of the list at its place, and no other id.
abbrev pub IsPositioned : CachedLog → Type 0
IsPositioned cached =
    (id : ℤ) → lookup id cached.contact_positions ≡ position (is_id id) cached.contacts

pub is_id-none : (id : ℤ) (c : Contact) → contact_id c ≡ none → is_id id c ≡ false
is_id-none id c e = rw (is_id, e) refl

pub is_id-some : (id k : ℤ) (c : Contact) → contact_id c ≡ some k → is_id id c ≡ eq_ℤ k id
is_id-some id k c e = rw (is_id, e) refl

pub positions_lem :
    (id : ℤ) (index : ℕ) (contacts : List Contact) (positions : Table ℤ ℕ)
    → count_if (is_id id) contacts ≤ 1
    → lookup id (positions_from index contacts positions)
      ≡ or_else (shift index (position (is_id id) contacts)) (lookup id positions)
unfolding positions_from
positions_lem id index [] positions h = refl
positions_lem id index (c ∷ cs) positions h = elim (Option-cases (contact_id c)) [
  | inl e ↦
      let n = is_id-none id c e in
      let k : count_if (is_id id) cs ≤ 1 = rw n at h in
      rw (e, n, shift-suc index (position (is_id id) cs))
        (positions_lem id (suc index) cs positions k)
  | inr (other, e) ↦ elim (Bool-cases (eq_ℤ other id)) [
    | inl b ↦
        let n = is_id-some id other c e ∙ b in
        let k : suc (count_if (is_id id) cs) ≤ 1 = rw n at h in
        let z : count_if (is_id id) cs ≡ 0 = omega arith in
        rw
          (
            e,
            n,
            positions_lem id (suc index) cs (insert other index positions) (omega arith),
            position-none (is_id id) cs z,
            lookup-insert other id index positions,
            b,
          )
          (ground arith)
    | inr b ↦
        let n = is_id-some id other c e ∙ b in
        let k : count_if (is_id id) cs ≤ 1 = rw n at h in
        rw
          (
            e,
            n,
            positions_lem id (suc index) cs (insert other index positions) k,
            lookup-insert other id index positions,
            b,
            shift-suc index (position (is_id id) cs),
          )
          refl
  ]
]

or_none : (o : Option ℕ) → or_else o none ≡ o
or_none none = refl
or_none (some i) = refl

-- Rebuilding the indexes of contacts with distinct ids puts every id at its place.
pub rebuild_indexes-IsPositioned :
    (cached : CachedLog) → OnceEach cached.contacts → IsPositioned (rebuild_indexes cached)
unfolding rebuild_indexes lookup
rebuild_indexes-IsPositioned cached h id =
    rw
      (
        positions_lem id 0 cached.contacts [] (h id),
        shift_zero (position (is_id id) cached.contacts),
      )
      (or_none (position (is_id id) cached.contacts))

-- Finding a contact by the table of positions is searching the list for its id.
pub found_at :
    (p : Contact → Bool) (contacts : List Contact)
    → (position p contacts >>= λ index. get_elem? contacts index) ≡ find_first p contacts
found_at p [] = refl
found_at p (c ∷ cs) = elim (Bool-cases (p c)) [
  | inl e ↦ rw e refl
  | inr e ↦ rw (e, skip (position p cs)) (found_at p cs)
]
  where
    skip :
        (o : Option ℕ)
        → ((o >>= λ n. some (suc n)) >>= λ index. get_elem? (c ∷ cs) index)
          ≡ (o >>= λ index. get_elem? cs index)
    skip none = refl
    skip (some i) = refl

pub drop_placed :
    (index : ℕ) (contacts more : List Contact)
    → index ≤ length contacts
    → drop index (take index contacts ++ more) ≡ more
drop_placed zero contacts more h = refl
drop_placed (suc index) [] more h = ground arith
drop_placed (suc index) (c ∷ cs) more h = drop_placed index cs more (omega arith)

length-take :
    (index : ℕ) (contacts : List Contact)
    → index ≤ length contacts
    → length (take index contacts) ≡ index
length-take zero contacts h = refl
length-take (suc index) [] h = ground arith
length-take (suc index) (c ∷ cs) h = omega (arith, length-take index cs (omega arith))

-- An element among the others: the places from it on are new, those in front of it are as before.
placed_position :
    (p : Contact → Bool) (index : ℕ) (c : Contact) (contacts : List Contact)
    → index ≤ length contacts
    → count_if p (take index contacts ++ c ∷ drop index contacts) ≤ 1
    → or_else (shift index (position p (c ∷ drop index contacts))) (position p contacts)
      ≡ position p (take index contacts ++ c ∷ drop index contacts)
placed_position p index c contacts l h =
    let front = take index contacts in
    let back = drop index contacts in
    let total : count_if p front + count_if p (c ∷ back) ≤ 1 =
      rw (count_if-append p front (c ∷ back)) at h in
    elim (Option-cases (position p (c ∷ back))) [
      | inl e ↦
          let z : count_if p back ≡ 0 = tail_none (count_none p (c ∷ back) e) in
          let whole : position p contacts ≡ position p front =
            ap (position p) (sym (take-drop index contacts))
            ∙ position-append p front back
            ∙ ap (λ o. or_else (position p front) (shift (length front) o)) (position-none p back z)
            ∙ or_none (position p front) in
          rw (position-append p front (c ∷ back), e, whole) (sym (or_none (position p front)))
      | inr (i, e) ↦
          let some_back : 1 ≤ count_if p (c ∷ back) = positive (c ∷ back) i e in
          let z : count_if p front ≡ 0 = omega arith in
          rw
            (
              position-append p front (c ∷ back),
              e,
              position-none p front z,
              length-take index contacts l,
            )
            refl
    ]
  where
    tail_none : count_if p (c ∷ drop index contacts) ≡ 0 → count_if p (drop index contacts) ≡ 0
    tail_none z = elim (Bool-cases (p c)) [
      | inl b ↦
          absurd (let k : suc (count_if p (drop index contacts)) ≡ 0 = rw b at z in ground arith)
      | inr b ↦ rw b at z
    ]

    positive : (xs : List Contact) (i : ℕ) → position p xs ≡ some i → 1 ≤ count_if p xs
    positive xs i e = elim (zero_or (count_if p xs)) [
      | inl z ↦ absurd (let k = sym (position-none p xs z) ∙ e in ground arith)
      | inr k ↦ k
    ]
      where
        zero_or : (n : ℕ) → (n ≡ 0) ⊎ (1 ≤ n)
        zero_or zero = inl refl
        zero_or (suc n) = inr (omega arith)

-- Inserting a contact whose id no contact has keeps the table of positions right.
pub insert_new_contact_sorted-IsPositioned :
    (cached : CachedLog) (c : Contact)
    → sorted_insert_position cached.contacts c ≤ length cached.contacts
    → OnceEach (insert_new_contact_sorted cached c).contacts
    → IsPositioned cached
    → IsPositioned (insert_new_contact_sorted cached c)
unfolding insert_new_contact_sorted refresh_contact_positions_from
insert_new_contact_sorted-IsPositioned cached c l once h id =
    let index = sorted_insert_position cached.contacts c in
    let back = c ∷ drop index cached.contacts in
    rw
      (
        drop_placed index cached.contacts back l,
        positions_lem id index back cached.contact_positions (back_once id),
        h id,
      )
      (placed_position (is_id id) index c cached.contacts l (once id))
  where
    back_once :
        (id2 : ℤ)
        → count_if (is_id id2) (c ∷ drop (sorted_insert_position cached.contacts c) cached.contacts)
          ≤ 1
    back_once id2 =
        let index = sorted_insert_position cached.contacts c in
        let k = once id2 in
        omega (
          arith,
          k,
          count_if-append (is_id id2) (take index cached.contacts) (c ∷ drop index cached.contacts),
        )

-- After the indexes of a log with distinct ids are rebuilt, the lookup of an id gives the contact of the
-- log with that id, or none if there is none.
pub contact_by_id-rebuild_indexes :
    (cached : CachedLog) (id : ℤ)
    → OnceEach cached.contacts
    → contact_by_id (rebuild_indexes cached) id ≡ find_first (is_id id) cached.contacts
unfolding contact_by_id rebuild_indexes
contact_by_id-rebuild_indexes cached id o =
    rw (rebuild_indexes-IsPositioned cached o id) (found_at (is_id id) cached.contacts)
