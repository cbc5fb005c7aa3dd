-- ===== src/LogCache/Consistent.antt =====
-- A cached log and its contacts (`CachedLog` and `upsert_contacts` of backend/src/log_cache.rs).
use log.Base.{
  ℕ, ◌≡◌, ◌∙◌, sym, refl, Bool, true, false, ◌||◌, Option, none, some, List, [], ◌∷◌, ◌++◌, arith,
  inl, inr, Bool-cases, Option-cases, take, drop, any, is_some,
}
use log.Base.Table.{lookup, contains_key, int_eq}
use log.Contact.{Contact, contact_id}
use log.Scoring.Incremental.Removal.{is_id}
use log.LogCache.Cached.{
  CachedLog, sort_contacts_desc, merge_all, has_contact_id, insert_new_contact_sorted, insert_all,
  insert_one, sorted_if, apply_upserted_contacts, sorted_insert_position,
  refresh_contact_positions_from,
}
use log.LogCache.Positions.{OnceEach, IsPositioned, insert_new_contact_sorted-IsPositioned}
use log.LogCache.Sorting.{
  IsDesc, sort_contacts_desc-IsDesc, count_if-sort_contacts_desc, sorted_insert_position-le,
  insert_sorted-IsDesc,
}
use log.LogCache.Ids.{
  New-unknown, New-no_id, placed-OnceEach, merge_contact-OnceEach, merge_all-OnceEach, New,
}

-- The contacts have distinct ids, stand from the newest on, and are found by the table of positions.
pub record IsConsistent (cached : CachedLog) : Type 0 where
  pub once : OnceEach cached.contacts
  pub placed : IsPositioned cached
  pub desc : IsDesc cached.contacts

not_known : (o : Option ℕ) → is_some o ≡ false → o ≡ none
not_known none h = refl
not_known (some n) h = ground arith

has_contact_id-New :
    (cached : CachedLog) (c : Contact)
    → IsPositioned cached
    → has_contact_id cached c ≡ false
    → New c cached.contacts
unfolding has_contact_id contains_key
has_contact_id-New cached c h f = elim (Option-cases (contact_id c)) [
  | inl e ↦ New-no_id c cached.contacts e
  | inr (k, e) ↦
      let q : is_some (lookup k cached.contact_positions) ≡ false = rw (has_contact_id, e) at f in
      New-unknown c cached.contacts k e
        (sym (h k) ∙ not_known (lookup k cached.contact_positions) q)
]

inserted_contacts :
    (cached : CachedLog) (c : Contact)
    → (insert_new_contact_sorted cached c).contacts
      ≡ take (sorted_insert_position cached.contacts c) cached.contacts
        ++ c ∷ drop (sorted_insert_position cached.contacts c) cached.contacts
unfolding insert_new_contact_sorted refresh_contact_positions_from
inserted_contacts cached c = refl

insert_new_contact_sorted-IsConsistent :
    (cached : CachedLog) (c : Contact)
    → New c cached.contacts
    → IsConsistent cached
    → IsConsistent (insert_new_contact_sorted cached c)
insert_new_contact_sorted-IsConsistent cached c n h =
    let index = sorted_insert_position cached.contacts c in
    let contacts = inserted_contacts cached c in
    let once : OnceEach (insert_new_contact_sorted cached c).contacts =
      rw contacts (placed-OnceEach index c cached.contacts n h.once) in
    record {
      once = once;
      placed =
          insert_new_contact_sorted-IsPositioned cached c
            (sorted_insert_position-le c cached.contacts h.desc) once h.placed;
      desc = rw contacts (insert_sorted-IsDesc c cached.contacts h.desc);
    }

-- While the indexes are not dirty, the whole cached log is consistent.
abbrev Clean : CachedLog × Bool → Type 0
Clean r = OnceEach r.0.contacts × (r.1 ≡ false → IsConsistent r.0)

insert_one-Clean :
    (dirty : Bool) (cached : CachedLog) (c : Contact)
    → Clean (cached, dirty)
    → Clean (insert_one dirty cached c)
unfolding insert_one
insert_one-Clean dirty cached c h = elim (Bool-cases (dirty || has_contact_id cached c)) [
  | inl b ↦ rw b (merge_contact-OnceEach c cached.contacts h.0, (λ e. ground arith))
  | inr b ↦
      let clean : dirty ≡ false = ground arith in
      let unknown : has_contact_id cached c ≡ false = ground arith in
      let n = has_contact_id-New cached c (h.1 clean).placed unknown in
      let next = insert_new_contact_sorted-IsConsistent cached c n (h.1 clean) in
      rw b (next.once, (λ e. next))
]

insert_all-Clean :
    (dirty : Bool) (cached : CachedLog) (committed : List Contact)
    → Clean (cached, dirty)
    → Clean (insert_all dirty cached committed)
unfolding insert_all
insert_all-Clean dirty cached [] h = h
insert_all-Clean dirty cached (c ∷ more) h =
    let one = insert_one dirty cached c in
    insert_all-Clean one.1 one.0 more (insert_one-Clean dirty cached c h)

pub sorted-OnceEach : (cs : List Contact) → OnceEach cs → OnceEach (sort_contacts_desc cs)
sorted-OnceEach cs h id = rw (count_if-sort_contacts_desc (is_id id) cs) (h id)

-- What an upsert leaves: distinct ids in order, and right positions unless they are to be rebuilt.
abbrev pub Applied : CachedLog × Bool → Type 0
Applied r = OnceEach r.0.contacts × IsDesc r.0.contacts × (r.1 ≡ false → IsPositioned r.0)

sorted_if-Applied : (r : CachedLog × Bool) → Clean r → Applied (sorted_if r.1 r.0, r.1)
sorted_if-Applied (cached, true) h = (
  sorted-OnceEach cached.contacts h.0,
  sort_contacts_desc-IsDesc cached.contacts,
  (λ e. ground arith),
)
sorted_if-Applied (cached, false) h = let c = h.1 refl in (c.once, c.desc, (λ e. c.placed))

pub apply_upserted_contacts-Applied :
    (cached : CachedLog) (committed : List Contact) (previous : List (Option Contact))
    → IsConsistent cached
    → Applied (apply_upserted_contacts cached committed previous)
unfolding apply_upserted_contacts
apply_upserted_contacts-Applied cached committed previous h =
    elim (Bool-cases (any is_some previous)) [
      | inl b ↦
          let merged = merge_all cached.contacts committed in
          rw b (
            sorted-OnceEach merged (merge_all-OnceEach cached.contacts committed h.once),
            sort_contacts_desc-IsDesc merged,
            (λ e. ground arith),
          )
      | inr b ↦ rw b (
          sorted_if-Applied (insert_all false cached committed)
            (insert_all-Clean false cached committed (h.once, (λ e. h))))
    ]
