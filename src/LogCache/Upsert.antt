-- ===== src/LogCache/Upsert.antt =====
-- Committed changes of a cached log (`upsert_contacts` and `ensure_loaded_locked` of
-- backend/src/log_cache.rs).
use log.Base.{
  ℕ, ◌≡◌, ◌∙◌, sym, ap, refl, Bool, true, false, Option, List, [], ◌∷◌, arith, if◌then◌else◌,
  position, map,
}
use log.Base.Position.{count_if}
use log.Base.Int.{ℤ}
use log.Base.Table.{int_eq}
use log.Contact.{Contact, contact_id}
use log.Scoring.Incremental.Removal.{is_id}
use log.LogCache.Cached.{
  CachedLog, rebuild_indexes, new_cached_log, sort_contacts_desc, apply_upserted_contacts,
  contact_order_key, leb_key, at_least_as_new,
}
use log.LogCache.Positions.{OnceEach, IsPositioned, rebuild_indexes-IsPositioned}
use log.LogCache.Sorting.{IsDesc, AllOlder, sort_contacts_desc-IsDesc}
use log.LogCache.Consistent.{IsConsistent, apply_upserted_contacts-Applied, sorted-OnceEach}
use log.LogCache.Cache.{
  LogCacheProcessor, ContactMutation, last_of_each, previous_of, run_upserted, run_loaded,
  upsert_committed, load_snapshot,
}

-- The same ids and times in the same order.
abbrev pub SameMarks : List Contact → List Contact → Type 0
SameMarks [] [] = Unit {0}
SameMarks (c ∷ cs) (d ∷ ds) =
    (contact_id c ≡ contact_id d) × (contact_order_key c ≡ contact_order_key d) × SameMarks cs ds
SameMarks _ _ = ⊥

pub SameMarks-trans :
    (xs ys zs : List Contact) → SameMarks xs ys → SameMarks ys zs → SameMarks xs zs
SameMarks-trans [] [] [] h k = tt
SameMarks-trans [] [] (c ∷ zs) h k = elim k [ ]
SameMarks-trans [] (b ∷ ys) zs h k = elim h [ ]
SameMarks-trans (a ∷ xs) [] zs h k = elim h [ ]
SameMarks-trans (a ∷ xs) (b ∷ ys) [] h k = elim k [ ]
SameMarks-trans (a ∷ xs) (b ∷ ys) (c ∷ zs) h k =
    (h.0 ∙ k.0, h.1 ∙ k.1, SameMarks-trans xs ys zs h.2 k.2)

pub SameMarks-refl : (cs : List Contact) → SameMarks cs cs
SameMarks-refl [] = tt
SameMarks-refl (c ∷ cs) = (refl, refl, SameMarks-refl cs)

id_test : (id : ℤ) (c d : Contact) → contact_id c ≡ contact_id d → is_id id c ≡ is_id id d
id_test id c d e = rw (is_id, e) refl

pub count_if-SameMarks :
    (id : ℤ) (xs ys : List Contact)
    → SameMarks xs ys
    → count_if (is_id id) xs ≡ count_if (is_id id) ys
count_if-SameMarks id [] [] h = refl
count_if-SameMarks id [] (b ∷ ys) h = elim h [ ]
count_if-SameMarks id (a ∷ xs) [] h = elim h [ ]
count_if-SameMarks id (a ∷ xs) (b ∷ ys) h =
    rw (id_test id a b h.0, count_if-SameMarks id xs ys h.2) refl

position-SameMarks :
    (id : ℤ) (xs ys : List Contact)
    → SameMarks xs ys
    → position (is_id id) xs ≡ position (is_id id) ys
position-SameMarks id [] [] h = refl
position-SameMarks id [] (b ∷ ys) h = elim h [ ]
position-SameMarks id (a ∷ xs) [] h = elim h [ ]
position-SameMarks id (a ∷ xs) (b ∷ ys) h =
    rw (id_test id a b h.0, position-SameMarks id xs ys h.2) refl

AllOlder-SameMarks :
    (a b : Contact) (xs ys : List Contact)
    → contact_order_key a ≡ contact_order_key b
    → SameMarks xs ys
    → AllOlder b ys
    → AllOlder a xs
AllOlder-SameMarks a b [] [] e h k = tt
AllOlder-SameMarks a b [] (d ∷ ys) e h k = elim h [ ]
AllOlder-SameMarks a b (c ∷ xs) [] e h k = elim h [ ]
AllOlder-SameMarks a b (c ∷ xs) (d ∷ ys) e h k = (older, AllOlder-SameMarks a b xs ys e h.2 k.1)
  where
    older : at_least_as_new c a ≡ true
    older =
        ap (λ x. leb_key x (contact_order_key a)) h.1
        ∙ ap (λ x. leb_key (contact_order_key d) x) e
        ∙ k.0

pub IsDesc-SameMarks : (xs ys : List Contact) → SameMarks xs ys → IsDesc ys → IsDesc xs
IsDesc-SameMarks [] [] h k = tt
IsDesc-SameMarks [] (b ∷ ys) h k = elim h [ ]
IsDesc-SameMarks (a ∷ xs) [] h k = elim h [ ]
IsDesc-SameMarks (a ∷ xs) (b ∷ ys) h k =
    (AllOlder-SameMarks a b xs ys h.1 h.2 k.0, IsDesc-SameMarks xs ys h.2 k.1)

pub indexed-IsConsistent :
    (dirty : Bool) (cached : CachedLog)
    → OnceEach cached.contacts
    → IsDesc cached.contacts
    → (dirty ≡ false → IsPositioned cached)
    → IsConsistent (if dirty then rebuild_indexes cached else cached)
unfolding rebuild_indexes
indexed-IsConsistent true cached o d h = record {
  once = o;
  placed = rebuild_indexes-IsPositioned cached o;
  desc = d;
}
indexed-IsConsistent false cached o d h = record { once = o; placed = h refl; desc = d }

pub revised :
    (cached : CachedLog) (n : ℕ)
    → IsConsistent cached
    → IsConsistent (record cached { revision = n })
revised cached n h = record { once = h.once; placed = h.placed; desc = h.desc }

module _ {P : Type 0} where
  -- A processor annotates contacts, and leaves their ids and times.
  abbrev pub KeepsMarks : LogCacheProcessor P → Type 0
  KeepsMarks processor =
      (p : P) (contacts committed : List Contact) (previous : List (Option Contact))
      → SameMarks (processor.on_contacts_upserted p contacts committed previous).1 contacts

  abbrev pub AllKeepMarks : List (LogCacheProcessor P) → Type 0
  AllKeepMarks [] = Unit {0}
  AllKeepMarks (processor ∷ processors) = KeepsMarks processor × AllKeepMarks processors

  run_upserted-SameMarks :
      (processors : List (LogCacheProcessor P)) (p : P) (contacts committed : List Contact)
      (previous : List (Option Contact))
      → AllKeepMarks processors
      → SameMarks (run_upserted processors p contacts committed previous).1 contacts
  unfolding run_upserted
  run_upserted-SameMarks [] p contacts committed previous h = SameMarks-refl contacts
  run_upserted-SameMarks (processor ∷ processors) p contacts committed previous h =
      let first = processor.on_contacts_upserted p contacts committed previous in
      SameMarks-trans (run_upserted processors first.0 first.1 committed previous).1 first.1
        contacts (run_upserted-SameMarks processors first.0 first.1 committed previous h.1)
        (h.0 p contacts committed previous)

  -- A committed change of a cached log keeps the ids distinct, the contacts from the newest on, and
  -- each id in the table of positions at its place, if the processors leave ids and times as they are.
  pub upsert_committed-IsConsistent :
      (processors : List (LogCacheProcessor P)) (p : P) (cached : CachedLog)
      (mutation : ContactMutation)
      → AllKeepMarks processors
      → IsConsistent cached
      → IsConsistent (upsert_committed processors p cached mutation).1
  unfolding upsert_committed
  upsert_committed-IsConsistent processors p cached mutation k h =
      let final = (last_of_each mutation.contacts).0 in
      let previous = map (previous_of cached) final in
      let applied = apply_upserted_contacts cached final previous in
      let a = apply_upserted_contacts-Applied cached final previous h in
      let run = run_upserted processors p applied.0.contacts final previous in
      let m = run_upserted-SameMarks processors p applied.0.contacts final previous k in
      revised _ mutation.revision (
        indexed-IsConsistent applied.1 (record applied.0 { contacts = run.1 })
          (λ id. rw (count_if-SameMarks id run.1 applied.0.contacts m) (a.0 id))
          (IsDesc-SameMarks run.1 applied.0.contacts m a.1)
          (λ e id. a.2 e id ∙ sym (position-SameMarks id run.1 applied.0.contacts m)))

  abbrev pub AllKeepIds : List (LogCacheProcessor P) → Type 0
  AllKeepIds [] = Unit {0}
  AllKeepIds (processor ∷ processors) =
      ((p : P) (contacts : List Contact)
        → SameMarks (processor.on_log_loaded p contacts).1 contacts)
      × AllKeepIds processors

  run_loaded-SameMarks :
      (processors : List (LogCacheProcessor P)) (p : P) (contacts : List Contact)
      → AllKeepIds processors
      → SameMarks (run_loaded processors p contacts).1 contacts
  unfolding run_loaded
  run_loaded-SameMarks [] p contacts h = SameMarks-refl contacts
  run_loaded-SameMarks (processor ∷ processors) p contacts h =
      let first = processor.on_log_loaded p contacts in
      SameMarks-trans (run_loaded processors first.0 first.1).1 first.1 contacts
        (run_loaded-SameMarks processors first.0 first.1 h.1) (h.0 p contacts)

  -- Loading a snapshot of contacts with distinct ids gives a cached log with distinct ids, from the
  -- newest on, each at its place in the table, if the processors leave ids and times as they are.
  pub load_snapshot-IsConsistent :
      (processors : List (LogCacheProcessor P)) (p : P) (revision : ℕ) (contacts : List Contact)
      → AllKeepIds processors
      → OnceEach contacts
      → IsConsistent (load_snapshot processors p revision contacts).1
  unfolding load_snapshot new_cached_log
  load_snapshot-IsConsistent processors p revision contacts k o =
      let loaded = (run_loaded processors p (sort_contacts_desc contacts)).1 in
      let m = run_loaded-SameMarks processors p (sort_contacts_desc contacts) k in
      let once : OnceEach loaded = λ id.
        rw (count_if-SameMarks id loaded (sort_contacts_desc contacts) m)
          (sorted-OnceEach contacts o id) in
      revised _ revision (
        indexed-IsConsistent true
          (record {
            revision = 0;
            contacts = sort_contacts_desc loaded;
            callsign_index = [];
            contact_positions = [];
          })
          (sorted-OnceEach loaded once) (sort_contacts_desc-IsDesc loaded) (λ e. ground arith))
