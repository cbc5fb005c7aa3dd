-- ===== src/LogCache/Delete.antt =====
-- A committed deletion from a cached log (`delete_contact` of backend/src/log_cache.rs).
use log.Base.{
  ℕ, ◌≤◌, ◌≡◌, ◌∙◌, sym, refl, true, none, some, List, [], ◌∷◌, arith, inl, inr, Bool-cases,
  Option-cases, ◌>>=◌, position, get_elem?, find_first,
}
use log.Base.Position.{count_if}
use log.Base.Int.{ℤ}
use log.Contact.{Contact}
use log.Scoring.Incremental.Removal.{is_id}
use log.LogCache.Cached.{CachedLog, rebuild_indexes}
use log.LogCache.Positions.{found_at}
use log.LogCache.Sorting.{IsDesc, AllOlder}
use log.LogCache.Consistent.{IsConsistent}
use log.LogCache.Cache.{LogCacheProcessor, without, run_deleted, delete_committed}
use log.LogCache.Upsert.{
  SameMarks, SameMarks-refl, SameMarks-trans, count_if-SameMarks, IsDesc-SameMarks,
  indexed-IsConsistent, revised,
}

count_if-without-le :
    (id other : ℤ) (cs : List Contact)
    → count_if (is_id other) (without id cs) ≤ count_if (is_id other) cs
unfolding without
count_if-without-le id other [] = omega arith
count_if-without-le id other (c ∷ cs) =
    let ih = count_if-without-le id other cs in
    elim (Bool-cases (is_id id c)) [ inl e ↦ rw e (ground arith) | inr e ↦ rw e (ground arith) ]

-- All contacts with the id are behind the one that is taken out.
count_if-without :
    (id : ℤ) (cs : List Contact)
    → count_if (is_id id) cs ≤ 1
    → count_if (is_id id) (without id cs) ≡ 0
unfolding without
count_if-without id [] h = refl
count_if-without id (c ∷ cs) h = elim (Bool-cases (is_id id c)) [
  | inl e ↦ rw e (ground arith)
  | inr e ↦
      let k : count_if (is_id id) cs ≤ 1 = rw e at h in
      rw (e, without, e) (count_if-without id cs k)
]

AllOlder-without :
    (id : ℤ) (c : Contact) (cs : List Contact) → AllOlder c cs → AllOlder c (without id cs)
unfolding without
AllOlder-without id c [] h = tt
AllOlder-without id c (d ∷ cs) h = elim (Bool-cases (is_id id d)) [
  | inl e ↦ rw e h.1
  | inr e ↦ rw e (h.0, AllOlder-without id c cs h.1)
]

IsDesc-without : (id : ℤ) (cs : List Contact) → IsDesc cs → IsDesc (without id cs)
unfolding without
IsDesc-without id [] h = tt
IsDesc-without id (c ∷ cs) h = elim (Bool-cases (is_id id c)) [
  | inl e ↦ rw e h.1
  | inr e ↦ rw e (AllOlder-without id c cs h.0, IsDesc-without id cs h.1)
]

find_first-none :
    (id : ℤ) (cs : List Contact) → find_first (is_id id) cs ≡ none → count_if (is_id id) cs ≡ 0
find_first-none id [] h = refl
find_first-none id (c ∷ cs) h = elim (Bool-cases (is_id id c)) [
  | inl e ↦ absurd (let k : some c ≡ none = rw e at h in ground arith)
  | inr e ↦ let k : find_first (is_id id) cs ≡ none = rw e at h in rw e (find_first-none id cs k)
]

module _ {P : Type 0} where
  -- Every processor leaves ids and times when it hears of a deletion.
  abbrev pub AllKeepRest : List (LogCacheProcessor P) → Type 0
  AllKeepRest [] = Unit {0}
  AllKeepRest (processor ∷ processors) =
      ((p : P) (contacts : List Contact) (deleted : Contact)
        → SameMarks (processor.on_contact_deleted p contacts deleted).1 contacts)
      × AllKeepRest processors

  run_deleted-SameMarks :
      (processors : List (LogCacheProcessor P)) (p : P) (contacts : List Contact)
      (deleted : Contact)
      → AllKeepRest processors
      → SameMarks (run_deleted processors p contacts deleted).1 contacts
  unfolding run_deleted
  run_deleted-SameMarks [] p contacts deleted h = SameMarks-refl contacts
  run_deleted-SameMarks (processor ∷ processors) p contacts deleted h =
      let first = processor.on_contact_deleted p contacts deleted in
      SameMarks-trans (run_deleted processors first.0 first.1 deleted).1 first.1 contacts
        (run_deleted-SameMarks processors first.0 first.1 deleted h.1) (h.0 p contacts deleted)

  -- After a committed deletion of an id from a cached log in which ids are distinct, contacts stand
  -- from the newest on and each id is at its place in the table of positions, that still holds, and
  -- no contact has the id, if the processors leave ids and times as they are.
  pub delete_committed-IsConsistent :
      (processors : List (LogCacheProcessor P)) (p : P) (cached : CachedLog) (id : ℤ) (revision : ℕ)
      → AllKeepRest processors
      → IsConsistent cached
      → let deleted = (delete_committed processors p cached id revision).1 in
        IsConsistent deleted × (count_if (is_id id) deleted.contacts ≡ 0)
  unfolding delete_committed rebuild_indexes
  delete_committed-IsConsistent processors p cached id revision k h =
      elim (Option-cases (position (is_id id) cached.contacts >>= get_elem? cached.contacts)) [
        | inl e ↦
            rw (delete_committed, e)
              (
                h,
                find_first-none id cached.contacts (sym (found_at (is_id id) cached.contacts) ∙ e),
              )
        | inr (deleted, e) ↦
            let rest = without id cached.contacts in
            let run = run_deleted processors p rest deleted in
            let m = run_deleted-SameMarks processors p rest deleted k in
            rw (delete_committed, e)
              (
                revised _ revision (
                    indexed-IsConsistent true (record cached { contacts = run.1 })
                      (λ other.
                        rw (count_if-SameMarks other run.1 rest m) (
                          omega
                            (arith, count_if-without-le id other cached.contacts, h.once other)))
                      (IsDesc-SameMarks run.1 rest m (IsDesc-without id cached.contacts h.desc))
                      (λ f. ground arith)),
                count_if-SameMarks id run.1 rest m
                    ∙ count_if-without id cached.contacts (h.once id),
              )
      ]
