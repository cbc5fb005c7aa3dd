-- ===== src/LogCache/Sorting.antt =====
-- The order of the cached contacts (`sort_contacts_desc` and `sorted_insert_position` of
-- backend/src/log_cache.rs).
use log.Base.{
  ℕ, zero, suc, ◌≤◌, ◌≡◌, refl, Bool, true, false, some, List, [], ◌∷◌, ◌++◌, arith, sym, ap, inl,
  inr, Bool-cases, if◌then◌else◌, take, drop, length, partition_point,
}
use log.Base.Position.{count_if}
use log.Base.Int.{ℤ, eq_ℤ, leb_ℤ}
use log.Contact.{Contact}
use log.LogCache.Cached.{
  contact_order_key, leb_key, at_least_as_new, insert_desc, sort_contacts_desc,
  sorted_insert_position, last_of,
}

leb_ℤ_trans : (a b c : ℤ) → leb_ℤ a b ≡ true → leb_ℤ b c ≡ true → leb_ℤ a c ≡ true
leb_ℤ_trans a b c h k = ground arith

leb_ℤ_antisym : (a b : ℤ) → leb_ℤ a b ≡ true → leb_ℤ b a ≡ true → eq_ℤ a b ≡ true
leb_ℤ_antisym a b h k = ground arith

leb_ℤ_total : (a b : ℤ) → leb_ℤ a b ≡ false → leb_ℤ b a ≡ true
leb_ℤ_total a b h = ground arith

leb_key_trans : (k l m : ℤ × ℤ) → leb_key k l ≡ true → leb_key l m ≡ true → leb_key k m ≡ true
leb_key_trans (a, b) (c, d) (e, f) h k = ground arith

leb_key_total : (k l : ℤ × ℤ) → leb_key k l ≡ false → leb_key l k ≡ true
leb_key_total (a, b) (c, d) h = ground arith

-- Every contact of the list is as old as the given one, or older.
abbrev pub AllOlder : Contact → List Contact → Type 0
AllOlder c [] = Unit {0}
AllOlder c (d ∷ ds) = (at_least_as_new d c ≡ true) × AllOlder c ds

-- From the newest on.
abbrev pub IsDesc : List Contact → Type 0
IsDesc [] = Unit {0}
IsDesc (c ∷ cs) = AllOlder c cs × IsDesc cs

at_least_as_new_trans :
    (a b c : Contact)
    → at_least_as_new a b ≡ true
    → at_least_as_new b c ≡ true
    → at_least_as_new a c ≡ true
at_least_as_new_trans a b c =
    leb_key_trans (contact_order_key a) (contact_order_key b) (contact_order_key c)

at_least_as_new_total : (a b : Contact) → at_least_as_new a b ≡ false → at_least_as_new b a ≡ true
at_least_as_new_total a b = leb_key_total (contact_order_key a) (contact_order_key b)

AllOlder-trans :
    (c d : Contact) (cs : List Contact) → at_least_as_new c d ≡ true → AllOlder c cs → AllOlder d cs
AllOlder-trans c d [] h k = tt
AllOlder-trans c d (e ∷ cs) h k = (at_least_as_new_trans e c d k.0 h, AllOlder-trans c d cs h k.1)

insert_desc-AllOlder :
    (c d : Contact) (cs : List Contact)
    → at_least_as_new c d ≡ true
    → AllOlder d cs
    → AllOlder d (insert_desc c cs)
unfolding insert_desc
insert_desc-AllOlder c d [] h k = (h, tt)
insert_desc-AllOlder c d (e ∷ cs) h k = elim (Bool-cases (at_least_as_new e c)) [
  | inl b ↦ rw b (h, k)
  | inr b ↦ rw b (k.0, insert_desc-AllOlder c d cs h k.1)
]

insert_desc-IsDesc : (c : Contact) (cs : List Contact) → IsDesc cs → IsDesc (insert_desc c cs)
unfolding insert_desc
insert_desc-IsDesc c [] h = (tt, tt)
insert_desc-IsDesc c (d ∷ cs) h = elim (Bool-cases (at_least_as_new d c)) [
  | inl b ↦ rw b ((b, AllOlder-trans d c cs b h.0), h)
  | inr b ↦
      rw b
        (insert_desc-AllOlder c d cs (at_least_as_new_total d c b) h.0, insert_desc-IsDesc c cs h.1)
]

pub sort_contacts_desc-IsDesc : (cs : List Contact) → IsDesc (sort_contacts_desc cs)
unfolding sort_contacts_desc
sort_contacts_desc-IsDesc [] = tt
sort_contacts_desc-IsDesc (c ∷ cs) =
    insert_desc-IsDesc c (sort_contacts_desc cs) (sort_contacts_desc-IsDesc cs)

count_if-insert_desc :
    (p : Contact → Bool) (c : Contact) (cs : List Contact)
    → count_if p (insert_desc c cs) ≡ count_if p (c ∷ cs)
unfolding insert_desc
count_if-insert_desc p c [] = refl
count_if-insert_desc p c (d ∷ cs) = elim (Bool-cases (at_least_as_new d c)) [
  | inl b ↦ rw b refl
  | inr b ↦ rw (b, count_if-insert_desc p c cs) (swap (p c) (p d))
]
  where
    swap :
        (x y : Bool)
        → (if y
            then suc (if x then suc (count_if p cs) else count_if p cs)
            else if x
            then suc (count_if p cs)
            else count_if p cs)
          ≡ (if x
              then suc (if y then suc (count_if p cs) else count_if p cs)
              else if y
              then suc (count_if p cs)
              else count_if p cs)
    swap true true = refl
    swap true false = refl
    swap false true = refl
    swap false false = refl

-- Sorting keeps how many contacts fit a test.
pub count_if-sort_contacts_desc :
    (p : Contact → Bool) (cs : List Contact) → count_if p (sort_contacts_desc cs) ≡ count_if p cs
unfolding sort_contacts_desc
count_if-sort_contacts_desc p [] = refl
count_if-sort_contacts_desc p (c ∷ cs) =
    rw (count_if-insert_desc p c (sort_contacts_desc cs))
      (rw (count_if-sort_contacts_desc p cs) refl)

partition_point-le : (p : Contact → Bool) (cs : List Contact) → partition_point p cs ≤ length cs
partition_point-le p [] = omega arith
partition_point-le p (c ∷ cs) = elim (Bool-cases (p c)) [
  | inl b ↦ rw b (omega (arith, partition_point-le p cs))
  | inr b ↦ rw b (omega arith)
]

placed-AllOlder :
    (index : ℕ) (c d : Contact) (cs : List Contact)
    → at_least_as_new c d ≡ true
    → AllOlder d cs
    → AllOlder d (take index cs ++ c ∷ drop index cs)
placed-AllOlder zero c d cs h k = (h, k)
placed-AllOlder (suc index) c d [] h k = (h, k)
placed-AllOlder (suc index) c d (e ∷ cs) h k = (k.0, placed-AllOlder index c d cs h k.1)

placed-IsDesc :
    (c : Contact) (cs : List Contact)
    → IsDesc cs
    → let index = partition_point (at_least_as_new c) cs in
      IsDesc (take index cs ++ c ∷ drop index cs)
placed-IsDesc c [] h = (tt, tt)
placed-IsDesc c (d ∷ cs) h = elim (Bool-cases (at_least_as_new c d)) [
  | inl b ↦ rw b (
    placed-AllOlder (partition_point (at_least_as_new c) cs) c d cs b h.0,
    placed-IsDesc c cs h.1,
  )
  | inr b ↦ let k = at_least_as_new_total c d b in rw b ((k, AllOlder-trans d c cs k h.0), h)
]

last_older :
    (c d : Contact) (cs : List Contact) (l : Contact)
    → IsDesc (d ∷ cs)
    → last_of (d ∷ cs) ≡ some l
    → at_least_as_new c l ≡ true
    → at_least_as_new c d ≡ true
unfolding last_of
last_older c d [] l h e k = let g : d ≡ l = ground arith in rw g k
last_older c d (f ∷ cs) l h e k = at_least_as_new_trans c f d (last_older c f cs l h.1 e k) h.0.0

all_newer :
    (c d : Contact) (cs : List Contact) (l : Contact)
    → IsDesc (d ∷ cs)
    → last_of (d ∷ cs) ≡ some l
    → at_least_as_new c l ≡ true
    → partition_point (at_least_as_new c) (d ∷ cs) ≡ length (d ∷ cs)
unfolding last_of
all_newer c d [] l h e k = rw (last_older c d [] l h e k) refl
all_newer c d (f ∷ cs) l h e k =
    rw (last_older c d (f ∷ cs) l h e k) (ap suc (all_newer c f cs l h.1 e k))

last_of-some : (d : Contact) (cs : List Contact) → (l : Contact) × (last_of (d ∷ cs) ≡ some l)
unfolding last_of
last_of-some d [] = (d, refl)
last_of-some d (c ∷ cs) = last_of-some c cs

-- On contacts in order, trying the two ends first gives the index of the binary search.
pub sorted_insert_position_lem :
    (c : Contact) (cs : List Contact)
    → IsDesc cs
    → sorted_insert_position cs c ≡ partition_point (at_least_as_new c) cs
unfolding sorted_insert_position
sorted_insert_position_lem c [] h = refl
sorted_insert_position_lem c (d ∷ cs) h = elim (Bool-cases (at_least_as_new c d)) [
  | inl b ↦
      let l = last_of-some d cs in
      elim (Bool-cases (at_least_as_new c l.0)) [
        | inl n ↦ let r = all_newer c d cs l.0 h l.1 n in rw (b, l.1, n) (sym (rw b at r))
        | inr n ↦ rw (b, l.1, n) refl
      ]
  | inr b ↦ rw b refl
]

pub sorted_insert_position-le :
    (c : Contact) (cs : List Contact) → IsDesc cs → sorted_insert_position cs c ≤ length cs
sorted_insert_position-le c cs h =
    rw (sorted_insert_position_lem c cs h) (partition_point-le (at_least_as_new c) cs)

pub insert_sorted-IsDesc :
    (c : Contact) (cs : List Contact)
    → IsDesc cs
    → IsDesc (take (sorted_insert_position cs c) cs ++ c ∷ drop (sorted_insert_position cs c) cs)
insert_sorted-IsDesc c cs h = rw (sorted_insert_position_lem c cs h) (placed-IsDesc c cs h)
