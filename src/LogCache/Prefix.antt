-- ===== src/LogCache/Prefix.antt =====
-- The search for callsigns by prefix (`matching_contact_ids_for_prefix` of backend/src/log_cache.rs).
use log.Base.{
  ◌≡◌, ◌∙◌, sym, refl, Bool, true, false, not, ◌&&◌, ◌||◌, List, [], ◌∷◌, ◌++◌, arith, inl, inr,
  Bool-cases, Option-cases, none, some, if◌then◌else◌, drop_while, any,
}
use log.Base.Int.{ℤ, eq_ℤ}
use log.Base.Text.{Text, starts_with}
use log.Base.Table.{Table}
use log.Contact.{Contact, contact_id}
use log.LogCache.Cached.{
  CachedLog, leb_text, push_id, take_while_prefix, matching_contact_ids_for_prefix, index_callsigns,
  add_contact_to_callsign_index, contact_callsign, rebuild_indexes,
}

pub leb_text_trans :
    (a b c : Text) → leb_text a b ≡ true → leb_text b c ≡ true → leb_text a c ≡ true
unfolding leb_text
leb_text_trans [] b c h k = refl
leb_text_trans (x ∷ a) [] c h k = ground arith
leb_text_trans (x ∷ a) (y ∷ b) [] h k = ground arith
leb_text_trans (x ∷ a) (y ∷ b) (z ∷ c) h k = ground (arith, leb_text_trans a b c)

pub leb_text_total : (a b : Text) → leb_text a b ≡ false → leb_text b a ≡ true
unfolding leb_text
leb_text_total [] b h = ground arith
leb_text_total (x ∷ a) [] h = refl
leb_text_total (x ∷ a) (y ∷ b) h = ground (arith, leb_text_total a b)

-- A text with a prefix comes after the prefix, and so does all between them have the prefix.
prefix_leb : (t p : Text) → starts_with t p ≡ true → leb_text p t ≡ true
unfolding leb_text starts_with
prefix_leb t [] h = refl
prefix_leb [] (x ∷ p) h = ground arith
prefix_leb (y ∷ t) (x ∷ p) h = ground (arith, prefix_leb t p)

between :
    (p s t : Text)
    → leb_text p s ≡ true
    → leb_text s t ≡ true
    → starts_with t p ≡ true
    → starts_with s p ≡ true
unfolding leb_text starts_with
between [] s t h k l = ground arith
between (x ∷ p) [] t h k l = ground arith
between (x ∷ p) (y ∷ s) [] h k l = ground arith
between (x ∷ p) (y ∷ s) (z ∷ t) h k l = ground (arith, between p s t)

abbrev pub AllAfter : Text → Table Text (List ℤ) → Type 0
AllAfter t [] = Unit {0}
AllAfter t ((s, ids) ∷ index) = (leb_text t s ≡ true) × AllAfter t index

-- The entries stand in the order of their callsigns.
abbrev pub IsOrdered : Table Text (List ℤ) → Type 0
IsOrdered [] = Unit {0}
IsOrdered ((s, ids) ∷ index) = AllAfter s index × IsOrdered index

-- The ids of every callsign with the prefix.
abbrev pub ids_with_prefix : Text → Table Text (List ℤ) → List ℤ
ids_with_prefix p [] = []
ids_with_prefix p ((s, ids) ∷ index) =
    let rest = ids_with_prefix p index in if starts_with s p then ids ++ rest else rest

none_after :
    (p s : Text) (index : Table Text (List ℤ))
    → leb_text p s ≡ true
    → starts_with s p ≡ false
    → AllAfter s index
    → ids_with_prefix p index ≡ []
none_after p s [] h n a = refl
none_after p s ((t, ids) ∷ index) h n a = elim (Bool-cases (starts_with t p)) [
  | inl b ↦ absurd (let k = sym (between p s t h a.0 b) ∙ n in ground arith)
  | inr b ↦ rw b (none_after p s index h n a.1)
]

taken :
    (p : Text) (index : Table Text (List ℤ))
    → AllAfter p index
    → IsOrdered index
    → take_while_prefix p index ≡ ids_with_prefix p index
taken p [] a o = refl
taken p ((s, ids) ∷ index) a o = elim (Bool-cases (starts_with s p)) [
  | inl b ↦ rw (b, taken p index a.1 o.1) refl
  | inr b ↦ rw b (sym (none_after p s index a.0 b o.0))
]

AllAfter-trans :
    (s t : Text) (index : Table Text (List ℤ))
    → leb_text s t ≡ true
    → AllAfter t index
    → AllAfter s index
AllAfter-trans s t [] h a = tt
AllAfter-trans s t ((u, ids) ∷ index) h a =
    (leb_text_trans s t u h a.0, AllAfter-trans s t index h a.1)

before_prefix : (p s : Text) → leb_text p s ≡ false → starts_with s p ≡ false
before_prefix p s h = elim (Bool-cases (starts_with s p)) [
  | inl c ↦ absurd (let k = sym h ∙ prefix_leb s p c in ground arith)
  | inr c ↦ c
]

searched :
    (p : Text) (index : Table Text (List ℤ))
    → IsOrdered index
    → take_while_prefix p (drop_while (λ e. not (leb_text p e.0)) index) ≡ ids_with_prefix p index
searched p [] o = refl
searched p ((s, ids) ∷ index) o = elim (Bool-cases (leb_text p s)) [
  | inl b ↦ rw b (taken p ((s, ids) ∷ index) (b, AllAfter-trans p s index b o.0) o)
  | inr b ↦ rw (b, before_prefix p s b) (searched p index o.1)
]

push_id-AllAfter :
    (s t : Text) (id : ℤ) (index : Table Text (List ℤ))
    → leb_text s t ≡ true
    → AllAfter s index
    → AllAfter s (push_id t id index)
unfolding push_id
push_id-AllAfter s t id [] h a = (h, tt)
push_id-AllAfter s t id ((u, ids) ∷ index) h a = elim (Bool-cases (leb_text t u)) [
  | inl b ↦ elim (Bool-cases (leb_text u t)) [ inl c ↦ rw (b, c) a | inr c ↦ rw (b, c) (h, a) ]
  | inr b ↦ rw b (a.0, push_id-AllAfter s t id index h a.1)
]

push_id-IsOrdered :
    (t : Text) (id : ℤ) (index : Table Text (List ℤ))
    → IsOrdered index
    → IsOrdered (push_id t id index)
unfolding push_id
push_id-IsOrdered t id [] o = (tt, tt)
push_id-IsOrdered t id ((u, ids) ∷ index) o = elim (Bool-cases (leb_text t u)) [
  | inl b ↦ elim (Bool-cases (leb_text u t)) [
    | inl c ↦ rw (b, c) o
    | inr c ↦ rw (b, c) ((b, AllAfter-trans t u index b o.0), o)
  ]
  | inr b ↦
      rw b
        (push_id-AllAfter u t id index (leb_text_total t u b) o.0, push_id-IsOrdered t id index o.1)
]

abbrev member : ℤ → List ℤ → Bool
member id ids = any (λ i. eq_ℤ i id) ids

member-append : (id : ℤ) (xs ys : List ℤ) → member id (xs ++ ys) ≡ (member id xs || member id ys)
member-append id [] ys = refl
member-append id (x ∷ xs) ys = ground (arith, member-append id xs ys)

leb_text_antisym : (s t : Text) → leb_text s t ≡ true → leb_text t s ≡ true → s ≡ t
unfolding leb_text
leb_text_antisym [] [] h k = refl
leb_text_antisym [] (y ∷ t) h k = ground arith
leb_text_antisym (x ∷ s) [] h k = ground arith
leb_text_antisym (x ∷ s) (y ∷ t) h k = cc (first, leb_text_antisym s t rest.0 rest.1)
  where
    first : x ≡ y
    first = ground arith

    rest : (leb_text s t ≡ true) × (leb_text t s ≡ true)
    rest = ground arith

new_entry :
    (a : Bool) (i id : ℤ) (ids : List ℤ)
    → member id (if a then i ∷ ids else ids) ≡ ((a && eq_ℤ i id) || member id ids)
new_entry true i id ids = refl
new_entry false i id ids = refl

joined : (a b c d : Bool) → ((a || (b || false)) || c) ≡ (b || (a || c))
joined true true c d = refl
joined true false c d = refl
joined false true c d = refl
joined false false c d = refl

moved : (a b c d : Bool) → (d || (a || c)) ≡ (a || (d || c))
moved true b c true = refl
moved true b c false = refl
moved false b c true = refl
moved false b c false = refl

swap_or : (a b c : Bool) → (a || (b || c)) ≡ ((b || a) || c)
swap_or true true c = refl
swap_or true false c = refl
swap_or false true c = refl
swap_or false false c = refl

or_false : (a : Bool) → (a || false) ≡ a
or_false true = refl
or_false false = refl

pushed_member :
    (p t : Text) (i id : ℤ) (index : Table Text (List ℤ))
    → member id (ids_with_prefix p (push_id t i index))
      ≡ ((starts_with t p && eq_ℤ i id) || member id (ids_with_prefix p index))
unfolding push_id
pushed_member p t i id [] = new_entry (starts_with t p) i id []
pushed_member p t i id ((u, ids) ∷ index) = elim (Bool-cases (leb_text t u)) [
  | inl b ↦ elim (Bool-cases (leb_text u t)) [
    | inl c ↦ rw (b, c, leb_text_antisym t u b c) same_entry
    | inr c ↦ rw (b, c) (new_entry (starts_with t p) i id (ids_with_prefix p ((u, ids) ∷ index)))
  ]
  | inr b ↦ rw b (elim (Bool-cases (starts_with u p)) [
    | inl e ↦
        rw
          (
            e,
            member-append id ids (ids_with_prefix p (push_id t i index)),
            member-append id ids (ids_with_prefix p index),
            pushed_member p t i id index,
          )
          (moved (starts_with t p && eq_ℤ i id) true (member id (ids_with_prefix p index))
            (member id ids))
    | inr e ↦ rw (e, pushed_member p t i id index) refl
  ])
]
  where
    same_entry :
        member id (ids_with_prefix p ((u, ids ++ i ∷ []) ∷ index))
        ≡ ((starts_with u p && eq_ℤ i id) || member id (ids_with_prefix p ((u, ids) ∷ index)))
    same_entry = elim (Bool-cases (starts_with u p)) [
      | inl e ↦
          rw
            (
              e,
              member-append id (ids ++ i ∷ []) (ids_with_prefix p index),
              member-append id ids (i ∷ []),
              member-append id ids (ids_with_prefix p index),
            )
            (joined (member id ids) (eq_ℤ i id) (member id (ids_with_prefix p index)) true)
      | inr e ↦ rw e refl
    ]

-- A contact with this id whose callsign has the prefix.
abbrev pub has_prefix : Text → ℤ → Contact → Bool
has_prefix p id c = elim (contact_id c) [
  | none ↦ false
  | some i ↦ elim (contact_callsign c) [ none ↦ false | some t ↦ starts_with t p && eq_ℤ i id ]
]

entered_member :
    (p : Text) (id : ℤ) (c : Contact) (index : Table Text (List ℤ))
    → member id (ids_with_prefix p (add_contact_to_callsign_index c index))
      ≡ (has_prefix p id c || member id (ids_with_prefix p index))
unfolding add_contact_to_callsign_index
entered_member p id c index = elim (Option-cases (contact_id c)) [
  | inl e ↦ rw (add_contact_to_callsign_index, has_prefix, e) refl
  | inr (i, e) ↦ elim (Option-cases (contact_callsign c)) [
    | inl f ↦ rw (add_contact_to_callsign_index, has_prefix, e, f) refl
    | inr (t, f) ↦
        rw (add_contact_to_callsign_index, has_prefix, e, f) (pushed_member p t i id index)
  ]
]

entered-IsOrdered :
    (c : Contact) (index : Table Text (List ℤ))
    → IsOrdered index
    → IsOrdered (add_contact_to_callsign_index c index)
unfolding add_contact_to_callsign_index
entered-IsOrdered c index o = elim (Option-cases (contact_id c)) [
  | inl e ↦ rw (add_contact_to_callsign_index, e) o
  | inr (i, e) ↦ elim (Option-cases (contact_callsign c)) [
    | inl f ↦ rw (add_contact_to_callsign_index, e, f) o
    | inr (t, f) ↦ rw (add_contact_to_callsign_index, e, f) (push_id-IsOrdered t i index o)
  ]
]

indexed_member :
    (p : Text) (id : ℤ) (cs : List Contact) (index : Table Text (List ℤ))
    → IsOrdered index
    → IsOrdered (index_callsigns cs index)
      × (member id (ids_with_prefix p (index_callsigns cs index))
          ≡ (any (has_prefix p id) cs || member id (ids_with_prefix p index)))
unfolding index_callsigns
indexed_member p id [] index o = (o, refl)
indexed_member p id (c ∷ cs) index o =
    let next = add_contact_to_callsign_index c index in
    let ih = indexed_member p id cs next (entered-IsOrdered c index o) in
    (
      ih.0,
      ih.1
          ∙ rw (entered_member p id c index) (
              swap_or (any (has_prefix p id) cs) (has_prefix p id c)
                (member id (ids_with_prefix p index))),
    )

-- After the indexes are rebuilt, the search by prefix finds an id exactly if a contact of the log
-- has that id and a callsign with that prefix.
pub matching_contact_ids_for_prefix_lem :
    (cached : CachedLog) (p : Text) (id : ℤ)
    → any (λ i. eq_ℤ i id) (matching_contact_ids_for_prefix (rebuild_indexes cached) p)
      ≡ any (has_prefix p id) cached.contacts
unfolding matching_contact_ids_for_prefix rebuild_indexes
matching_contact_ids_for_prefix_lem cached p id =
    let k = indexed_member p id cached.contacts [] tt in
    rw (searched p (index_callsigns cached.contacts []) k.0)
      (k.1 ∙ or_false (any (has_prefix p id) cached.contacts))
