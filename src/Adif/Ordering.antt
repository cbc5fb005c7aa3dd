-- ===== src/Adif/Ordering.antt =====
-- The order of the fields in a record of an exported log (`ordered_fields` of backend/src/adif.rs).
use log.Base.{
  ◌≡◌, ◌∙◌, sym, ap, subst, refl, Bool, true, false, Option, none, some, List, [], ◌∷◌, arith, inl,
  inr, Bool-cases, Option-cases, if◌then◌else◌,
}
use log.Base.Text.{Text, text_eq, text_eq_iff, is_empty}
use log.Base.Table.{Table, lookup, remove, lookup-remove, same, same_iff, text_eq_instance}
use log.Adif.Names.{normalize_field_name}
use log.Adif.Parse.{no_fields}
use log.Adif.FieldMaps.{IsUnique, remove-IsUnique}
use log.Adif.Fields.{normalize-normal}
use log.Adif.Files.{AllNamed}
use log.Adif.Records.{IsFieldName, AllNames}
use log.Adif.Contacts.{in_order}

-- Taking the preferred names out first leaves what each name has.
pub lookup-in_order :
    (keys : List Text) (fields : Table Text Text) (k : Text)
    → lookup k (in_order keys fields) ≡ lookup k fields
unfolding in_order lookup
lookup-in_order [] fields k = refl
lookup-in_order (key ∷ keys) fields k = elim (Option-cases (lookup key fields)) [
  | inl e ↦ rw (in_order, e) (lookup-in_order keys fields k)
  | inr (value, e) ↦
      rw (in_order, e)
        (elim (Bool-cases (text_eq key k)) [
          | inl f ↦
              rw f (
                sym
                  (subst (λ (n : Text). lookup n fields ≡ some value) ((text_eq_iff key k).0 f) e))
          | inr f ↦ rw f (
              lookup-in_order keys (remove key fields) k
              ∙ (lookup-remove key k fields ∙ skip (text_eq key k) f))
        ])
]
  where
    skip : {o : Option Text} (b : Bool) → b ≡ false → (if b then none else o) ≡ o
    skip true f = ground arith
    skip false f = refl

remove-AllNames :
    (k : Text) (fields : Table Text Text) → AllNames fields → AllNames (remove k fields)
unfolding remove
remove-AllNames k [] h = tt
remove-AllNames k ((j, v) ∷ fields) h = elim (Bool-cases (same j k)) [
  | inl e ↦ rw e (remove-AllNames k fields h.1)
  | inr e ↦ rw e (h.0, remove-AllNames k fields h.1)
]

lookup-IsFieldName :
    (k v : Text) (fields : Table Text Text)
    → AllNames fields
    → lookup k fields ≡ some v
    → IsFieldName k
unfolding lookup
lookup-IsFieldName k v [] h e = ground arith
lookup-IsFieldName k v ((j, w) ∷ fields) h e = elim (Bool-cases (same j k)) [
  | inl f ↦ subst (λ (n : Text). IsFieldName n) ((same_iff j k).0 f) h.0
  | inr f ↦ lookup-IsFieldName k v fields h.1 (let g : lookup k fields ≡ some v = rw f at e in g)
]

named : (name : Text) → IsFieldName name → is_empty (normalize_field_name name) ≡ false
named name h = ap is_empty (normalize-normal name h.1) ∙ h.0

AllNames-AllNamed : (fields : Table Text Text) → AllNames fields → AllNamed fields
AllNames-AllNamed [] h = tt
AllNames-AllNamed ((name, value) ∷ fields) h = (named name h.0, AllNames-AllNamed fields h.1)

pub in_order-AllNamed :
    (keys : List Text) (fields : Table Text Text)
    → AllNames fields
    → AllNamed (in_order keys fields)
unfolding in_order
in_order-AllNamed [] fields h = AllNames-AllNamed fields h
in_order-AllNamed (key ∷ keys) fields h = elim (Option-cases (lookup key fields)) [
  | inl e ↦ rw (in_order, e) (in_order-AllNamed keys fields h)
  | inr (value, e) ↦
      rw (in_order, e)
        (
          named key (lookup-IsFieldName key value fields h e),
          in_order-AllNamed keys (remove key fields) (remove-AllNames key fields h),
        )
]

pub in_order-some :
    (keys : List Text) (fields : Table Text Text)
    → no_fields fields ≡ false
    → no_fields (in_order keys fields) ≡ false
unfolding in_order
in_order-some [] fields h = h
in_order-some (key ∷ keys) fields h = elim (Option-cases (lookup key fields)) [
  | inl e ↦ rw (in_order, e) (in_order-some keys fields h)
  | inr (value, e) ↦ rw (in_order, e) refl
]

pub in_order-AllNames :
    (keys : List Text) (fields : Table Text Text)
    → AllNames fields
    → AllNames (in_order keys fields)
unfolding in_order
in_order-AllNames [] fields h = h
in_order-AllNames (key ∷ keys) fields h = elim (Option-cases (lookup key fields)) [
  | inl e ↦ rw (in_order, e) (in_order-AllNames keys fields h)
  | inr (value, e) ↦
      rw (in_order, e)
        (
          lookup-IsFieldName key value fields h e,
          in_order-AllNames keys (remove key fields) (remove-AllNames key fields h),
        )
]

pub in_order-IsUnique :
    (keys : List Text) (fields : Table Text Text)
    → IsUnique fields
    → IsUnique (in_order keys fields)
unfolding in_order lookup
in_order-IsUnique [] fields u = u
in_order-IsUnique (key ∷ keys) fields u = elim (Option-cases (lookup key fields)) [
  | inl e ↦ rw (in_order, e) (in_order-IsUnique keys fields u)
  | inr (value, e) ↦
      rw (in_order, e)
        (
          lookup-in_order keys (remove key fields) key ∙ (lookup-remove key key fields ∙ gone),
          in_order-IsUnique keys (remove key fields) (remove-IsUnique key fields u),
        )
]
  where
    gone : (if text_eq key key then none else lookup key fields) ≡ none
    gone = rw ((text_eq_iff key key).1 refl) refl
