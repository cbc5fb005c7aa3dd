-- ===== src/Adif/FieldMaps.antt =====
-- The sorted maps of fields (`BTreeMap` in backend/src/adif.rs), and what a reader finds in them.
use log.Base.{
  ◌≡◌, ◌∙◌, sym, ap, subst, refl, Bool, true, false, ◌&&◌, Option, none, some, [], ◌∷◌, arith, inl,
  inr, Bool-cases, if◌then◌else◌, ◌>>=◌, or_else, ◌⊎◌,
}
use log.Base.Text.{Text, text_eq, text_eq_iff, trim}
use log.Base.Table.{Table, lookup, remove, lookup-remove, text_eq_instance}
use log.LogCache.Cached.{leb_text}
use log.LogCache.Prefix.{leb_text_trans, leb_text_total}
use log.Adif.Names.{normalize_field_name, single_line, insert_field}
use log.Adif.Fields.{normalize-normal}
use log.Adif.Files.{read_fields}
use log.Adif.Records.{AllNames}

leb_text_refl : (s : Text) → leb_text s s ≡ true
unfolding leb_text
leb_text_refl [] = refl
leb_text_refl (c ∷ s) = ground (arith, leb_text_refl s)

leb_text_antisym : (s t : Text) → leb_text s t ≡ true → leb_text t s ≡ true → s ≡ t
unfolding leb_text
leb_text_antisym [] [] h k = refl
leb_text_antisym [] (d ∷ t) h k = ground arith
leb_text_antisym (c ∷ s) [] h k = ground arith
leb_text_antisym (c ∷ s) (d ∷ t) h k = ground (arith, leb_text_antisym s t)

-- What a name has after an insertion.
pub lookup-insert_field :
    (name value k : Text) (fields : Table Text Text)
    → lookup k (insert_field name value fields)
      ≡ (if text_eq name k then some value else lookup k fields)
unfolding lookup insert_field
lookup-insert_field name value k [] = refl
lookup-insert_field name value k ((other, v) ∷ fields) = elim (Bool-cases (leb_text name other)) [
  | inl b ↦ elim (Bool-cases (leb_text other name)) [
    | inl c ↦ rw (b, c) (same_name (leb_text_antisym name other b c))
    | inr c ↦ rw (b, c) refl
  ]
  | inr b ↦
      rw (b, lookup-insert_field name value k fields)
        (apart (text_eq other k) (text_eq name k) (some v) (some value) (lookup k fields)
          (not_both b))
]
  where
    same_name :
        name ≡ other
        → (if text_eq other k then some value else lookup k fields) ≡ (
            if text_eq name k
            then some value
            else (if text_eq other k then some v else lookup k fields))
    same_name e = rw e (twice (text_eq other k))
      where
        twice :
            (b : Bool)
            → (if b then some value else lookup k fields)
              ≡ (if b then some value else (if b then some v else lookup k fields))
        twice true = refl
        twice false = refl

    not_both : leb_text name other ≡ false → (text_eq other k && text_eq name k) ≡ false
    not_both h = elim (Bool-cases (text_eq other k)) [
      | inl e ↦ elim (Bool-cases (text_eq name k)) [
        | inl f ↦
            let same : name ≡ other = (text_eq_iff name k).0 f ∙ sym ((text_eq_iff other k).0 e) in
            absurd (
              let g : leb_text other other ≡ false = subst (λ n. leb_text n other ≡ false) same h in
              let g' = leb_text_refl other in ground arith)
        | inr f ↦ rw (e, f) refl
      ]
      | inr e ↦ rw e refl
    ]

    apart :
        (b c : Bool) (x y z : Option Text)
        → (b && c) ≡ false
        → (if b then x else (if c then y else z)) ≡ (if c then y else (if b then x else z))
    apart true true x y z h = ground arith
    apart true false x y z h = refl
    apart false c x y z h = refl

-- Every name of the map comes after this one.
abbrev pub AllBehind : Text → Table Text Text → Type 0
AllBehind k [] = Unit {0}
AllBehind k ((j, v) ∷ fields) = (leb_text k j ≡ true) × (leb_text j k ≡ false) × AllBehind k fields

abbrev pub IsAscending : Table Text Text → Type 0
IsAscending [] = Unit {0}
IsAscending ((j, v) ∷ fields) = AllBehind j fields × IsAscending fields

not_back : (k t j : Text) → leb_text k t ≡ true → leb_text j t ≡ false → leb_text j k ≡ false
not_back k t j h n = elim (Bool-cases (leb_text j k)) [
  | inl e ↦ absurd (let f = leb_text_trans j k t e h in ground arith)
  | inr e ↦ e
]

AllBehind-trans :
    (k t : Text) (fields : Table Text Text)
    → leb_text k t ≡ true
    → AllBehind t fields
    → AllBehind k fields
AllBehind-trans k t [] h a = tt
AllBehind-trans k t ((j, v) ∷ fields) h a =
    (leb_text_trans k t j h a.0, not_back k t j h a.1, AllBehind-trans k t fields h a.2)

insert_field-AllBehind :
    (k name value : Text) (fields : Table Text Text)
    → leb_text k name ≡ true
    → leb_text name k ≡ false
    → AllBehind k fields
    → AllBehind k (insert_field name value fields)
unfolding insert_field
insert_field-AllBehind k name value [] h n a = (h, n, tt)
insert_field-AllBehind k name value ((other, v) ∷ fields) h n a =
    elim (Bool-cases (leb_text name other)) [
      | inl b ↦ elim (Bool-cases (leb_text other name)) [
        | inl c ↦ rw (b, c) a
        | inr c ↦ rw (b, c) (h, n, a)
      ]
      | inr b ↦ rw b (a.0, a.1, insert_field-AllBehind k name value fields h n a.2)
    ]

pub insert_field-IsAscending :
    (name value : Text) (fields : Table Text Text)
    → IsAscending fields
    → IsAscending (insert_field name value fields)
unfolding insert_field
insert_field-IsAscending name value [] o = (tt, tt)
insert_field-IsAscending name value ((other, v) ∷ fields) o =
    elim (Bool-cases (leb_text name other)) [
      | inl b ↦ elim (Bool-cases (leb_text other name)) [
        | inl c ↦ rw (b, c) o
        | inr c ↦ rw (b, c) ((b, c, AllBehind-trans name other fields b o.0), o)
      ]
      | inr b ↦ rw b (
        insert_field-AllBehind other name value fields (leb_text_total name other b) b o.0,
        insert_field-IsAscending name value fields o.1,
      )
    ]

-- No name stands twice.
abbrev pub IsUnique : Table Text Text → Type 0
IsUnique [] = Unit {0}
IsUnique ((j, v) ∷ fields) = (lookup j fields ≡ none) × IsUnique fields

AllBehind-none : (k : Text) (fields : Table Text Text) → AllBehind k fields → lookup k fields ≡ none
unfolding lookup
AllBehind-none k [] a = refl
AllBehind-none k ((j, v) ∷ fields) a = elim (Bool-cases (text_eq j k)) [
  | inl e ↦ absurd (
      let f : leb_text k k ≡ false =
        subst (λ n. leb_text n k ≡ false) ((text_eq_iff j k).0 e) a.1 in
      let g = leb_text_refl k in ground arith)
  | inr e ↦ rw e (AllBehind-none k fields a.2)
]

pub ascending-IsUnique : (fields : Table Text Text) → IsAscending fields → IsUnique fields
ascending-IsUnique [] o = tt
ascending-IsUnique ((j, v) ∷ fields) o =
    (AllBehind-none j fields o.0, ascending-IsUnique fields o.1)

pub remove-IsUnique :
    (k : Text) (fields : Table Text Text) → IsUnique fields → IsUnique (remove k fields)
unfolding remove
remove-IsUnique k [] u = tt
remove-IsUnique k ((j, v) ∷ fields) u = elim (Bool-cases (text_eq j k)) [
  | inl e ↦ rw e (remove-IsUnique k fields u.1)
  | inr e ↦ rw e (lookup-remove k j fields ∙ gone (text_eq k j), remove-IsUnique k fields u.1)
]
  where
    gone : (b : Bool) → (if b then none else lookup j fields) ≡ none
    gone true = refl
    gone false = u.0

-- A value as a reader of its field gets it.
abbrev pub clean : Text → Text
clean value = trim (single_line value)

-- What a reader finds under a name, of fields whose names stand once.
pub lookup-read_fields :
    (row fields : Table Text Text) (k : Text)
    → AllNames row
    → IsUnique row
    → lookup k (read_fields row fields)
      ≡ or_else (lookup k row >>= λ v. some (clean v)) (lookup k fields)
unfolding lookup
lookup-read_fields [] fields k n u = refl
lookup-read_fields ((name, value) ∷ row) fields k n u =
    lookup-read_fields row (insert_field (normalize_field_name name) (clean value) fields) k n.1 u.1
    ∙ (ap (or_else (lookup k row >>= λ v. some (clean v))) (
          lookup-insert_field (normalize_field_name name) (clean value) k fields
          ∙ ap (λ m. if text_eq m k then some (clean value) else lookup k fields)
              (normalize-normal name n.0.1))
        ∙ here (Bool-cases (text_eq name k)))
  where
    here :
        (text_eq name k ≡ true) ⊎ (text_eq name k ≡ false)
        → or_else
            (lookup k row >>= λ v. some (clean v))
            (if text_eq name k then some (clean value) else lookup k fields)
          ≡ or_else
              ((if text_eq name k then some value else lookup k row) >>= λ v. some (clean v))
              (lookup k fields)
    here (inl e) =
        let gone : lookup k row ≡ none =
          subst (λ m. lookup m row ≡ none) ((text_eq_iff name k).0 e) u.0 in
        rw (e, gone) refl
    here (inr e) = rw e refl
