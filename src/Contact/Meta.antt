-- ===== src/Contact/Meta.antt =====
-- Reading back what was written into a contact (backend/src/db/contact.rs).
use log.Base.{◌≡◌, refl, true, Option, none, some, arith, if◌then◌else◌, unwrap_or, ◌>>=◌}
use log.Base.Text.{Text, text_eq, text_eq_iff}
use log.Contact.{
  Value, Fields, object, nil, field, get, put, Contact, meta_key, adif_key, contact_meta,
  contact_adif, contact_meta_value, contact_adif_value, set_contact_meta, set_contact_adif,
  normalize_adif_field_name,
}

pub get-put :
    (k j : Text) (v : Value) (m : Fields)
    → get j (put k v m) ≡ (if text_eq k j then some v else get j m)
unfolding get put
get-put k j v nil = refl
get-put k j v (field i w m) =
    ground (arith, text_eq_iff k j, text_eq_iff i k, text_eq_iff i j, get-put k j v m)

pub text_eq_refl : (s : Text) → text_eq s s ≡ true
text_eq_refl s = (text_eq_iff s s).1 refl

meta_set : (m : Fields) (c : Contact) → contact_meta (put meta_key (object m) c) ≡ some m
unfolding contact_meta
meta_set m c = rw (get-put meta_key meta_key (object m) c, text_eq_refl meta_key)

adif_set : (m : Fields) (c : Contact) → contact_adif (put adif_key (object m) c) ≡ some m
unfolding contact_adif
adif_set m c = rw (get-put adif_key adif_key (object m) c, text_eq_refl adif_key)

get-unwrap : (o : Option Fields) (k : Text) → get k (unwrap_or o nil) ≡ (o >>= get k)
unfolding get
get-unwrap none k = refl
get-unwrap (some m) k = refl

-- Reading a metadata key after one was set: the value set, or what was there before.
pub contact_meta_value-set_contact_meta :
    (c : Contact) (k j : Text) (v : Value)
    → contact_meta_value (set_contact_meta c k v) j
      ≡ (if text_eq k j then some v else contact_meta_value c j)
unfolding contact_meta_value set_contact_meta
contact_meta_value-set_contact_meta c k j v = rw (
  meta_set (put k v (unwrap_or (contact_meta c) nil)) c,
  get-put k j v (unwrap_or (contact_meta c) nil),
  get-unwrap (contact_meta c) j,
)

-- Reading an ADIF field after one was set: names are compared without regard to case or to the
-- white space around them.
pub contact_adif_value-set_contact_adif :
    (c : Contact) (k j : Text) (v : Value)
    → contact_adif_value (set_contact_adif c k v) j ≡ (
        if text_eq (normalize_adif_field_name k) (normalize_adif_field_name j)
        then some v
        else contact_adif_value c j)
unfolding contact_adif_value set_contact_adif
contact_adif_value-set_contact_adif c k j v = rw (
  adif_set (put (normalize_adif_field_name k) v (unwrap_or (contact_adif c) nil)) c,
  get-put (normalize_adif_field_name k) (normalize_adif_field_name j) v
      (unwrap_or (contact_adif c) nil),
  get-unwrap (contact_adif c) (normalize_adif_field_name j),
)

-- Metadata and ADIF fields do not touch one another.
pub contact_adif_value-set_contact_meta :
    (c : Contact) (k j : Text) (v : Value)
    → contact_adif_value (set_contact_meta c k v) j ≡ contact_adif_value c j
unfolding contact_adif_value set_contact_meta contact_adif text_eq
contact_adif_value-set_contact_meta c k j v =
    rw (get-put meta_key adif_key (object (put k v (unwrap_or (contact_meta c) nil))) c) refl
