-- ===== src/Dxcc/Rules.antt =====
-- The entities and rules of a CTY file (backend/src/dxcc.rs): how they are parsed.
pub mod Fuel
use log.Base.{
  ℕ, zero, suc, ◌-◌, ◌^◌, Bool, not, ◌&&◌, ◌||◌, Option, none, some, List, [], ◌∷◌, ◌++◌, ◌==◌,
  if◌then◌else◌, all, length, get_elem?, drop_while, reverse,
}
use log.Base.Text.{
  Text, text, trim, to_upper, starts_with, is_empty, is_whitespace, split_once, parse_unsigned,
}

-- The messages of the source, by the place that raises them. `out_of_fuel` is the model's own: it
-- would stand for a loop that does not end.
pub data CtyError : Type 0 where
  field_count missing_field bad_number bad_location unterminated bad_modifier no_pattern : CtyError
  out_of_fuel : CtyError

pub data Result {ℓ} (A : Type ℓ) : Type ℓ where
  ok : A → Result A
  err : CtyError → Result A

infixl 5 ◌>>=◌
abbrev pub ◌>>=◌ {ℓ κ} : {A : Type ℓ} {B : Type κ} → Result A → (A → Result B) → Result B
ok a >>= f = f a
err e >>= f = err e

abbrev pub ok_or {ℓ} : {A : Type ℓ} → CtyError → Option A → Result A
ok_or e none = err e
ok_or e (some a) = ok a

pub record DxccEntity (F : Type 0) : Type 0 where
  pub country_name : Text
  pub adif : ℕ
  pub cq_zone : ℕ
  pub itu_zone : ℕ
  pub continent : Text
  pub latitude : F
  pub longitude : F
  pub utc_offset : F
  pub primary_prefix : Text
  pub waedc_cq_list : Bool

pub record DxccRule (F : Type 0) : Type 0 where
  pub pattern_text : Text
  pub exact : Bool
  pub entity_index : ℕ
  pub cq_zone : Option ℕ
  pub itu_zone : Option ℕ
  pub continent : Option Text
  pub latitude : Option F
  pub longitude : Option F
  pub utc_offset : Option F

pub record DxccDatabase (F : Type 0) : Type 0 where
  pub entities : List (DxccEntity F)
  pub rules : List (DxccRule F)

unfoldable pub parse_u8_field : Text → Result ℕ
parse_u8_field value = ok_or bad_number (parse_unsigned 255 (trim value))

unfoldable pub parse_u16_field : Text → Result ℕ
parse_u16_field value = ok_or bad_number (parse_unsigned (2 ^ 16 - 1) (trim value))

abbrev trimmed : Option Text → Option Text
trimmed none = none
trimmed (some s) = some (trim s)

unfoldable pub record_field : List Text → ℕ → Result Text
record_field fields index = ok_or missing_field (trimmed (get_elem? fields index))

abbrev is_star : ℕ → Bool
is_star c = c == b'*'

-- The marks at which a rule's pattern ends and its modifiers begin.
abbrev opens : ℕ → Bool
opens c = (c == b'(') || (c == b'[') || (c == b'<') || (c == b'{') || (c == b'~')

-- A text in front of its first such mark, and from that mark on.
unfoldable pub split_modifiers : Text → Text × Text
split_modifiers [] = ([], [])
split_modifiers (c ∷ s) =
    let rest = split_modifiers s in if opens c then ([], c ∷ s) else (c ∷ rest.0, rest.1)

-- `trim_end_matches(';')`.
unfoldable pub trim_semicolons : Text → Text
trim_semicolons s = reverse (drop_while (λ c. c == b';') (reverse s))

-- `split_whitespace()`: the parts between white space that are not empty.
unfoldable pub words_from : Text → Text → List Text
words_from word [] = if is_empty word then [] else reverse word ∷ []
words_from word (c ∷ s) =
    let white = is_whitespace c in
    let rest = words_from (if white then [] else c ∷ word) s in
    if white && not (is_empty word) then reverse word ∷ rest else rest

-- The part of a text in front of the closing mark, and behind it.
unfoldable pub parse_wrapped_modifier : ℕ → ℕ → Text → Result (Option (Text × Text))
parse_wrapped_modifier open_mark close_mark [] = ok none
parse_wrapped_modifier open_mark close_mark (c ∷ rest) =
    if c == open_mark
    then elim (split_once close_mark rest) [ none ↦ err unterminated | some p ↦ ok (some p) ]
    else ok none

module _ {F : Type 0} (parse_f64 : Text → Option F) where
  unfoldable pub parse_f64_field : Text → Result F
  parse_f64_field value = ok_or bad_number (parse_f64 (trim value))

  abbrev pub Rule : Type 0
  Rule = DxccRule F

  unfoldable pub set_cq_zone : Rule → Text → Result Rule
  set_cq_zone r value = parse_u8_field value >>= λ n. ok (record r { cq_zone = some n })

  unfoldable pub set_itu_zone : Rule → Text → Result Rule
  set_itu_zone r value = parse_u8_field value >>= λ n. ok (record r { itu_zone = some n })

  unfoldable pub set_continent : Rule → Text → Result Rule
  set_continent r value = ok (record r { continent = some (trim value) })

  unfoldable pub set_utc_offset : Rule → Text → Result Rule
  set_utc_offset r value = parse_f64_field value >>= λ x. ok (record r { utc_offset = some x })

  unfoldable pub set_location : Rule → Text → Result Rule
  set_location r value = ok_or bad_location (split_once b'/' value) >>= λ p.
      parse_f64_field p.0 >>= λ x.
      parse_f64_field p.1 >>= λ y. ok (record r { latitude = some x; longitude = some y })

  abbrev Setter : Type 0
  Setter = Rule → Text → Result Rule

  -- The modifiers in the order in which the source tries them.
  abbrev pub modifier_kinds : List (ℕ × ℕ × Setter)
  modifier_kinds =
      (b'(', b')', set_cq_zone)
      ∷ (b'[', b']', set_itu_zone)
      ∷ (b'{', b'}', set_continent)
      ∷ (b'~', b'~', set_utc_offset)
      ∷ (b'<', b'>', set_location)
      ∷ []

  -- One round of the loop: the first kind that fits is applied.
  unfoldable pub apply_modifier : List (ℕ × ℕ × Setter) → Rule → Text → Result (Rule × Text)
  unfolding parse_wrapped_modifier
  apply_modifier [] r s = err bad_modifier
  apply_modifier ((o, c, setter) ∷ kinds) r s =
      let next = apply_modifier kinds r s in
      parse_wrapped_modifier o c s >>= λ found. elim found [
        | none ↦ next
        | some p ↦ (setter r p.0 >>= λ r'. ok (r', p.1))
      ]

  -- The loop over the modifiers, on fuel: a round consumes at least two characters.
  unfoldable pub parse_modifiers : ℕ → Rule → Text → Result Rule
  unfolding apply_modifier
  parse_modifiers fuel r [] = ok r
  parse_modifiers zero r (c ∷ s) = err out_of_fuel
  parse_modifiers (suc fuel) r (c ∷ s) =
      apply_modifier modifier_kinds r (c ∷ s) >>= λ p. parse_modifiers fuel p.0 p.1

  abbrev drop_equals : Text → Text
  drop_equals [] = []
  drop_equals (c ∷ s) = s

  unfoldable pub parse_rule : Text → ℕ → Result Rule
  unfolding parse_modifiers split_modifiers
  parse_rule token entity_index =
      let trimmed_token = trim token in
      let exact = starts_with trimmed_token (text "=") in
      let rest = if exact then drop_equals trimmed_token else trimmed_token in
      let parts = split_modifiers rest in
      let rule : Rule = record {
        pattern_text = to_upper (trim parts.0);
        exact = exact;
        entity_index = entity_index;
        cq_zone = none;
        itu_zone = none;
        continent = none;
        latitude = none;
        longitude = none;
        utc_offset = none;
      } in
      parse_modifiers (length parts.1) rule parts.1 >>= λ r.
      if is_empty r.pattern_text then err no_pattern else ok r

  unfoldable pub parse_entity : List Text → Result (DxccEntity F)
  unfolding record_field parse_u8_field parse_u16_field parse_f64_field
  parse_entity fields = record_field fields 0 >>= λ raw_primary_prefix.
      record_field fields 1 >>= λ country_name.
      (record_field fields 2 >>= parse_u16_field) >>= λ adif. record_field fields 3 >>= λ continent.
      (record_field fields 4 >>= parse_u8_field) >>= λ cq_zone.
      (record_field fields 5 >>= parse_u8_field) >>= λ itu_zone.
      (record_field fields 6 >>= parse_f64_field) >>= λ latitude.
      (record_field fields 7 >>= parse_f64_field) >>= λ longitude.
      (record_field fields 8 >>= parse_f64_field) >>= λ utc_offset. ok (record {
        country_name = country_name;
        adif = adif;
        cq_zone = cq_zone;
        itu_zone = itu_zone;
        continent = continent;
        latitude = latitude;
        longitude = longitude;
        utc_offset = utc_offset;
        primary_prefix = drop_while is_star raw_primary_prefix;
        waedc_cq_list = starts_with raw_primary_prefix (text "*");
      })

  abbrev pub push_rule : List Rule → Text → ℕ → Result (List Rule)
  push_rule rules token entity_index = parse_rule token entity_index >>= λ r. ok (rules ++ r ∷ [])

  -- The aliases of a record, each after its trailing semicolons and white space are gone.
  unfoldable pub push_aliases : List Rule → List Text → ℕ → Result (List Rule)
  unfolding parse_rule
  push_aliases rules [] entity_index = ok rules
  push_aliases rules (token ∷ tokens) entity_index =
      let alias = trim (trim_semicolons (trim token)) in
      (if is_empty alias then ok rules else push_rule rules alias entity_index) >>= λ rules'.
      push_aliases rules' tokens entity_index

  -- One record of the file.
  unfoldable pub add_record : DxccDatabase F → List Text → Result (DxccDatabase F)
  unfolding parse_entity push_aliases words_from
  add_record database fields =
      if all (λ f. is_empty (trim f)) fields
      then ok database
      else if length fields == 10
      then (parse_entity fields >>= λ entity.
          let index = length database.entities in
          push_rule database.rules entity.primary_prefix index >>= λ rules.
          record_field fields 9 >>= λ aliases.
          push_aliases rules (words_from [] aliases) index >>= λ rules'.
          ok (record { entities = database.entities ++ entity ∷ []; rules = rules' }))
      else err field_count

  unfoldable pub add_records : DxccDatabase F → List (List Text) → Result (DxccDatabase F)
  unfolding add_record
  add_records database [] = ok database
  add_records database (fields ∷ records) =
      add_record database fields >>= λ database'. add_records database' records

  -- `from_str`, after the CSV reader.
  unfoldable pub from_records : List (List Text) → Result (DxccDatabase F)
  unfolding add_records
  from_records = add_records (record { entities = []; rules = [] })
