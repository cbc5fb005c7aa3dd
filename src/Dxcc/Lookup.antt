-- ===== src/Dxcc/Lookup.antt =====
-- `DxccDatabase::lookup` of backend/src/dxcc.rs: the entity of a callsign.
pub mod Longest
use log.Base.{
  ℕ, zero, suc, Bool, true, false, not, ◌&&◌, ◌||◌, Option, none, some, List, [], ◌∷◌, ◌++◌, ◌==◌,
  ltb, leb, if◌then◌else◌, ◌>>=◌, or_else, unwrap_or, is_some, all, length, get_elem?, select,
}
use log.Base.Text.{
  Text, text, text_eq, one_of, is_digit, is_empty, has_char, starts_with, split_once, byte_len,
}
use log.Callsign.{normalize}
use log.Dxcc.Prefix.{callsign_prefix}
use log.Dxcc.Rules.{DxccEntity, DxccRule, DxccDatabase}

pub record DxccInfo (F : Type 0) : Type 0 where
  pub country_name : Text
  pub adif : ℕ
  pub cq_zone : ℕ
  pub itu_zone : ℕ
  pub continent : Text
  pub latitude : F
  pub longitude : F
  pub utc_offset : F
  pub primary_prefix : Text
  pub waedc_cq_list : Bool

-- The two parts around the only slash, both not empty.
unfoldable pub split_slash_callsign : Text → Option (Text × Text)
split_slash_callsign callsign = split_once b'/' callsign >>= λ p.
    if is_empty p.0 || has_char b'/' p.1 || is_empty p.1 then none else some p

unfoldable pub is_ignored_slash_suffix : Text → Bool
is_ignored_slash_suffix part =
    one_of (text "M" ∷ text "P" ∷ text "MM" ∷ text "QRP" ∷ []) part
    || ((byte_len part == 1) && all is_digit part)

module _ {F : Type 0} where
  -- An index out of range is a panic, which is `none` here and below.
  unfoldable pub info_for_rule : DxccDatabase F → DxccRule F → Option (DxccInfo F)
  info_for_rule database rule = get_elem? database.entities rule.entity_index >>= λ entity.
      some (record {
        country_name = entity.country_name;
        adif = entity.adif;
        cq_zone = unwrap_or rule.cq_zone entity.cq_zone;
        itu_zone = unwrap_or rule.itu_zone entity.itu_zone;
        continent = unwrap_or rule.continent entity.continent;
        latitude = unwrap_or rule.latitude entity.latitude;
        longitude = unwrap_or rule.longitude entity.longitude;
        utc_offset = unwrap_or rule.utc_offset entity.utc_offset;
        primary_prefix = entity.primary_prefix;
        waedc_cq_list = entity.waedc_cq_list;
      })

  unfoldable pub is_waedc : List (DxccEntity F) → DxccRule F → Bool
  is_waedc entities rule = elim (get_elem? entities rule.entity_index) [
    | none ↦ false
    | some entity ↦ entity.waedc_cq_list
  ]

  -- The loop of `lookup_exact`, from the best rule so far.
  unfoldable pub better_exact :
      List (DxccEntity F) → Text → Option (DxccRule F) → DxccRule F → Option (DxccRule F)
  better_exact entities callsign best rule =
      if not rule.exact || not (text_eq rule.pattern_text callsign) then best else elim best [
        | none ↦ some rule
        | some b ↦ if is_waedc entities rule && not (is_waedc entities b) then some rule else some b
      ]

  unfoldable pub best_exact :
      List (DxccEntity F) → Text → Option (DxccRule F) → List (DxccRule F) → Option (DxccRule F)
  best_exact entities callsign best [] = best
  best_exact entities callsign best (rule ∷ rules) =
      best_exact entities callsign (better_exact entities callsign best rule) rules

  unfoldable pub lookup_exact : DxccDatabase F → Text → Option (DxccInfo F)
  lookup_exact database callsign =
      best_exact database.entities callsign none database.rules >>= info_for_rule database

  unfoldable pub prefix_matches : Text → DxccRule F → Bool
  prefix_matches callsign rule = not rule.exact && starts_with callsign rule.pattern_text

  -- `max_by_key`: of equal lengths the last rule wins.
  unfoldable pub longest : Option (DxccRule F) → List (DxccRule F) → Option (DxccRule F)
  longest best [] = best
  longest none (rule ∷ rules) = longest (some rule) rules
  longest (some b) (rule ∷ rules) =
      longest
        (some (if leb (byte_len b.pattern_text) (byte_len rule.pattern_text) then rule else b))
        rules

  unfoldable pub best_prefix : List (DxccRule F) → Text → Option (DxccRule F)
  best_prefix rules callsign = longest none (select (prefix_matches callsign) rules)

  unfoldable pub lookup_by_prefix : DxccDatabase F → Text → Option (DxccInfo F)
  lookup_by_prefix database callsign = callsign_prefix callsign >>= λ _.
      best_prefix database.rules callsign >>= info_for_rule database

  unfoldable pub lookup_direct : DxccDatabase F → Text → Option (DxccInfo F)
  lookup_direct database callsign =
      let normalized = normalize callsign in
      or_else (lookup_exact database normalized) (lookup_by_prefix database normalized)

  abbrev lookup_slash : DxccDatabase F → Text → Option (Text × Text) → Option (DxccInfo F)
  lookup_slash database callsign none = lookup_direct database callsign
  lookup_slash database callsign (some (left, right)) =
      if ltb (byte_len left) (byte_len right)
      then lookup_direct database left
      else if is_ignored_slash_suffix right
      then lookup_direct database left
      else or_else (lookup_direct database right) (lookup_direct database left)

  unfoldable pub lookup : DxccDatabase F → Text → Option (DxccInfo F)
  lookup database callsign =
      let normalized = normalize callsign in
      if is_empty normalized
      then none
      else or_else (lookup_exact database normalized)
          (lookup_slash database normalized (split_slash_callsign normalized))
