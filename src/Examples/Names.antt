-- ===== src/Examples/Names.antt =====
-- Callsigns, contacts, bands and the entities of a CTY file.
use log.Base.{
  ℕ, ◌≡◌, ◌≤◌, ◌↔◌, ◌⊎◌, inl, inr, refl, Bool, true, false, Option, none, some, List, [], ◌∷◌,
  arith, if◌then◌else◌,
}
use log.Base.Text.{Text, text, text_eq}
use log.Callsign.{parse, resolve_pair}
use log.Callsign.Swap.{resolve_pair-swap, IsTie}
use log.Callsign.Normal.{parse_lem}
use log.Contact.{
  Contact, string, nil, field, set_contact_meta, set_contact_adif, contact_meta_value,
  contact_adif_value, normalize_adif_field_name, build_contact,
}
use log.Contact.Meta.{
  contact_meta_value-set_contact_meta, contact_adif_value-set_contact_adif,
  contact_adif_value-set_contact_meta,
}
use log.Dxcc.Rules.{DxccEntity, DxccRule}
use log.Dxcc.Lookup.{best_prefix, best_exact}
use log.Dxcc.Lookup.Longest.{Fits, NoneLonger, Decides, AllDecided, best_prefix_lem, best_exact_lem}
use log.Bands.{Band, BandCsvRow, load_bands, band_for_frequency, ok}
use log.Bands.Overlap.{band_for_frequency-load_bands}

resolve_pair-swap_example :
    ((resolve_pair (text "W1AW") (text "VE3")).0 ≡ (resolve_pair (text "VE3") (text "W1AW")).0)
    ↔ (IsTie (text "W1AW") (text "VE3") → text "W1AW" ≡ text "VE3")
resolve_pair-swap_example = resolve_pair-swap (text "W1AW") (text "VE3")

parse_lem_example : parse (text "  w1aw/VE3 ") ≡ parse (text "W1AW/ve3")
unfolding log.Base.Text.to_upper
parse_lem_example =
    parse_lem (text "  ") (text "w1aw/VE3") (text "W1AW/ve3") (text " ") refl refl refl

abbrev named : Contact
unfolding build_contact
named = build_contact nil (field (text "call") (string (text "W1AW")) nil)

contact_meta_value-set_contact_meta_example :
    contact_meta_value (set_contact_meta named (text "id") (string (text "7"))) (text "mode") ≡ (
      if text_eq (text "id") (text "mode")
      then some (string (text "7"))
      else contact_meta_value named (text "mode"))
contact_meta_value-set_contact_meta_example =
    contact_meta_value-set_contact_meta named (text "id") (text "mode") (string (text "7"))

contact_adif_value-set_contact_adif_example :
    contact_adif_value (set_contact_adif named (text "CALL") (string (text "K1ABC"))) (text " call")
    ≡ (if text_eq
          (normalize_adif_field_name (text "CALL"))
          (normalize_adif_field_name (text " call"))
        then some (string (text "K1ABC"))
        else contact_adif_value named (text " call"))
contact_adif_value-set_contact_adif_example =
    contact_adif_value-set_contact_adif named (text "CALL") (text " call") (string (text "K1ABC"))

contact_adif_value-set_contact_meta_example :
    contact_adif_value (set_contact_meta named (text "call") (string (text "7"))) (text "call")
    ≡ contact_adif_value named (text "call")
contact_adif_value-set_contact_meta_example =
    contact_adif_value-set_contact_meta named (text "call") (text "call") (string (text "7"))

-- A rule of the entity with the given index; coordinates are of no matter here.
abbrev rule : Text → Bool → ℕ → DxccRule (Unit {0})
rule pattern_text exact entity_index = record {
  pattern_text = pattern_text;
  exact = exact;
  entity_index = entity_index;
  cq_zone = none;
  itu_zone = none;
  continent = none;
  latitude = none;
  longitude = none;
  utc_offset = none;
}

abbrev entity : Text → Bool → DxccEntity (Unit {0})
entity country_name waedc_cq_list = record {
  country_name = country_name;
  adif = 248;
  cq_zone = 15;
  itu_zone = 28;
  continent = text "EU";
  latitude = tt;
  longitude = tt;
  utc_offset = tt;
  primary_prefix = text "I";
  waedc_cq_list = waedc_cq_list;
}

abbrev italian_rules : List (DxccRule (Unit {0}))
italian_rules =
    rule (text "I") false 0
    ∷ rule (text "IT9") false 1
    ∷ rule (text "IS0") false 2
    ∷ rule (text "IG9A") true 0
    ∷ rule (text "IG9A") true 1
    ∷ []

abbrev italian_entities : List (DxccEntity (Unit {0}))
italian_entities = entity (text "Italy") false ∷ entity (text "Sicily") true ∷ []

best_prefix_example :
    Fits (text "IT9ABC") (rule (text "IT9") false 1) italian_rules
    × NoneLonger (text "IT9ABC") (rule (text "IT9") false 1) italian_rules
unfolding best_prefix log.Dxcc.Lookup.longest log.Dxcc.Lookup.prefix_matches
    log.Base.Text.starts_with log.Base.Text.byte_len
best_prefix_example = best_prefix_lem (text "IT9ABC") (rule (text "IT9") false 1) italian_rules refl

best_exact_example :
    Decides (text "IG9A") (rule (text "IG9A") true 1)
    × AllDecided italian_entities (text "IG9A") (rule (text "IG9A") true 1) italian_rules
unfolding best_exact log.Dxcc.Lookup.better_exact text_eq log.Dxcc.Lookup.is_waedc
best_exact_example =
    best_exact_lem italian_entities (text "IG9A") (rule (text "IG9A") true 1) italian_rules refl

abbrev row : Text → Text → Text → BandCsvRow
row band start end_text = record {
  band = band;
  start = start;
  end_text = end_text;
  cabrillo = start;
}

abbrev two_rows : List BandCsvRow
two_rows =
    row (text "40m") (text "7000") (text "7200") ∷ row (text "80m") (text "3500") (text "3800") ∷ []

abbrev band : Text → ℕ → ℕ → ℕ → Text → Band
band name lower_hz upper_hz sort_order cabrillo = record {
  iaru_region = 1;
  name = name;
  lower_hz = lower_hz;
  upper_hz = upper_hz;
  default_ssb_mode = text "LSB";
  sort_order = sort_order;
  cabrillo = cabrillo;
}

abbrev forty : Band
forty = band (text "40m") 7000000 7200000 1 (text "7000")

abbrev eighty : Band
eighty = band (text "80m") 3500000 3800000 2 (text "3500")

two_rows-load : load_bands 1 two_rows ≡ ok (forty ∷ eighty ∷ [])
unfolding load_bands log.Base.Text.trim log.Base.Text.split_once log.Base.Text.digits_from text_eq
    log.Base.Text.to_upper
two_rows-load = refl

band_for_frequency_example : band_for_frequency (forty ∷ eighty ∷ []) 3555000 ≡ some eighty
band_for_frequency_example =
    band_for_frequency-load_bands 1 two_rows (forty ∷ eighty ∷ []) eighty 3555000 two_rows-load
      (inr (inl refl)) refl (omega arith)
