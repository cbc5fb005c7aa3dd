-- ===== src/Callsign/Normal.antt =====
-- Normalized callsigns (`normalize` of backend/src/callsign.rs).
use log.Base.{
  ℕ, ◌≡◌, ◌∙◌, sym, ap, refl, true, false, [], ◌∷◌, ◌++◌, arith, ◌&&◌, Bool-cases, inl, inr, all,
}
use log.Base.Text.{Text, trim, trim_start, trim_end, to_upper, is_whitespace, upper_char, is_empty}
use log.Callsign.{normalize, parse}

white_upper : (c : ℕ) → is_whitespace (upper_char c) ≡ is_whitespace c
white_upper c = ground arith

empty_upper : (s : Text) → is_empty (to_upper s) ≡ is_empty s
unfolding to_upper
empty_upper [] = refl
empty_upper (c ∷ s) = refl

trim_start-upper : (s : Text) → trim_start (to_upper s) ≡ to_upper (trim_start s)
unfolding to_upper trim_start
trim_start-upper [] = refl
trim_start-upper (c ∷ s) = elim (Bool-cases (is_whitespace c)) [
  | inl w ↦ rw (white_upper c, w) (trim_start-upper s)
  | inr w ↦ rw (white_upper c, w) refl
]

trim_end-upper : (s : Text) → trim_end (to_upper s) ≡ to_upper (trim_end s)
unfolding to_upper trim_end
trim_end-upper [] = refl
trim_end-upper (c ∷ s) = elim (Bool-cases (is_whitespace c && is_empty (trim_end s))) [
  | inl w ↦ rw (white_upper c, trim_end-upper s, empty_upper (trim_end s), w) refl
  | inr w ↦ rw (white_upper c, trim_end-upper s, empty_upper (trim_end s), w) refl
]

pub trim-to_upper : (s : Text) → trim (to_upper s) ≡ to_upper (trim s)
unfolding trim
trim-to_upper s = rw (trim_start-upper s) (trim_end-upper (trim_start s))

trim_start-white : (w s : Text) → all is_whitespace w ≡ true → trim_start (w ++ s) ≡ trim_start s
unfolding trim_start
trim_start-white [] s h = refl
trim_start-white (c ∷ w) s h = elim (Bool-cases (is_whitespace c)) [
  | inl e ↦ let k : all is_whitespace w ≡ true = rw e at h in rw e (trim_start-white w s k)
  | inr e ↦ let k : false ≡ true = rw e at h in ground arith
]

trim_end-white : (w : Text) → all is_whitespace w ≡ true → trim_end w ≡ []
unfolding trim_end
trim_end-white [] h = refl
trim_end-white (c ∷ w) h = elim (Bool-cases (is_whitespace c)) [
  | inl e ↦ let k : all is_whitespace w ≡ true = rw e at h in rw (e, trim_end-white w k) refl
  | inr e ↦ let k : false ≡ true = rw e at h in ground arith
]

trim_end-append : (s w : Text) → all is_whitespace w ≡ true → trim_end (s ++ w) ≡ trim_end s
unfolding trim_end
trim_end-append [] w h = trim_end-white w h
trim_end-append (c ∷ s) w h = rw (trim_end-append s w h) refl

trim_start-none : (w : Text) → all is_whitespace w ≡ true → trim_start w ≡ []
unfolding trim_start
trim_start-none [] h = refl
trim_start-none (c ∷ w) h = elim (Bool-cases (is_whitespace c)) [
  | inl e ↦ let k : all is_whitespace w ≡ true = rw e at h in rw e (trim_start-none w k)
  | inr e ↦ let k : false ≡ true = rw e at h in ground arith
]

trim-append : (s w : Text) → all is_whitespace w ≡ true → trim (s ++ w) ≡ trim s
unfolding trim trim_start
trim-append [] w h = rw (trim_start-none w h) refl
trim-append (c ∷ s) w h = elim (Bool-cases (is_whitespace c)) [
  | inl e ↦ rw e (trim-append s w h)
  | inr e ↦ rw e (trim_end-append (c ∷ s) w h)
]

trim-white : (before s : Text) → all is_whitespace before ≡ true → trim (before ++ s) ≡ trim s
unfolding trim
trim-white before s h = rw (trim_start-white before s h) refl

normalize_lem :
    (before s t behind : Text)
    → all is_whitespace before ≡ true
    → all is_whitespace behind ≡ true
    → to_upper s ≡ to_upper t
    → normalize (before ++ (s ++ behind)) ≡ normalize t
unfolding normalize
normalize_lem before s t behind h k e =
    ap to_upper (trim-white before (s ++ behind) h ∙ trim-append s behind k)
    ∙ (sym (trim-to_upper s) ∙ (ap trim e ∙ trim-to_upper t))

-- A callsign parses the same with white space around it and with letters of another case: a text that
-- agrees with another in capital letters, with white space before and behind it, parses to what the
-- other parses to.
pub parse_lem :
    (before s t behind : Text)
    → all is_whitespace before ≡ true
    → all is_whitespace behind ≡ true
    → to_upper s ≡ to_upper t
    → parse (before ++ (s ++ behind)) ≡ parse t
unfolding parse
parse_lem before s t behind h k e = rw (normalize_lem before s t behind h k e) refl
